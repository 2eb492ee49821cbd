-- ===== src/Server/Quality.antt =====
-- grpc_server.go: `GetStats`, `GetInputQuality` and `GetOutputQuality`, and the methods of ffstream.go
-- behind the latter.
use ffstream.Base.{Option, none, some, List, Result, ok, err, panic}
use ffstream.Convert.Counters.{NodeCounters, get_stats}
use ffstream.Convert.Quality.{StreamQuality, StreamQualityGrpc, stream_quality_to_grpc}
use ffstream.Stream.{StreamError, not_measured}
use ffstream.Server.{Code, unknown}

-- The library's `QualityAggregated`, and the message with its two parts.
pub record QualityAggregated (Float : Type 0) : Type 0 where
  pub audio : StreamQuality Float
  pub video : StreamQuality Float

pub record QualityReply (Float : Type 0) : Type 0 where
  pub audio : Option (StreamQualityGrpc Float)
  pub video : Option (StreamQualityGrpc Float)

-- A measurer of the stream: `GetQuality`, with `none` for an error, and `Aggregate`.
pub record MeasurerApi (Float : Type 0) : Type 1 where
  pub Quality : Type 0
  pub get_quality : Option Quality
  pub aggregate : Quality → QualityAggregated Float

module _ {Float : Type 0} where
  -- `GetInputQuality` and `GetOutputQuality` of the stream, each for its measurer.
  unfoldable pub get_quality : MeasurerApi Float → Result StreamError (QualityAggregated Float)
  get_quality measurer = elim measurer.get_quality [
    | none ↦ err not_measured
    | some q ↦ ok (measurer.aggregate q)
  ]

  -- The handlers of the same names.
  unfoldable pub get_quality_reply : MeasurerApi Float → Result Code (QualityReply Float)
  unfolding get_quality stream_quality_to_grpc
  get_quality_reply measurer = elim (get_quality measurer) [
    | ok q ↦
        ok (record {
          audio = stream_quality_to_grpc q.audio;
          video = stream_quality_to_grpc q.video;
        })
    | err e ↦ err unknown
    | panic ↦ panic
  ]

-- A stream that is nil has no statistics.
unfoldable pub get_stats_reply :
    Option (Option NodeCounters × List NodeCounters) → Result Code NodeCounters
get_stats_reply none = err unknown
get_stats_reply (some (inputs, outputs)) = ok (get_stats inputs outputs)
