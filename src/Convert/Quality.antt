-- ===== src/Convert/Quality.antt =====
-- goconv/stream_quality.go and goconv/sockopt.go.
use ffstream.Base.{
  ℕ, ◌≡◌, refl, Bool, true, false, Option, none, some, ◌==◌, ==_iff, if◌then◌else◌, arith,
}

-- `Float` is `float64`; `uint` has 64 bits.
pub record StreamQuality (Float : Type 0) : Type 0 where
  pub continuity : Float
  pub overlap : Float
  pub frame_rate : Float
  pub invalid_dts : ℕ

pub record StreamQualityGrpc (Float : Type 0) : Type 0 where
  pub continuity : Float
  pub overlap : Float
  pub frame_rate : Float
  pub invalid_dts : ℕ

module _ {Float : Type 0} where
  -- `StreamQualityToGRPC`
  unfoldable pub stream_quality_to_grpc : StreamQuality Float → Option (StreamQualityGrpc Float)
  stream_quality_to_grpc q = some (record {
    continuity = q.continuity;
    overlap = q.overlap;
    frame_rate = q.frame_rate;
    invalid_dts = q.invalid_dts;
  })

  -- `StreamQualityFromGRPC`, with the zero of `float64` as an argument
  unfoldable pub stream_quality_from_grpc :
      Float → Option (StreamQualityGrpc Float) → StreamQuality Float
  stream_quality_from_grpc zero_value none = record {
    continuity = zero_value;
    overlap = zero_value;
    frame_rate = zero_value;
    invalid_dts = 0;
  }
  stream_quality_from_grpc zero_value (some q) = record {
    continuity = q.continuity;
    overlap = q.overlap;
    frame_rate = q.frame_rate;
    invalid_dts = q.invalid_dts;
  }

  stream_quality-from-to :
      (zero_value : Float) (q : StreamQuality Float)
      → stream_quality_from_grpc zero_value (stream_quality_to_grpc q) ≡ q
  unfolding stream_quality_from_grpc stream_quality_to_grpc
  stream_quality-from-to zero_value q = refl

-- The message `SRTFlagInt`; a number that has no name is kept.
pub data SrtFlagInt : Type 0 where
  undefined : SrtFlagInt
  latency : SrtFlagInt
  unnamed : ℕ → SrtFlagInt

module _ (sockopt_latency : ℕ) where
  -- `SRTSockoptIntFromGRPC`; `sockopt_latency` is the library's `sockopt.LATENCY`.
  unfoldable pub srt_sockopt_from_grpc : SrtFlagInt → ℕ × Bool
  srt_sockopt_from_grpc latency = (sockopt_latency, true)
  srt_sockopt_from_grpc _ = (0, false)

  -- `SRTSockoptIntToGRPC`
  unfoldable pub srt_sockopt_to_grpc : ℕ → SrtFlagInt
  srt_sockopt_to_grpc id = if id == sockopt_latency then latency else undefined

  -- A flag that is accepted comes back from its socket option.
  pub srt_sockopt-to-from :
      (flag : SrtFlagInt)
      → (srt_sockopt_from_grpc flag).1 ≡ true
      → srt_sockopt_to_grpc (srt_sockopt_from_grpc flag).0 ≡ flag
  unfolding srt_sockopt_from_grpc srt_sockopt_to_grpc
  srt_sockopt-to-from undefined h = absurd (cc)
  srt_sockopt-to-from latency h = ground (arith, ==_iff sockopt_latency sockopt_latency)
  srt_sockopt-to-from (unnamed n) h = absurd (cc)
