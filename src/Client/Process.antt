-- ===== src/Client/Process.antt =====
-- client.go and client_srt.go: the log level, the statistics, the quality, and the calls that the
-- server answers with an error.
use ffstream.Base.{
  ℕ, String, Option, none, some, List, Result, err, ◌≡◌, ℤ, refl, Option-cases, Bool-cases, inl,
  inr, ◌==◌,
}
use ffstream.Convert.Counters.{NodeCounters}
use ffstream.Convert.Quality.{undefined, srt_sockopt_to_grpc, stream_quality_from_grpc}
use ffstream.Server.{Code, unimplemented, GrpcServer, set_logging_level, end}
use ffstream.Server.Quality.{
  QualityAggregated, QualityReply, MeasurerApi, get_quality_reply, get_stats_reply,
}
use ffstream.Client.{
  GrpcApi, ClientError, no_client, query_error, unknown_flag, grpc_client, call, received, Answer,
  with_answer, on_reply,
}

-- `logger.Level`, of which `other_level` is any without a name here, and `LoggingLevel`.
pub data Level : Type 0 where
  fatal : Level
  panicking : Level
  error : Level
  warning : Level
  info : Level
  debug : Level
  trace : Level
  other_level : ℕ → Level

pub data LoggingLevel : Type 0 where
  logging_fatal : LoggingLevel
  logging_panic : LoggingLevel
  logging_error : LoggingLevel
  logging_warn : LoggingLevel
  logging_info : LoggingLevel
  logging_debug : LoggingLevel
  logging_trace : LoggingLevel

unfoldable pub log_level_go2_protobuf : Level → LoggingLevel
log_level_go2_protobuf fatal = logging_fatal
log_level_go2_protobuf panicking = logging_panic
log_level_go2_protobuf error = logging_error
log_level_go2_protobuf warning = logging_warn
log_level_go2_protobuf info = logging_info
log_level_go2_protobuf debug = logging_debug
log_level_go2_protobuf trace = logging_trace
log_level_go2_protobuf (other_level n) = logging_warn

-- The answer that the generated code gives for a method that the server does not define: `RemoveOutput`, and `GetSRTFlagInt` and
-- `SetSRTFlagInt`, since grpc_server_libsrt.go calls them `GetFlagInt` and `SetFlagInt`.
unfoldable pub not_defined : {Reply : Type 0} → Result Code Reply
not_defined = err unimplemented

unfoldable pub quality_of : {Float : Type 0} → Float → QualityReply Float → QualityAggregated Float
unfolding stream_quality_from_grpc
quality_of zero_value reply = record {
  audio = stream_quality_from_grpc zero_value reply.audio;
  video = stream_quality_from_grpc zero_value reply.video;
}

module _ (grpc : GrpcApi) {Inputs Mux : Type 0} where
  -- The handler does not read the level of the request.
  unfoldable pub client_set_logging_level :
      String → GrpcServer Inputs Mux → Level → Answer (GrpcServer Inputs Mux) (Unit {0})
  client_set_logging_level target srv level =
      let request = log_level_go2_protobuf level in
      call grpc target tt srv (srv, set_logging_level srv)

  unfoldable pub client_remove_output :
      String → GrpcServer Inputs Mux → ℕ → Answer (GrpcServer Inputs Mux) (Unit {0})
  unfolding not_defined
  client_remove_output target srv output_id = call grpc target tt srv (srv, not_defined)

  unfoldable pub client_end :
      String → GrpcServer Inputs Mux → Answer (GrpcServer Inputs Mux) (Unit {0})
  client_end target srv = call grpc target tt srv (end srv)

  -- The counters of the inputs and of the outputs are what the server's stream has; the empty reply
  -- has none.
  unfoldable pub client_get_stats :
      NodeCounters
      → String
      → GrpcServer Inputs Mux
      → Option (Option NodeCounters × List NodeCounters)
      → Answer (GrpcServer Inputs Mux) NodeCounters
  client_get_stats empty target srv counters =
      call grpc target empty srv (srv, get_stats_reply counters)

  -- `GetInputQuality` and `GetOutputQuality`
  unfoldable pub client_get_quality :
      {Float : Type 0}
      → Float
      → String
      → GrpcServer Inputs Mux
      → MeasurerApi Float
      → Answer (GrpcServer Inputs Mux) (QualityAggregated Float)
  unfolding quality_of
  client_get_quality {Float} zero_value target srv measurer =
      let empty : QualityReply Float = record { audio = none; video = none } in
      with_answer (on_reply (quality_of zero_value))
        (call grpc target empty srv (srv, get_quality_reply measurer))

  -- What both methods do on a flag; `sockopt_latency` is the library's `sockopt.LATENCY`.
  unfoldable pub call_with_flag :
      {Reply : Type 0}
      → Reply
      → ℕ
      → String
      → GrpcServer Inputs Mux
      → ℕ
      → Answer (GrpcServer Inputs Mux) Reply
  unfolding not_defined
  call_with_flag empty sockopt_latency target srv flag = elim (grpc_client grpc target) [
    | none ↦ (srv, err no_client)
    | some dialed ↦ elim (srt_sockopt_to_grpc sockopt_latency flag) [
      | undefined ↦ (srv, err unknown_flag)
      | other ↦ call grpc target empty srv (srv, not_defined)
    ]
  ]

  unfoldable pub client_get_srt_flag_int :
      ℕ → String → GrpcServer Inputs Mux → ℕ → Answer (GrpcServer Inputs Mux) ℤ
  unfolding call_with_flag
  client_get_srt_flag_int sockopt_latency target srv flag =
      call_with_flag (ℤ.pos 0) sockopt_latency target srv flag

  unfoldable pub client_set_srt_flag_int :
      ℕ → String → GrpcServer Inputs Mux → ℕ → ℤ → Answer (GrpcServer Inputs Mux) (Unit {0})
  unfolding call_with_flag
  client_set_srt_flag_int sockopt_latency target srv flag value =
      call_with_flag tt sockopt_latency target srv flag

  -- The call failed and left the server as it was.
  abbrev pub Failed :
      {Reply : Type 0} → GrpcServer Inputs Mux → Answer (GrpcServer Inputs Mux) Reply → Type 0
  Failed srv answer = (answer.0 ≡ srv) × ((e : ClientError) × (answer.1 ≡ err e))

  call-Failed :
      {Reply : Type 0} (target : String) (empty : Reply) (srv : GrpcServer Inputs Mux) (code : Code)
      → Failed srv (call grpc target empty srv (srv, err code))
  unfolding call received
  call-Failed target empty srv code = elim (Option-cases (grpc_client grpc target)) [
    | inl e ↦ rw (e, call) (refl, (no_client, refl))
    | inr (dialed, e) ↦ elim (Bool-cases (grpc.reaches dialed)) [
      | inl there ↦ rw (e, call) (rw there (refl, (query_error (some code), refl)))
      | inr lost ↦ rw (e, call) (rw lost (refl, (query_error none, refl)))
    ]
  ]

  call_with_flag-Failed :
      {Reply : Type 0} (empty : Reply) (sockopt_latency : ℕ) (target : String)
      (srv : GrpcServer Inputs Mux) (flag : ℕ)
      → Failed srv (call_with_flag empty sockopt_latency target srv flag)
  unfolding call_with_flag not_defined srt_sockopt_to_grpc
  call_with_flag-Failed empty sockopt_latency target srv flag =
      elim (Option-cases (grpc_client grpc target)) [
        | inl e ↦ rw (e, call_with_flag) (refl, (no_client, refl))
        | inr (dialed, e) ↦ elim (Bool-cases (flag == sockopt_latency)) [
          | inl same ↦ rw (e, call_with_flag) (rw same (call-Failed target empty srv unimplemented))
          | inr other ↦ rw (e, call_with_flag) (rw other (refl, (unknown_flag, refl)))
        ]
      ]

  -- Reading and writing a flag of SRT give the client an error and leave the server as it was.
  pub flag_calls-Failed :
      (target : String) (srv : GrpcServer Inputs Mux) (sockopt_latency flag : ℕ) (value : ℤ)
      → Failed srv (client_get_srt_flag_int sockopt_latency target srv flag)
        × Failed srv (client_set_srt_flag_int sockopt_latency target srv flag value)
  unfolding client_get_srt_flag_int client_set_srt_flag_int
  flag_calls-Failed target srv sockopt_latency flag value = (
    call_with_flag-Failed (ℤ.pos 0) sockopt_latency target srv flag,
    call_with_flag-Failed tt sockopt_latency target srv flag,
  )
