-- ===== src/Server.antt =====
-- pkg/ffstreamserver/grpc_server.go: the server, its answers' codes and `End`.
pub mod Inputs
pub mod Outputs
pub mod Quality
pub mod End
pub mod Transport
pub mod Srt
pub mod Pipelines
pub mod Certificate
use ffstream.Base.{Bool, true, false, Result, ok, err, if◌then◌else◌}
use ffstream.Stream.{FfStream}

-- The codes of `status.Errorf` that the handlers answer with.
pub data Code : Type 0 where
  unimplemented : Code
  unknown : Code
  failed_precondition : Code
  invalid_argument : Code
  internal : Code

-- `stop_transcoding_func` says whether the function is set.
pub record GrpcServer (Inputs Mux : Type 0) : Type 0 where
  pub ff_stream : FfStream Inputs Mux
  pub stop_transcoding_func : Bool

module _ {Inputs Mux : Type 0} where
  unfoldable pub new_grpc_server : FfStream Inputs Mux → GrpcServer Inputs Mux
  new_grpc_server s = record { ff_stream = s; stop_transcoding_func = false }

  -- `SetLoggingLevel`
  unfoldable pub set_logging_level : GrpcServer Inputs Mux → Result Code (Unit {0})
  set_logging_level srv = err unimplemented

  -- `End`; what the function itself does is not seen here.
  unfoldable pub end : GrpcServer Inputs Mux → GrpcServer Inputs Mux × Result Code (Unit {0})
  end srv =
      if srv.stop_transcoding_func
      then (record srv { stop_transcoding_func = false }, ok tt)
      else (srv, err failed_precondition)
