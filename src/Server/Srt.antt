-- ===== src/Server/Srt.antt =====
-- pkg/ffstreamserver/grpc_server_libsrt.go: the statistics and the flags of an output's SRT socket.
pub mod Laws
use ffstream.Base.{
  ℕ, Bool, true, false, Option, none, some, Result, ok, err, panic, ◌≡◌, refl, ℤ, arith,
}
use ffstream.Convert.Quality.{SrtFlagInt, latency, srt_sockopt_from_grpc}
use ffstream.Convert.SrtStats.{Tracebstats, OutputSrtStats}
use ffstream.Convert.SrtStats.Functions.{output_srt_stats_to_grpc}
use ffstream.Stream.{FfStream}
use ffstream.Stream.Outputs.{MuxApi}
use ffstream.Stream.SrtOutput.{SrtApi, SrtError, with_srt_output}
use ffstream.Server.{Code, unknown, GrpcServer}

-- The socket of libsrt: `Bistats` with the conversion of its result, the flags, and `BlobInt`.
pub record SocketApi (Float : Type 0) {mux : MuxApi} (api : SrtApi mux) : Type 1 where
  pub Blob : Type 0
  pub blob_int : ℤ → Blob
  pub int_of_blob : Blob → ℤ
  pub sockopt_latency : ℕ
  pub bistats : api.World → api.Socket → api.World × Option (Tracebstats Float)
  pub setsockflag : api.World → api.Socket → ℕ → Blob → api.World × Bool
  pub getsockflag : api.World → api.Socket → ℕ → api.World × Option Blob

-- Every error is answered with the code `Unknown`.
abbrev pub answered :
    {World A B : Type 0} → (A → B) → World × Result SrtError A → World × Result Code B
answered f (w, ok a) = (w, ok (f a))
answered f (w, err e) = (w, err unknown)
answered f (w, panic) = (w, panic)

-- What a call without a result leaves.
abbrev pub done_if : {World : Type 0} → World × Bool → World × Option (Unit {0})
done_if (w, true) = (w, some tt)
done_if (w, false) = (w, none)

-- A flag of a message goes on as an option of a socket, if it is known.
abbrev pub with_sockopt :
    {World A : Type 0} → World → ℕ × Bool → (ℕ → World × Result Code A) → World × Result Code A
with_sockopt w (opt, true) f = f opt
with_sockopt w (opt, false) f = (w, err unknown)

module _ {Float : Type 0} {mux : MuxApi} (api : SrtApi mux) (socket : SocketApi Float api)
    {Inputs : Type 0} where
  unfoldable pub get_output_srt_stats :
      api.World → GrpcServer Inputs mux.Mux → ℤ → api.World × Result Code (OutputSrtStats Float)
  unfolding with_srt_output
  get_output_srt_stats w srv output_id =
      answered output_srt_stats_to_grpc
        (with_srt_output api w srv.ff_stream output_id socket.bistats)

  -- `SetFlagInt`
  unfoldable pub set_flag_int :
      api.World
      → GrpcServer Inputs mux.Mux
      → ℤ
      → SrtFlagInt
      → ℤ
      → api.World × Result Code (Unit {0})
  unfolding with_srt_output srt_sockopt_from_grpc
  set_flag_int w srv output_id flag value =
      with_sockopt w (srt_sockopt_from_grpc socket.sockopt_latency flag) λ opt.
        answered (λ done. done)
          (with_srt_output api w srv.ff_stream output_id
            λ w' sock. done_if (socket.setsockflag w' sock opt (socket.blob_int value)))

  -- `GetFlagInt`
  unfoldable pub get_flag_int :
      api.World → GrpcServer Inputs mux.Mux → ℤ → SrtFlagInt → api.World × Result Code ℤ
  unfolding with_srt_output srt_sockopt_from_grpc
  get_flag_int w srv output_id flag =
      with_sockopt w (srt_sockopt_from_grpc socket.sockopt_latency flag) λ opt.
        answered socket.int_of_blob
          (with_srt_output api w srv.ff_stream output_id λ w' sock. socket.getsockflag w' sock opt)
