-- ===== src/Client/Srt.antt =====
-- client_srt.go: the statistics of the SRT output. The flags are in Client/Process.
use ffstream.Base.{String, none, some, ok, ◌≡◌, refl, ap, ℤ}
use ffstream.Convert.SrtStats.{Tracebstats, OutputSrtStats}
use ffstream.Convert.SrtStats.Functions.{output_srt_stats_from_grpc, srt_stats-from-to}
use ffstream.Stream.Outputs.{MuxApi}
use ffstream.Stream.SrtOutput.{SrtApi, find_kernel, with_srt_output_ok, with_srt_output_panic}
use ffstream.Server.{GrpcServer}
use ffstream.Server.Srt.{SocketApi, get_output_srt_stats}
use ffstream.Client.{
  GrpcApi, IsGrpcApi, Answer, with_answer, on_reply, call, received, IsReachable, call-IsReachable,
  received_panic,
}

module _ (grpc : GrpcApi) {Float : Type 0} {mux : MuxApi} (api : SrtApi mux)
    (socket : SocketApi Float api) {Inputs : Type 0} where
  -- The request names no output, so that it asks for the number 0.
  unfoldable pub client_get_output_srt_stats :
      OutputSrtStats Float
      → String
      → api.World
      → GrpcServer Inputs mux.Mux
      → Answer api.World (Tracebstats Float)
  unfolding get_output_srt_stats
  client_get_output_srt_stats empty target w srv =
      with_answer (on_reply output_srt_stats_from_grpc)
        (call grpc target empty w (get_output_srt_stats api socket w srv (ℤ.pos 0)))

  -- Over a connection that works, a client that asks for the statistics of the SRT output gets exactly
  -- those that the socket of output 0 gives, whichever output is in use.
  pub client_get_output_srt_stats_lem :
      (empty : OutputSrtStats Float) (target : String) (w w' : api.World)
      (srv : GrpcServer Inputs mux.Mux) (k : api.SrtKernel) (sock : api.Socket)
      (stats : Tracebstats Float)
      → IsReachable grpc target
      → find_kernel api srv.ff_stream (ℤ.pos 0) ≡ ok k
      → api.srt w k ≡ some sock
      → socket.bistats w sock ≡ (w', some stats)
      → client_get_output_srt_stats empty target w srv ≡ (w', ok stats)
  unfolding client_get_output_srt_stats get_output_srt_stats received
  client_get_output_srt_stats_lem empty target w w' srv k sock stats r found has measured =
      let there =
        with_srt_output_ok api w srv.ff_stream (ℤ.pos 0) socket.bistats k sock found has in
      rw (call-IsReachable grpc target empty w (get_output_srt_stats api socket w srv (ℤ.pos 0)) r)
        (rw there (rw measured (ap (λ x. (w', ok x)) (srt_stats-from-to stats empty).0)))

  -- Before the start the handler panics, and the client gets the statistics of an empty message, without
  -- an error.
  pub client_get_output_srt_stats_unused :
      (empty : OutputSrtStats Float) (target : String) (w : api.World)
      (srv : GrpcServer Inputs mux.Mux)
      → IsGrpcApi grpc
      → IsReachable grpc target
      → srv.ff_stream.stream_mux ≡ none
      → client_get_output_srt_stats empty target w srv ≡ (w, ok (output_srt_stats_from_grpc empty))
  unfolding client_get_output_srt_stats get_output_srt_stats received
  client_get_output_srt_stats_unused empty target w srv lawful r unused =
      let failed = with_srt_output_panic api w srv.ff_stream (ℤ.pos 0) socket.bistats unused in
      rw (call-IsReachable grpc target empty w (get_output_srt_stats api socket w srv (ℤ.pos 0)) r)
        (rw failed (rw (received_panic grpc empty lawful) refl))
