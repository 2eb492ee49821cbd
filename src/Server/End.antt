-- ===== src/Server/End.antt =====
-- grpc_server.go: the servers that requests can lead to, and what `End` answers.
use ffstream.Base.{false, ◌≡◌, refl, err}
use ffstream.Stream.{FfStream}
use ffstream.Server.{failed_precondition, GrpcServer, new_grpc_server, end}

-- The servers that `NewGRPCServer` can become: any handler but `End` changes the stream at most, in
-- any way, and so does the rest of the program, which shares the stream.
pub data Reachable {Inputs Mux : Type 0} : GrpcServer Inputs Mux → Type 0 where
  created : (s : FfStream Inputs Mux) → Reachable (new_grpc_server s)
  stream_changed :
      (srv : GrpcServer Inputs Mux) (s : FfStream Inputs Mux)
      → Reachable srv
      → Reachable (record srv { ff_stream = s })
  ended : (srv : GrpcServer Inputs Mux) → Reachable srv → Reachable (end srv).0

never_set :
    {Inputs Mux : Type 0} (srv : GrpcServer Inputs Mux)
    → Reachable srv
    → srv.stop_transcoding_func ≡ false
unfolding new_grpc_server end
never_set _ (created s) = refl
never_set _ (stream_changed srv s r) = never_set srv r
never_set _ (ended srv r) = rw (never_set srv r) refl

-- `End` is refused on every server that can be reached: no code sets the function that it needs.
pub end-refused :
    {Inputs Mux : Type 0} (srv : GrpcServer Inputs Mux)
    → Reachable srv
    → end srv ≡ (srv, err failed_precondition)
unfolding end
end-refused srv r = rw (never_set srv r) refl
