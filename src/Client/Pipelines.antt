-- ===== src/Client/Pipelines.antt =====
-- client.go: `GetPipelines`, `WaitChan` with its connection, and the request of `Monitor`.
use ffstream.Base.{
  ℕ, suc, ◌-◌, ◌≡◌, refl, String, Bool, true, false, none, some, List, [], Result, ok, err,
  if◌then◌else◌, Bool-cases, inl, inr, arith,
}
use ffstream.Stream.{InputsApi}
use ffstream.Server.{GrpcServer}
use ffstream.Server.Pipelines.{NodesApi, MonitorRequest, get_pipelines}
use ffstream.Client.{GrpcApi, ClientError, no_client, query_error, grpc_client, call, Answer}

module _ (grpc : GrpcApi) (api : InputsApi) {Mux : Type 0} (nodes : NodesApi api) where
  unfoldable pub client_get_pipelines :
      String → GrpcServer api.State Mux → Answer (GrpcServer api.State Mux) (List nodes.NodeGrpc)
  unfolding get_pipelines
  client_get_pipelines target srv = call grpc target [] srv (srv, ok (get_pipelines api nodes srv))

-- The request that `Monitor` sends.
unfoldable pub client_monitor_request :
    {EventType : Type 0} → ℕ → EventType → Bool → Bool → Bool → MonitorRequest EventType
client_monitor_request id event packets frames decode = record {
  node_id = id;
  event_type = event;
  include_packet_payload = packets;
  include_frame_payload = frames;
  do_decode = decode;
}

-- What `Recv` gives in the background.
pub data Received : Type 0 where
  reply : Received
  end_of_stream : Received
  canceled : Received
  failed : Received

-- The caller's side: how many connections are open, whether the channel is closed, and whether an error
-- was logged.
pub record WaitState : Type 0 where
  pub connections : ℕ
  pub closed : Bool
  pub error_logged : Bool

abbrev pub is_failed : Received → Bool
is_failed failed = true
is_failed _ = false

-- What the goroutine does with the answer: both are closed whatever it is.
unfoldable pub on_received : WaitState → Received → WaitState
on_received w r = record {
  connections = w.connections - 1;
  closed = true;
  error_logged = is_failed r;
}

-- `WaitChan` up to its return; an error of the call returns without closing the connection.
unfoldable pub client_wait_chan : GrpcApi → String → ℕ → Result ClientError WaitState × ℕ
client_wait_chan grpc target n = elim (grpc_client grpc target) [
  | none ↦ (err no_client, n)
  | some dialed ↦
      if grpc.reaches dialed
      then (ok (record { connections = suc n; closed = false; error_logged = false }), suc n)
      else (err (query_error none), suc n)
]

-- How many connections are open once the wait has ended.
unfoldable pub after_wait : Result ClientError WaitState × ℕ → Received → ℕ
unfolding on_received
after_wait (ok w, n) r = (on_received w r).connections
after_wait (_, n) r = n

-- A wait that has begun leaves no connection behind, whatever is received; one that cannot begin, since
-- the server is not reached, leaves its connection open for good.
pub after_wait-client_wait_chan :
    (grpc : GrpcApi) (target : String) (n : ℕ) (r : Received) (dialed : String × Bool)
    → grpc_client grpc target ≡ some dialed
    → after_wait (client_wait_chan grpc target n) r ≡ (if grpc.reaches dialed then n else suc n)
unfolding client_wait_chan after_wait
after_wait-client_wait_chan grpc target n r dialed e = elim (Bool-cases (grpc.reaches dialed)) [
  | inl there ↦ rw (e, client_wait_chan) (rw there (omega arith))
  | inr lost ↦ rw (e, client_wait_chan) (rw lost refl)
]
