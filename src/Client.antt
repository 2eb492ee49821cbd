-- ===== src/Client.antt =====
-- pkg/ffstreamserver/client/client.go: how a client's call reaches a handler and what comes back, and
-- `ServeContext` of pkg/ffstreamserver/ffstream_server.go, which catches the handlers' panics.
pub mod Inputs
pub mod Outputs
pub mod Process
pub mod Pipelines
pub mod Srt
use ffstream.Base.{
  String, Bool, true, false, Option, none, some, Result, ok, err, panic, if◌then◌else◌, ◌≡◌, refl,
  arith,
}
use ffstream.Server.{Code}
use ffstream.Server.Transport.{get_dial_params}

-- The library gRPC: whether `NewClient` makes a client for a target with TLS or without, whether a
-- call of it reaches the server, and what its caller gets, in terms of the empty reply, if the handler
-- has panicked and the recovery handler has given this error, or nil.
pub record GrpcApi : Type 1 where
  pub new_client : String × Bool → Bool
  pub reaches : String × Bool → Bool
  pub recovered : (Reply : Type 0) → Reply → Option Code → Result Code Reply

-- What is relied on: with nil the caller is sent an empty reply, without an error.
pub record IsGrpcApi (grpc : GrpcApi) : Type 1 where
  pub recovered_nil : (Reply : Type 0) (empty : Reply) → grpc.recovered Reply empty none ≡ ok empty

-- `query_error` is an error of the call, with the handler's code if it was reached.
pub data ClientError : Type 0 where
  no_client : ClientError
  query_error : Option Code → ClientError
  not_converted : ClientError
  unknown_flag : ClientError

-- The recovery handler of `ServeContext`
unfoldable pub recovery_handler : Option Code
recovery_handler = none

module _ (grpc : GrpcApi) where
  -- `grpcClient`; the client is known by what it dials.
  unfoldable pub grpc_client : String → Option (String × Bool)
  grpc_client target =
      let dialed = get_dial_params target in if grpc.new_client dialed then some dialed else none

  -- A handler's answer as the client gets it.
  unfoldable pub received : {Reply : Type 0} → Reply → Result Code Reply → Result ClientError Reply
  unfolding recovery_handler
  received {Reply} empty (ok reply) = ok reply
  received {Reply} empty (err code) = err (query_error (some code))
  received {Reply} empty panic = elim (grpc.recovered Reply empty recovery_handler) [
    | ok reply ↦ ok reply
    | err code ↦ err (query_error (some code))
    | panic ↦ panic
  ]

  -- A method of the client: the server as the handler leaves it, if it is reached, and the answer.
  unfoldable pub call :
      {Server Reply : Type 0}
      → String
      → Reply
      → Server
      → Server × Result Code Reply
      → Server × Result ClientError Reply
  unfolding grpc_client received
  call target empty srv (srv', answer) = elim (grpc_client target) [
    | none ↦ (srv, err no_client)
    | some dialed ↦
        if grpc.reaches dialed then (srv', received empty answer) else (srv, err (query_error none))
  ]

  -- The server can be reached under this address.
  pub record IsReachable (target : String) : Type 0 where
    pub made : grpc.new_client (get_dial_params target) ≡ true
    pub reached : grpc.reaches (get_dial_params target) ≡ true

  pub call-IsReachable :
      {Server Reply : Type 0} (target : String) (empty : Reply) (srv : Server)
      (answer : Server × Result Code Reply)
      → IsReachable target
      → call target empty srv answer ≡ (answer.0, received empty answer.1)
  unfolding call grpc_client
  call-IsReachable target empty srv answer r = ground arith

  -- A call without an error has reached the server.
  pub call_ok :
      {Server Reply : Type 0} (target : String) (empty : Reply) (srv : Server)
      (answer : Server × Result Code Reply) {reply : Reply}
      → (call target empty srv answer).1 ≡ ok reply
      → IsReachable target
  unfolding call grpc_client
  call_ok target empty srv answer h = record { made = ground arith; reached = ground arith }

  pub received_panic :
      {Reply : Type 0} (empty : Reply) → IsGrpcApi grpc → received empty panic ≡ ok empty
  unfolding received
  received_panic {Reply} empty lawful = rw (received, lawful.recovered_nil Reply empty) refl

-- A server after a call, and what the caller gets.
abbrev pub Answer : Type 0 → Type 0 → Type 0
Answer Server A = Server × Result ClientError A

abbrev pub with_answer :
    {Server A B : Type 0}
    → (Result ClientError A → Result ClientError B)
    → Answer Server A
    → Answer Server B
with_answer f (srv, answer) = (srv, f answer)

-- What a method makes of the reply.
abbrev pub on_reply : {A B : Type 0} → (A → B) → Result ClientError A → Result ClientError B
on_reply f (ok a) = ok (f a)
on_reply f (err e) = err e
on_reply f panic = panic

-- A conversion of the reply that may fail.
abbrev pub convert_reply :
    {A B : Type 0} → (A → Option B) → Result ClientError A → Result ClientError B
convert_reply f (err e) = err e
convert_reply f panic = panic
convert_reply f (ok a) = elim (f a) [ none ↦ err not_converted | some b ↦ ok b ]
