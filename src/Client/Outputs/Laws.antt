-- ===== src/Client/Outputs/Laws.antt =====
-- client.go: what a client sees of the outputs of a server that it reaches.
use ffstream.Base.{
  ℕ, ◌<◌, ◌^◌, ◌≡◌, refl, subst, ◌∙◌, ap, String, Option, none, some, Result, ok, err, panic,
}
use ffstream.Convert.Rates.{
  BitRates, BitRatesGrpc, LatenciesGrpc, bit_rates_from_grpc, bit_rates_to_grpc, bit_rates-from-to,
  Latencies, AreInt64, latencies_from_grpc, latencies_to_grpc, latencies-from-to,
}
use ffstream.Stream.{StreamError}
use ffstream.Stream.Outputs.{MuxApi, IsMuxApi, set_fps_fraction}
use ffstream.Stream.Outputs.Laws.{get-set_fps_fraction}
use ffstream.Stream.AutoBitRate.{RatesApi, get_bit_rates, get_latencies}
use ffstream.Server.{unknown, GrpcServer}
use ffstream.Server.Outputs.{
  reply_code, reply_with, get_fps_fraction_reply, set_fps_fraction_reply, get_bit_rates_reply,
  get_latencies_reply,
}
use ffstream.Client.{
  GrpcApi, IsGrpcApi, received_panic, ClientError, query_error, received, on_reply, IsReachable,
  call-IsReachable, call_ok,
}
use ffstream.Client.Outputs.{
  client_get_fps_fraction, client_set_fps_fraction, client_get_bit_rates, client_get_latencies,
}

received_ok :
    (grpc : GrpcApi) (e : Option StreamError) → received grpc tt (reply_code e) ≡ ok tt → e ≡ none
unfolding received
received_ok grpc none h = refl
received_ok grpc (some e) h = absurd (cc)

-- What the client makes of an answer of the stream; a panic would give it nil.
abbrev pub of_stream : {A : Type 0} → Result StreamError (Option A) → Result ClientError (Option A)
of_stream (ok a) = ok a
of_stream (err e) = err (query_error (some unknown))
of_stream panic = ok none

module _ (grpc : GrpcApi) (lawful : IsGrpcApi grpc) where
  bit_rates_reply :
      (r : Result StreamError (Option BitRates))
      → on_reply bit_rates_from_grpc (received grpc none (reply_with bit_rates_to_grpc r))
        ≡ of_stream r
  unfolding received bit_rates_from_grpc
  bit_rates_reply (ok rates) = ap ok (bit_rates-from-to rates)
  bit_rates_reply (err e) = refl
  bit_rates_reply panic = rw (received_panic grpc {Reply = Option BitRatesGrpc} none lawful) refl

  latencies_reply :
      (r : Result StreamError (Option Latencies))
      → ((l : Latencies) → r ≡ ok (some l) → AreInt64 l.audio × AreInt64 l.video)
      → on_reply latencies_from_grpc (received grpc none (reply_with latencies_to_grpc r))
        ≡ of_stream r
  unfolding received latencies_from_grpc latencies_to_grpc
  latencies_reply (ok none) bounds = refl
  latencies_reply (ok (some l)) bounds =
      let (audio, video) = bounds l refl in ap ok (latencies-from-to l audio video)
  latencies_reply (err e) bounds = refl
  latencies_reply panic bounds =
      rw (received_panic grpc {Reply = Option LatenciesGrpc} none lawful) refl

module _ (grpc : GrpcApi) (mux : MuxApi) {Inputs : Type 0} where
  -- A fraction that the stream accepts is set without an error.
  pub client_set_fps_fraction_ok :
      (target : String) (srv : GrpcServer Inputs mux.Mux) (num den : ℕ)
      → IsReachable grpc target
      → (set_fps_fraction mux srv.ff_stream num den).1 ≡ none
      → (client_set_fps_fraction grpc mux target srv num den).1 ≡ ok tt
  unfolding client_set_fps_fraction set_fps_fraction_reply received
  client_set_fps_fraction_ok target srv num den r e =
      let set = set_fps_fraction_reply mux srv num den in
      rw (call-IsReachable grpc target tt srv set r) (rw e refl)

  -- A frame-rate fraction that the client has set without an error is the one that it gets.
  pub client_get-client_set_fps_fraction :
      (target : String) (srv : GrpcServer Inputs mux.Mux) (num den : ℕ)
      → IsMuxApi mux
      → num < 2 ^ 32
      → den < 2 ^ 32
      → (client_set_fps_fraction grpc mux target srv num den).1 ≡ ok tt
      → let srv' = (client_set_fps_fraction grpc mux target srv num den).0 in
        client_get_fps_fraction grpc mux target srv' ≡ (srv', ok (num, den))
  unfolding client_set_fps_fraction client_get_fps_fraction set_fps_fraction_reply
      get_fps_fraction_reply received
  client_get-client_set_fps_fraction target srv num den lawful hn hd h =
      let set = set_fps_fraction_reply mux srv num den in
      let r = call_ok grpc target tt srv set h in
      let e = call-IsReachable grpc target tt srv set r in
      let accepted : (set_fps_fraction mux srv.ff_stream num den).1 ≡ none =
        received_ok grpc (set_fps_fraction mux srv.ff_stream num den).1
          (subst (λ a. a.1 ≡ ok tt) e h) in
      let read = get-set_fps_fraction mux srv.ff_stream lawful num den hn hd accepted in
      rw e (
        call-IsReachable grpc target (0, 0) set.0 (set.0, get_fps_fraction_reply mux set.0) r
        ∙ rw read refl)

  module _ (rates : RatesApi mux) (target : String) (srv : GrpcServer Inputs mux.Mux) where
    -- The bit rates and the latencies that a client gets are those of the stream, negative latencies
    -- included; an error of the stream comes as one of the query, with the code `Unknown`.
    pub client_rates_lem :
        IsGrpcApi grpc
        → IsReachable grpc target
        → ((l : Latencies)
            → get_latencies mux rates srv.ff_stream ≡ ok (some l)
            → AreInt64 l.audio × AreInt64 l.video)
        → (client_get_bit_rates grpc mux rates target srv
            ≡ (srv, of_stream (get_bit_rates mux rates srv.ff_stream)))
          × (client_get_latencies grpc mux rates target srv
              ≡ (srv, of_stream (get_latencies mux rates srv.ff_stream)))
    unfolding client_get_bit_rates client_get_latencies get_bit_rates_reply get_latencies_reply
    client_rates_lem lawful r bounds = (
      rw (call-IsReachable grpc target none srv (srv, get_bit_rates_reply mux rates srv) r) (
          ap (λ a. (srv, a)) (bit_rates_reply grpc lawful (get_bit_rates mux rates srv.ff_stream))),
      rw (call-IsReachable grpc target none srv (srv, get_latencies_reply mux rates srv) r) (
          ap (λ a. (srv, a))
            (latencies_reply grpc lawful (get_latencies mux rates srv.ff_stream) bounds)),
    )
