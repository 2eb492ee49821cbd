-- ===== src/Client/Inputs.antt =====
-- client.go: `GetInputsInfo`, `SetInputCustomOption` and `SetStopInput`.
use ffstream.Base.{
  ℕ, String, Bool, List, [], Result, ok, err, panic, ◌≡◌, ◌<◌, ◌^◌, length, ◌∙◌, ap, arith, ◌==◌,
  true,
}
use ffstream.Resource.{DictionaryItem}
use ffstream.Stream.{InputsApi}
use ffstream.Server.{Code, GrpcServer}
use ffstream.Server.Inputs.{
  ChainsApi, InputInfo, get_inputs_info, set_input_custom_option, set_stop_input,
}
use ffstream.Server.Inputs.Laws.{no_chain-refused}
use ffstream.Client.{
  GrpcApi, IsGrpcApi, ClientError, call, received, IsReachable, call-IsReachable, received_panic,
}

-- A handler that changes nothing where it fails.
abbrev keep : {Server : Type 0} → Server → Result Code Server → Server × Result Code (Unit {0})
keep srv (ok srv') = (srv', ok tt)
keep srv (err code) = (srv, err code)
keep srv panic = (srv, panic)

module _ (grpc : GrpcApi) (api : InputsApi) (chains : ChainsApi api) {Mux : Type 0} where
  unfoldable pub client_inputs_info :
      String
      → GrpcServer api.State Mux
      → GrpcServer api.State Mux × Result ClientError (List InputInfo)
  unfolding call
  client_inputs_info target srv = call grpc target [] srv (srv, get_inputs_info api chains srv)

  unfoldable pub client_set_input_custom_option :
      String
      → GrpcServer api.State Mux
      → ℕ
      → ℕ
      → DictionaryItem
      → GrpcServer api.State Mux × Result ClientError (Unit {0})
  unfolding call
  client_set_input_custom_option target srv priority num option =
      call grpc target tt srv
        (keep srv (set_input_custom_option api chains srv priority num option))

  unfoldable pub client_set_stop_input :
      String
      → GrpcServer api.State Mux
      → ℕ
      → Bool
      → GrpcServer api.State Mux × Result ClientError (Unit {0})
  unfolding call
  client_set_stop_input target srv priority stop =
      call grpc target tt srv (set_stop_input api chains srv priority stop)

  -- For the first priority that has no chain the handlers of `SetInputCustomOption` and of
  -- `SetStopInput` panic and leave the server as it is, and the client that has sent the request is told
  -- that it is done.
  pub no_chain-reported :
      (target : String) (srv : GrpcServer api.State Mux) (num : ℕ) (option : DictionaryItem)
      (stop : Bool)
      → IsGrpcApi grpc
      → IsReachable grpc target
      → length (api.input_chains srv.ff_stream.inputs) < 2 ^ 63
      → let priority = length (api.input_chains srv.ff_stream.inputs) in
        (set_input_custom_option api chains srv priority num option ≡ panic)
        × (set_stop_input api chains srv priority stop ≡ (srv, panic))
        × (client_set_input_custom_option target srv priority num option ≡ (srv, ok tt))
        × (client_set_stop_input target srv priority stop ≡ (srv, ok tt))
  unfolding client_set_input_custom_option client_set_stop_input
  no_chain-reported target srv num option stop lawful r b =
      let chains_count = length (api.input_chains srv.ff_stream.inputs) in
      let refused = no_chain-refused api chains srv chains_count num option stop b (omega arith) in
      let at_end : (chains_count == chains_count) ≡ true = ground arith in
      let option_panics : set_input_custom_option api chains srv chains_count num option ≡ panic =
        rw at_end at refused.0 in
      let stop_panics : set_stop_input api chains srv chains_count stop ≡ (srv, panic) =
        rw at_end at refused.1 in
      (
        option_panics,
        stop_panics,
        rw option_panics (
            call-IsReachable grpc target tt srv (srv, panic) r
            ∙ ap (λ answer. (srv, answer)) (received_panic grpc tt lawful)),
        rw stop_panics (
            call-IsReachable grpc target tt srv (srv, panic) r
            ∙ ap (λ answer. (srv, answer)) (received_panic grpc tt lawful)),
      )

  -- A request that the handler grants changes the server as the handler does.
  pub client_set_input_custom_option_ok :
      (target : String) (srv srv' : GrpcServer api.State Mux) (priority num : ℕ)
      (option : DictionaryItem)
      → IsReachable grpc target
      → set_input_custom_option api chains srv priority num option ≡ ok srv'
      → client_set_input_custom_option target srv priority num option ≡ (srv', ok tt)
  unfolding client_set_input_custom_option received
  client_set_input_custom_option_ok target srv srv' priority num option r e =
      rw e (call-IsReachable grpc target tt srv (srv', ok tt) r)
