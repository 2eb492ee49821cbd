-- ===== src/Control/Inputs.antt =====
-- commands.go: the commands on the inputs, and the event type of the monitor.
use ffstream.Base.{String, Option, none, some, List, [], ◌∷◌, str_eq, if◌then◌else◌, parse_uint}
use ffstream.Flag.Value.{parse_bool}
use ffstream.Stream.{InputsApi}
use ffstream.Server.{GrpcServer}
use ffstream.Server.Inputs.{ChainsApi, InputInfo}
use ffstream.Client.{GrpcApi}
use ffstream.Client.Inputs.{
  client_inputs_info, client_set_input_custom_option, client_set_stop_input,
}
use ffstream.Control.{Outcome, wrong_arguments, assert_ok, silent, with_argument, json_output}

-- The message `MonitorEventType`
pub data MonitorEventType : Type 0 where
  event_type_send : MonitorEventType
  event_type_receive : MonitorEventType
  event_type_kernel_output_send : MonitorEventType

-- The event type of the arguments; `to_lower` is `strings.ToLower`, and `none` is the panic.
unfoldable pub monitor_event_type : (String → String) → List String → Option MonitorEventType
monitor_event_type to_lower (id ∷ name ∷ args) =
    if str_eq (to_lower name) "send"
    then some event_type_send
    else if str_eq (to_lower name) "receive"
    then some event_type_receive
    else if str_eq (to_lower name) "kernel_output_send"
    then some event_type_kernel_output_send
    else none
monitor_event_type to_lower _ = some event_type_send

module _ (grpc : GrpcApi) (api : InputsApi) (chains : ChainsApi api) {Mux : Type 0}
    (remote_addr : String) where
  unfoldable pub inputs_info :
      (List InputInfo → Option String)
      → GrpcServer api.State Mux
      → GrpcServer api.State Mux × Outcome
  unfolding json_output
  inputs_info to_json srv =
      assert_ok (json_output to_json) (client_inputs_info grpc api chains remote_addr srv)

  unfoldable pub inputs_set_custom_option :
      GrpcServer api.State Mux → List String → GrpcServer api.State Mux × Outcome
  inputs_set_custom_option srv (priority ∷ num ∷ key ∷ value ∷ []) =
      with_argument srv (parse_uint 32 priority) λ input_priority.
        with_argument srv (parse_uint 32 num) λ input_num. assert_ok silent (
          client_set_input_custom_option grpc api chains remote_addr srv input_priority input_num
            (record { key = key; value = value }))
  inputs_set_custom_option srv _ = (srv, wrong_arguments)

  unfoldable pub inputs_set_stop :
      GrpcServer api.State Mux → List String → GrpcServer api.State Mux × Outcome
  unfolding parse_bool
  inputs_set_stop srv (priority ∷ stop ∷ []) =
      with_argument srv (parse_uint 32 priority) λ input_priority.
        with_argument srv (parse_bool stop) λ stopped.
          assert_ok silent
            (client_set_stop_input grpc api chains remote_addr srv input_priority stopped)
  inputs_set_stop srv _ = (srv, wrong_arguments)
