-- ===== src/Tests/Servers.antt =====
-- The server's handlers, its transport and the socket options.
use ffstream.Server.Inputs.{InputInfo, get_inputs_info}
use ffstream.Server.Inputs.Listing.{listed, get_inputs_info_lem}
use ffstream.Stream.Inputs.{get_resources, int_lt}
use ffstream.Base.{i64}
use ffstream.Base.{
  ℕ, cut_colon, zero, suc, get_elem?, err, String, Bool, true, none, some, List, [], ◌∷◌, ◌≡◌, ◌↔◌,
  ◌⊎◌, refl, ℤ, length, ok, panic, arith,
}
use ffstream.Resource.{DictionaryItem, Resource, resource}
use ffstream.Stream.{FfStream}
use ffstream.Stream.Factory.{InputFactory, new_input_factory}
use ffstream.Stream.Inputs.Laws.{IsValid}
use ffstream.Stream.AutoBitRate.{RatesApi}
use ffstream.Convert.Config.{Devices, ConfigGrpc}
use ffstream.Server.{GrpcServer, new_grpc_server, end, failed_precondition}
use ffstream.Server.End.{created, end-refused}
use ffstream.Server.Inputs.{ChainsApi, input_kernel, set_input_custom_option, set_stop_input}
use ffstream.Server.Inputs.Laws.{
  input_kernel_panic_iff, no_chain-refused, set_input_custom_option_lem,
}
use ffstream.Server.Outputs.{Protos}
use ffstream.Server.Transport.{
  get_listener, get_dial_params, uses_tls, is_plain_network, get_listener-get_dial_params_iff,
}
use ffstream.Convert.Quality.{
  latency, srt_sockopt_from_grpc, srt_sockopt_to_grpc, srt_sockopt-to-from,
}
use ffstream.Tests.Apis.{inputs_api, mux_api, empty_stream}

-- A server for a stream with one input, over inputs that are never paused.
abbrev pub chains_api : ChainsApi inputs_api
chains_api = record {
  kernel_inputs = λ s chain. some (5 ∷ []);
  kernel_is_set = λ s chain. true;
  nil_object_id = 0;
  pause = λ s chain. (s, true);
  unpause = λ s chain. (s, true);
  set_first = λ items item. item ∷ items;
}

abbrev pub main_input : Resource
main_input = resource "main.ts" []

abbrev pub with_input : FfStream (List InputFactory) (ℤ × ℤ)
with_input = record empty_stream {
  inputs = new_input_factory 0 ∷ [];
  inputs_info = (main_input ∷ []) ∷ [];
}

first_chain :
    (p : ℕ) (f : InputFactory)
    → get_elem? (new_input_factory 0 ∷ []) p ≡ some f
    → f.fallback_priority ≡ p
unfolding new_input_factory
first_chain zero f h = ground (arith, h)
first_chain (suc p) f h = absurd (cc)

pub with_input-IsValid : IsValid inputs_api with_input
with_input-IsValid = record { same_length = refl; priorities = first_chain }

abbrev pub server : GrpcServer (List InputFactory) (ℤ × ℤ)
server = new_grpc_server with_input

abbrev pub pts : DictionaryItem
pts = record { key = "force_start_pts"; value = "keep" }

set_input_custom_option_lem_example :
    (t : GrpcServer (List InputFactory) (ℤ × ℤ)) × (set_input_custom_option inputs_api chains_api
        server 0 0 pts
      ≡ ok t)
    × IsValid inputs_api t.ff_stream
    × (get_elem? t.ff_stream.inputs_info 0 ≡ some (resource "main.ts" (pts ∷ []) ∷ []))
    × ((q : ℕ)
        → (0 ≡ q) ⊎ (get_elem? t.ff_stream.inputs_info q ≡ get_elem? with_input.inputs_info q))
unfolding new_grpc_server resource
set_input_custom_option_lem_example =
    set_input_custom_option_lem inputs_api chains_api server 0 0 pts with_input-IsValid
      (omega arith) (omega arith) refl refl refl

no_chain-refused_test :
    (set_input_custom_option inputs_api chains_api server 1 0 pts ≡ panic)
    × (set_stop_input inputs_api chains_api server 1 true ≡ (server, panic))
unfolding new_grpc_server
no_chain-refused_test =
    no_chain-refused inputs_api chains_api server 1 0 pts true (omega arith) (omega arith)

input_kernel_panic_iff_example :
    (input_kernel (some (5 ∷ [])) 1 ≡ panic) ↔ (1 ≡ length {A = ℕ} (5 ∷ []))
input_kernel_panic_iff_example = input_kernel_panic_iff (5 ∷ []) 1

end-refused_test : end server ≡ (server, err failed_precondition)
end-refused_test = end-refused server (created with_input)

-- Rates that are never measured, and settings that are their own messages.
abbrev rates_api : RatesApi mux_api
rates_api = record {
  Calculator = ℕ;
  get_bit_rates = λ m. none;
  get_latencies = λ m. none;
  handler_config = λ m. none;
  handler_calculator = λ m. none;
  set_handler_calculator = λ m calculator. m;
}

abbrev protos : Protos mux_api rates_api
protos = record {
  Config = Bool;
  Calculator = ℕ;
  config_to_proto = λ cfg. cfg;
  config_from_proto = λ cfg. some (some cfg);
  calculator_to_proto = some;
  calculator_from_proto = λ calculator. some (some calculator);
}

abbrev devices : Devices String
devices = record { from_string = λ s. s; to_string = λ s. s }

abbrev no_config : ConfigGrpc
no_config = record { audio = none; video = none }

abbrev localhost : String
localhost = "localhost"

get_listener-get_dial_params_iff_example :
    (uses_tls (get_listener "localhost:3594") ≡ (get_dial_params "localhost:3594").1)
    ↔ ((is_plain_network localhost ≡ true) ⊎ (localhost ≡ "tcp+ssl"))
unfolding cut_colon
get_listener-get_dial_params_iff_example =
    get_listener-get_dial_params_iff "localhost:3594" localhost "3594" refl

srt_sockopt-to-from_test : srt_sockopt_to_grpc 23 (srt_sockopt_from_grpc 23 latency).0 ≡ latency
unfolding srt_sockopt_from_grpc
srt_sockopt-to-from_test = srt_sockopt-to-from 23 latency refl

get_inputs_info_lem_example :
    (infos : List InputInfo) × (get_inputs_info inputs_api chains_api server ≡ ok infos)
    × (listed infos ≡ "main.ts" ∷ [])
unfolding new_grpc_server new_input_factory resource get_resources int_lt i64
get_inputs_info_lem_example =
    get_inputs_info_lem inputs_api chains_api server with_input-IsValid.priorities (omega arith)
      (omega arith, tt)
