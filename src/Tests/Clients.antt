-- ===== src/Tests/Clients.antt =====
-- The client and ffstreamctl against servers of one input, over a network that loses nothing.
use ffstream.Base.{
  ℕ, ◌≡◌, subst, ◌⊎◌, refl, String, ◌<>◌, true, Option, none, some, List, [], ◌∷◌, ℤ, pos, Result,
  ok, err, panic, get_elem?, print_uint, arith,
}
use ffstream.Resource.{resource}
use ffstream.Convert.Rates.{Latencies, AreInt64}
use ffstream.Stream.{StreamError}
use ffstream.Stream.Factory.{InputFactory}
use ffstream.Stream.Inputs.Laws.{IsValid}
use ffstream.Stream.AutoBitRate.{RatesApi, get_bit_rates, get_latencies}
use ffstream.Server.{GrpcServer, new_grpc_server, end, failed_precondition}
use ffstream.Server.Inputs.{set_input_custom_option, set_stop_input}
use ffstream.Client.{call, query_error, GrpcApi, IsGrpcApi, IsReachable}
use ffstream.Client.Inputs.{
  client_set_input_custom_option, client_set_stop_input, no_chain-reported,
}
use ffstream.Client.Outputs.{client_get_bit_rates, client_get_latencies}
use ffstream.Client.Outputs.Laws.{of_stream, client_rates_lem}
use ffstream.Client.Process.{Failed, client_end}
use ffstream.Control.{printed, encoder_fps_fraction_get, encoder_fps_fraction_set}
use ffstream.Control.Inputs.{inputs_set_custom_option}
use ffstream.Control.Laws.{
  encoder_fps_fraction_get-encoder_fps_fraction_set, inputs_set_custom_option_lem,
}
use ffstream.Tests.Apis.{inputs_api, mux_api, mux_lawful, started}
use ffstream.Tests.Servers.{chains_api, with_input, with_input-IsValid, server, pts}
use ffstream.Tests.Messages.{delays, track_fits}

abbrev pub grpc_api : GrpcApi
grpc_api = record {
  new_client = λ dialed. true;
  reaches = λ dialed. true;
  recovered = λ Reply empty error. elim error [ none ↦ ok empty | some code ↦ err code ];
}

pub grpc_lawful : IsGrpcApi grpc_api
grpc_lawful = record { recovered_nil = λ Reply empty. refl }

abbrev pub here : String
here = "localhost:3594"

pub reachable : IsReachable grpc_api here
reachable = record { made = refl; reached = refl }

abbrev pub started_server : GrpcServer (List InputFactory) (ℤ × ℤ)
started_server = new_grpc_server started

encoder_fps_fraction_get-encoder_fps_fraction_set_example :
    (srv' : GrpcServer (List InputFactory) (ℤ × ℤ)) × (encoder_fps_fraction_set grpc_api mux_api
        here started_server
        (print_uint 60 ∷ print_uint 2 ∷ [])
      ≡ (srv', printed ""))
    × (encoder_fps_fraction_get grpc_api mux_api here srv' []
        ≡ (srv', printed (print_uint 60 <> " " <> print_uint 2 <> "\n")))
unfolding new_grpc_server
encoder_fps_fraction_get-encoder_fps_fraction_set_example =
    encoder_fps_fraction_get-encoder_fps_fraction_set grpc_api mux_api here started_server
      (pos 0, pos 1) 60 2 mux_lawful reachable refl (omega arith) (omega arith) (omega arith)

inputs_set_custom_option_lem_example :
    (t : GrpcServer (List InputFactory) (ℤ × ℤ)) × (inputs_set_custom_option grpc_api inputs_api
        chains_api here server
        (print_uint 0 ∷ print_uint 0 ∷ "force_start_pts" ∷ "keep" ∷ [])
      ≡ (t, printed ""))
    × IsValid inputs_api t.ff_stream
    × (get_elem? t.ff_stream.inputs_info 0 ≡ some (resource "main.ts" (pts ∷ []) ∷ []))
    × ((q : ℕ)
        → (0 ≡ q) ⊎ (get_elem? t.ff_stream.inputs_info q ≡ get_elem? with_input.inputs_info q))
unfolding new_grpc_server resource
inputs_set_custom_option_lem_example =
    inputs_set_custom_option_lem grpc_api inputs_api chains_api here server 0 0 "force_start_pts"
      "keep" reachable with_input-IsValid (omega arith) (omega arith) refl refl refl

no_chain-reported_example :
    (set_input_custom_option inputs_api chains_api server 1 0 pts ≡ panic)
    × (set_stop_input inputs_api chains_api server 1 true ≡ (server, panic))
    × (client_set_input_custom_option grpc_api inputs_api chains_api here server 1 0 pts
        ≡ (server, ok tt))
    × (client_set_stop_input grpc_api inputs_api chains_api here server 1 true ≡ (server, ok tt))
unfolding new_grpc_server
no_chain-reported_example =
    no_chain-reported grpc_api inputs_api chains_api here server 0 pts true grpc_lawful reachable
      (omega arith)

end_test : Failed grpc_api server (client_end grpc_api here server)
unfolding client_end end new_grpc_server call
end_test = (refl, (query_error (some failed_precondition), refl))

-- A multiplexer that measures latencies.
abbrev measuring : RatesApi mux_api
measuring = record {
  Calculator = ℕ;
  get_bit_rates = λ m. some none;
  get_latencies = λ m. some (some delays);
  handler_config = λ m. none;
  handler_calculator = λ m. none;
  set_handler_calculator = λ m calculator. m;
}

abbrev AreFitting : Result StreamError (Option Latencies) → Type 0
AreFitting (ok (some l)) = AreInt64 l.audio × AreInt64 l.video
AreFitting _ = Unit {0}

fits :
    (l : Latencies)
    → get_latencies mux_api measuring started ≡ ok (some l)
    → AreInt64 l.audio × AreInt64 l.video
unfolding get_latencies
fits l e = subst AreFitting e (track_fits, track_fits)

client_rates_lem_test :
    (client_get_bit_rates grpc_api mux_api measuring here started_server
      ≡ (started_server, of_stream (get_bit_rates mux_api measuring started)))
    × (client_get_latencies grpc_api mux_api measuring here started_server
        ≡ (started_server, of_stream (get_latencies mux_api measuring started)))
unfolding new_grpc_server
client_rates_lem_test =
    client_rates_lem grpc_api mux_api measuring here started_server grpc_lawful reachable fits
