-- ===== src/Control.antt =====
-- cmd/ffstreamctl/commands/commands.go: the commands on the outputs, their rates and the encoder.
pub mod Inputs
pub mod Srt
pub mod Commands
pub mod Monitor
pub mod Laws
use ffstream.Base.{
  ℕ, String, ◌<>◌, Option, none, some, List, [], ◌∷◌, Result, ok, err, panic, u32, parse_uint,
  print_uint,
}
use ffstream.Convert.Counters.{NodeCounters}
use ffstream.Convert.Rates.{BitRates, Latencies}
use ffstream.Convert.Config.{Devices}
use ffstream.Stream.{InputsApi}
use ffstream.Stream.Outputs.{MuxApi}
use ffstream.Stream.AutoBitRate.{RatesApi}
use ffstream.Server.{GrpcServer}
use ffstream.Server.Outputs.{Protos}
use ffstream.Server.Pipelines.{NodesApi}
use ffstream.Server.Quality.{QualityAggregated, MeasurerApi}
use ffstream.Client.{GrpcApi, ClientError, Answer}
use ffstream.Client.Outputs.{
  switch_request, client_get_fps_fraction, client_set_fps_fraction, client_switch_output,
  client_get_bit_rates, client_get_latencies, client_get_config, client_set_config,
  client_get_calculator, client_set_calculator,
}
use ffstream.Client.Pipelines.{client_get_pipelines}
use ffstream.Client.Process.{client_get_stats, client_get_quality}

-- What a command ends with: what it prints, the panic of `assertNoError`, or the refusal of a wrong
-- number of arguments by the library `cobra`.
pub data Outcome : Type 0 where
  printed : String → Outcome
  aborted : Outcome
  wrong_arguments : Outcome

-- `assertNoError` on a value that may be missing, and on an answer.
abbrev pub assert_some : {A : Type 0} → Option A → (A → Outcome) → Outcome
assert_some none f = aborted
assert_some (some a) f = f a

abbrev pub assert_ok : {Server A : Type 0} → (A → Outcome) → Answer Server A → Server × Outcome
assert_ok f (srv, ok a) = (srv, f a)
assert_ok f (srv, err e) = (srv, aborted)
assert_ok f (srv, panic) = (srv, aborted)

-- Nothing is printed.
abbrev pub silent : Unit {0} → Outcome
silent done = printed ""

-- What an argument must give before anything is sent.
abbrev pub with_argument :
    {Server A : Type 0} → Server → Option A → (A → Server × Outcome) → Server × Outcome
with_argument srv none f = (srv, aborted)
with_argument srv (some a) f = f a

-- `jsonOutput`; `none` is an error of the library.
unfoldable pub json_output : {A : Type 0} → (A → Option String) → A → Outcome
json_output to_json a = assert_some (to_json a) printed

unfoldable pub pipelines_get :
    (grpc : GrpcApi) (api : InputsApi) (nodes : NodesApi api) {Mux : Type 0}
    → String
    → (List nodes.NodeGrpc → Option String)
    → GrpcServer api.State Mux
    → GrpcServer api.State Mux × Outcome
unfolding json_output
pipelines_get grpc api nodes remote_addr to_json srv =
    assert_ok (json_output to_json) (client_get_pipelines grpc api nodes remote_addr srv)

module _ (grpc : GrpcApi) (mux : MuxApi) {Inputs : Type 0} (remote_addr : String) where
  unfoldable pub encoder_fps_fraction_get :
      GrpcServer Inputs mux.Mux → List String → GrpcServer Inputs mux.Mux × Outcome
  encoder_fps_fraction_get srv [] =
      assert_ok
        (λ (fraction : ℕ × ℕ).
          printed (print_uint fraction.0 <> " " <> print_uint fraction.1 <> "\n"))
        (client_get_fps_fraction grpc mux remote_addr srv)
  encoder_fps_fraction_get srv (arg ∷ args) = (srv, wrong_arguments)

  unfoldable pub encoder_fps_fraction_set :
      GrpcServer Inputs mux.Mux → List String → GrpcServer Inputs mux.Mux × Outcome
  unfolding u32
  encoder_fps_fraction_set srv (num ∷ den ∷ []) = with_argument srv (parse_uint 32 num) λ num64.
      with_argument srv (parse_uint 32 den) λ den64.
        assert_ok silent (client_set_fps_fraction grpc mux remote_addr srv (u32 num64) (u32 den64))
  encoder_fps_fraction_set srv _ = (srv, wrong_arguments)

  unfoldable pub output_switch :
      Devices mux.Device
      → GrpcServer Inputs mux.Mux
      → List String
      → GrpcServer Inputs mux.Mux × Outcome
  unfolding u32
  output_switch devices srv
        (codec ∷ width ∷ height ∷ rate ∷ audio_codec ∷ sample_rate ∷ audio_rate ∷ max_rate ∷ []) =
      with_argument srv (parse_uint 32 width) λ width64.
        with_argument srv (parse_uint 32 height) λ height64.
          with_argument srv (parse_uint 64 rate) λ rate64.
            with_argument srv (parse_uint 32 sample_rate) λ sample_rate64.
              with_argument srv (parse_uint 64 audio_rate) λ audio_rate64.
                with_argument srv (parse_uint 64 max_rate) λ max_rate64. assert_ok silent (
                  client_switch_output grpc mux devices remote_addr srv (
                    switch_request codec (u32 width64) (u32 height64) rate64 audio_codec
                      (u32 sample_rate64) audio_rate64 max_rate64))
  output_switch devices srv _ = (srv, wrong_arguments)

  -- The commands that print what the client gets.
  unfoldable pub stats_encoder :
      NodeCounters
      → (NodeCounters → Option String)
      → GrpcServer Inputs mux.Mux
      → Option (Option NodeCounters × List NodeCounters)
      → GrpcServer Inputs mux.Mux × Outcome
  unfolding json_output
  stats_encoder empty to_json srv counters =
      assert_ok (json_output to_json) (client_get_stats grpc empty remote_addr srv counters)

  -- `statsInputQuality` and `statsOutputQuality`, each for its measurer.
  unfoldable pub stats_quality :
      {Float : Type 0}
      → Float
      → (QualityAggregated Float → Option String)
      → GrpcServer Inputs mux.Mux
      → MeasurerApi Float
      → GrpcServer Inputs mux.Mux × Outcome
  unfolding json_output
  stats_quality zero_value to_json srv measurer =
      assert_ok (json_output to_json) (client_get_quality grpc zero_value remote_addr srv measurer)

  module _ (rates : RatesApi mux) where
    unfoldable pub stats_bit_rates :
        (Option BitRates → Option String)
        → GrpcServer Inputs mux.Mux
        → GrpcServer Inputs mux.Mux × Outcome
    unfolding json_output
    stats_bit_rates to_json srv =
        assert_ok (json_output to_json) (client_get_bit_rates grpc mux rates remote_addr srv)

    unfoldable pub stats_latencies :
        (Option Latencies → Option String)
        → GrpcServer Inputs mux.Mux
        → GrpcServer Inputs mux.Mux × Outcome
    unfolding json_output
    stats_latencies to_json srv =
        assert_ok (json_output to_json) (client_get_latencies grpc mux rates remote_addr srv)

    -- The auto-bitrate: what is read from the input and what is printed pass through `polyjson`.
    module _ (protos : Protos mux rates) where
      unfoldable pub auto_bit_rate_config_get :
          protos.Config
          → (Option mux.AutoBitRate → Option String)
          → GrpcServer Inputs mux.Mux
          → GrpcServer Inputs mux.Mux × Outcome
      auto_bit_rate_config_get nil_message to_json srv =
          assert_ok (λ cfg. assert_some (to_json cfg) printed)
            (client_get_config grpc mux rates protos nil_message remote_addr srv)

      unfoldable pub auto_bit_rate_config_set :
          (String → Option (Option mux.AutoBitRate))
          → GrpcServer Inputs mux.Mux
          → String
          → GrpcServer Inputs mux.Mux × Outcome
      auto_bit_rate_config_set from_json srv text =
          with_argument srv (from_json text)
            λ cfg. assert_ok silent (client_set_config grpc mux rates protos remote_addr srv cfg)

      unfoldable pub auto_bit_rate_calculator_get :
          protos.Calculator
          → (Option rates.Calculator → Option String)
          → GrpcServer Inputs mux.Mux
          → GrpcServer Inputs mux.Mux × Outcome
      auto_bit_rate_calculator_get nil_message to_json srv =
          assert_ok (λ calculator. assert_some (to_json calculator) printed)
            (client_get_calculator grpc mux rates protos nil_message remote_addr srv)

      unfoldable pub auto_bit_rate_calculator_set :
          (String → Option rates.Calculator)
          → GrpcServer Inputs mux.Mux
          → String
          → GrpcServer Inputs mux.Mux × Outcome
      auto_bit_rate_calculator_set from_json srv text =
          with_argument srv (from_json text) λ calculator.
            assert_ok silent
              (client_set_calculator grpc mux rates protos remote_addr srv calculator)
