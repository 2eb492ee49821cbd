-- ===== src/Stream.antt =====
-- pkg/ffstream/ffstream.go: the stream, its inputs by priority and the operations on its outputs.
-- The input chains and the multiplexer belong to the library `avpipeline`; the stream's code sees
-- them through the operations of the two records below.
pub mod Configuration
pub mod Factory
pub mod Inputs
pub mod Outputs
pub mod AutoBitRate
pub mod Start
pub mod Opening
pub mod SrtOutput
pub mod Decoders
pub mod Cancellation
use ffstream.Base.{ℕ, String, Option, none, some, List, [], ◌∷◌, ℤ, snoc, ◌≡◌}
use ffstream.Resource.{Resource}
use ffstream.Command.Templates.{SenderTemplate}
use ffstream.Stream.Configuration.{Config}
use ffstream.Stream.Factory.{InputFactory}

-- `inputwithfallback.InputWithFallback`: its chains, each known by its factory, how many
-- there are, and `AddFactory`.
pub record InputsApi : Type 1 where
  pub State : Type 0
  pub input_chains : State → List InputFactory
  pub add_factory : State → InputFactory → State
  pub get_input_chains_count : State → ℕ

-- What is relied on: a factory added makes one more chain, behind the others.
pub record IsInputsApi (api : InputsApi) : Type 0 where
  pub chains-add_factory :
      (s : api.State) (f : InputFactory)
      → api.input_chains (api.add_factory s f) ≡ snoc (api.input_chains s) f

-- `FFStream`, with a `StreamMux` from `Start` on.
pub record FfStream (Inputs Mux : Type 0) : Type 0 where
  pub config : Config
  pub inputs : Inputs
  pub inputs_info : List (List Resource)
  pub output_templates : List SenderTemplate
  pub stream_mux : Option Mux

pub data StreamError : Type 0 where
  chains_and_infos_differ : ℕ → ℕ → StreamError
  not_started : StreamError
  already_used : StreamError
  no_inputs : StreamError
  one_output_template_required : ℕ → StreamError
  sample_rate_required : String → StreamError
  resolution_required : String → StreamError
  den_is_zero : StreamError
  not_integer_fraction : ℕ → ℕ → StreamError
  mux_failed : StreamError
  not_measured : StreamError
