-- ===== src/Stream/Opening.antt =====
-- input_factory.go: `NewInput`, which opens the resources of a priority. The inputs belong to the
-- library `avpipeline`; a call of theirs takes the world and gives the world after it.
pub mod Laws
use ffstream.Base.{
  ℕ, ◌+◌, ◌-◌, ◌==◌, ◌≡◌, String, str_eq, Option, none, some, List, [], ◌∷◌, snoc, if◌then◌else◌, ℤ,
  Result, ok, err, panic, ◌>>=◌, parse_int,
}
use ffstream.Resource.{DictionaryItem, Resource}
use ffstream.Stream.{InputsApi, FfStream}
use ffstream.Stream.Factory.{
  InputFactory, FactoryError, bad_start_pts, bad_start_dts, cannot_open, reset_indices,
}
use ffstream.Stream.Inputs.{get_resources}

-- `kernel.InputConfig`, with nil for a start that is not forced.
pub record OpenConfig : Type 0 where
  pub custom_options : List DictionaryItem
  pub force_start_pts : Option ℤ
  pub force_start_dts : Option ℤ

-- What the code uses of the library: `PTSKeep`, `NewInputFromURL`, with `none` for an error, and
-- `Close`. An input is known by its pointer.
pub record OpeningApi : Type 1 where
  pub World : Type 0
  pub pts_keep : ℤ
  pub new_input_from_url : World → String → OpenConfig → World × Option ℕ
  pub close : World → ℕ → World

-- What is relied on: `open_inputs w i` says how often the input is open, an input that is opened is
-- so once more, and closing one undoes that.
pub record IsOpeningApi (api : OpeningApi) : Type 0 where
  pub open_inputs : api.World → ℕ → ℕ
  pub opened :
      (w w' : api.World) (url : String) (cfg : OpenConfig) (input i : ℕ)
      → api.new_input_from_url w url cfg ≡ (w', some input)
      → open_inputs w' i ≡ open_inputs w i + (if input == i then 1 else 0)
  pub not_opened :
      (w w' : api.World) (url : String) (cfg : OpenConfig) (i : ℕ)
      → api.new_input_from_url w url cfg ≡ (w', none)
      → open_inputs w' i ≡ open_inputs w i
  pub closed :
      (w : api.World) (input i : ℕ)
      → open_inputs (api.close w input) i ≡ open_inputs w i - (if input == i then 1 else 0)

module _ (opening : OpeningApi) where
  -- The value of `force_start_pts` or `force_start_dts`
  unfoldable pub start_of : String → Option ℤ
  unfolding parse_int
  start_of value = if str_eq value "keep" then some opening.pts_keep else parse_int value

  abbrev pub set_start_pts : OpenConfig → String → Option ℤ → Result FactoryError OpenConfig
  set_start_pts cfg value none = err (bad_start_pts value)
  set_start_pts cfg value (some pts) = ok (record cfg { force_start_pts = some pts })

  abbrev pub set_start_dts : OpenConfig → String → Option ℤ → Result FactoryError OpenConfig
  set_start_dts cfg value none = err (bad_start_dts value)
  set_start_dts cfg value (some dts) = ok (record cfg { force_start_dts = some dts })

  -- One round of the loop over the options.
  unfoldable pub apply_start_option : OpenConfig → DictionaryItem → Result FactoryError OpenConfig
  unfolding start_of
  apply_start_option cfg opt =
      if str_eq opt.key "force_start_pts"
      then set_start_pts cfg opt.value (start_of opt.value)
      else if str_eq opt.key "force_start_dts"
      then set_start_dts cfg opt.value (start_of opt.value)
      else ok cfg

  unfoldable pub apply_start_options :
      OpenConfig → List DictionaryItem → Result FactoryError OpenConfig
  unfolding apply_start_option
  apply_start_options cfg [] = ok cfg
  apply_start_options cfg (opt ∷ opts) =
      apply_start_option cfg opt >>= λ cfg'. apply_start_options cfg' opts

  unfoldable pub open_config : Resource → Result FactoryError OpenConfig
  unfolding apply_start_options
  open_config res =
      let options = res.input_config.custom_options in
      apply_start_options
        (record { custom_options = options; force_start_pts = none; force_start_dts = none })
        options

  -- The world, the inputs open so far, and how the loop has ended.
  abbrev pub Opened : Type 0
  Opened = opening.World × List ℕ × Result FactoryError (Unit {0})

  -- The loop over the resources.
  unfoldable pub open_resources : opening.World → List Resource → List ℕ → Opened
  open_resources w [] inputs = (w, inputs, ok tt)
  open_resources w (res ∷ resources) inputs = elim (open_config res) [
    | err e ↦ (w, inputs, err e)
    | panic ↦ (w, inputs, panic)
    | ok cfg ↦
        let called = opening.new_input_from_url w res.url cfg in
        elim called.1 [
          | none ↦ (called.0, inputs, err (cannot_open res.url))
          | some input ↦ open_resources called.0 resources (snoc inputs input)
        ]
  ]

  -- The deferred closing of the inputs.
  unfoldable pub close_all : opening.World → List ℕ → opening.World
  close_all w [] = w
  close_all w (input ∷ inputs) = close_all (opening.close w input) inputs

  abbrev pub finish_input :
      InputFactory → Opened → opening.World × InputFactory × Result FactoryError (List ℕ)
  finish_input f (w, inputs, err e) = (close_all w inputs, f, err e)
  finish_input f (w, inputs, panic) = (w, f, panic)
  finish_input f (w, inputs, ok done) = (w, reset_indices f inputs, ok inputs)

  unfoldable pub new_input :
      (api : InputsApi) {Mux : Type 0}
      → opening.World
      → FfStream api.State Mux
      → InputFactory
      → opening.World × InputFactory × Result FactoryError (List ℕ)
  unfolding open_resources close_all
  new_input api w s f = elim (get_resources api f s) [
    | err e ↦ (w, f, err e)
    | panic ↦ (w, f, panic)
    | ok resources ↦ finish_input f (open_resources w resources [])
  ]
