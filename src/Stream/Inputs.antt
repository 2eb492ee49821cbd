-- ===== src/Stream/Inputs.antt =====
-- ffstream.go: `AddInput` and `AddOutputTemplate`; input_factory.go: `GetResources`.
pub mod Laws
pub mod Overflow
pub mod Rest
use ffstream.Base.{
  ℕ, zero, suc, ◌-◌, Bool, true, false, Option, none, some, List, [], ◌∷◌, snoc, length, get_elem?,
  modify, ◌==◌, if◌then◌else◌, ltb, ℤ, pos, negsuc, i64, Result, ok, err, panic, must_find,
}
use ffstream.Resource.{Resource, get_fallback_priority}
use ffstream.Command.Templates.{SenderTemplate}
use ffstream.Stream.Factory.{InputFactory, new_input_factory, FactoryError, out_of_range}
use ffstream.Stream.{InputsApi, FfStream, StreamError, chains_and_infos_differ}

-- How often `for p := length; p <= bound; p++` runs its body.
unfoldable pub rounds_to : ℕ → ℤ → ℕ
rounds_to count (pos bound) = suc bound - count
rounds_to count (negsuc n) = 0

-- `z < n`, for an `int` and the length of a slice
unfoldable pub int_lt : ℤ → ℕ → Bool
int_lt (pos m) n = ltb m n
int_lt (negsuc m) n = true

module _ (api : InputsApi) {Mux : Type 0} where
  -- The body of the loop, for the priority `p`.
  unfoldable pub add_chain : FfStream api.State Mux → ℕ → FfStream api.State Mux
  unfolding new_input_factory
  add_chain s p = record s {
    inputs = api.add_factory s.inputs (new_input_factory p);
    inputs_info = snoc s.inputs_info [];
  }

  unfoldable pub add_chains : ℕ → ℕ → FfStream api.State Mux → FfStream api.State Mux
  add_chains zero p s = s
  add_chains (suc k) p s = add_chains k (suc p) (add_chain s p)

  -- `s.InputsInfo[priority] = append(s.InputsInfo[priority], resource)`
  unfoldable pub append_info :
      FfStream api.State Mux → ℕ → Resource → Result StreamError (FfStream api.State Mux)
  append_info s priority resource = elim (get_elem? s.inputs_info priority) [
    | none ↦ panic
    | some rs ↦
        ok (record s { inputs_info = modify s.inputs_info priority (λ old. snoc old resource) })
  ]

  -- `AddInput`. The loop compares as `int`, the slice is indexed as `uint`.
  unfoldable pub add_input :
      FfStream api.State Mux → Resource → Result StreamError (FfStream api.State Mux)
  add_input s resource =
      let chains = length (api.input_chains s.inputs) in
      let infos = length s.inputs_info in
      let priority = get_fallback_priority resource in
      if chains == infos
      then append_info (add_chains (rounds_to chains (i64 priority)) chains s) priority resource
      else err (chains_and_infos_differ chains infos)

  -- The loop of `main` over `flags.Inputs`; `assertNoError` stops the program at an error.
  unfoldable pub add_inputs :
      FfStream api.State Mux → List Resource → Result StreamError (FfStream api.State Mux)
  add_inputs s [] = ok s
  add_inputs s (resource ∷ rest) = elim (add_input s resource) [
    | ok s' ↦ add_inputs s' rest
    | err e ↦ err e
    | panic ↦ panic
  ]

  unfoldable pub add_output_template :
      FfStream api.State Mux → SenderTemplate → FfStream api.State Mux
  add_output_template s template = record s { output_templates = snoc s.output_templates template }

  -- `GetResources` of a factory of the stream: `int(f.FallbackPriority) >= len(…)` is an error.
  unfoldable pub get_resources :
      InputFactory → FfStream api.State Mux → Result FactoryError (List Resource)
  get_resources f s =
      let infos = length s.inputs_info in
      if int_lt (i64 f.fallback_priority) infos
      then must_find (get_elem? s.inputs_info f.fallback_priority)
      else err (out_of_range f.fallback_priority infos)
