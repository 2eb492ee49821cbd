-- ===== src/Stream/Opening/Laws.antt =====
-- input_factory.go: what `NewInput` leaves open and how it leaves the factory.
use ffstream.Base.{
  ℕ, suc, ◌+◌, ◌-◌, ◌≡◌, ◌≢◌, refl, ap, ◌==◌, inl, inr, none, List, [], ◌∷◌, snoc, length,
  if◌then◌else◌, Result, ok, err, panic, arith, Option-cases, Result-cases,
}
use ffstream.Resource.{DictionaryItem, Resource}
use ffstream.Stream.{InputsApi, FfStream}
use ffstream.Stream.Factory.{InputFactory, FactoryError, reset_indices}
use ffstream.Stream.Factory.Assignment.{IsReady, reset_indices-IsReady}
use ffstream.Stream.Factory.Sources.{IsNumbered}
use ffstream.Stream.Inputs.{get_resources}
use ffstream.Stream.Opening.{
  OpeningApi, IsOpeningApi, OpenConfig, start_of, apply_start_option, apply_start_options,
  open_config, open_resources, close_all, finish_input, new_input, Opened,
}

-- How often an input stands in a list.
abbrev pub occurrences : ℕ → List ℕ → ℕ
occurrences i [] = 0
occurrences i (x ∷ xs) = (if x == i then 1 else 0) + occurrences i xs

occurrences-snoc :
    (i : ℕ) (xs : List ℕ) (x : ℕ)
    → occurrences i (snoc xs x) ≡ occurrences i xs + (if x == i then 1 else 0)
occurrences-snoc i [] x = ground arith
occurrences-snoc i (y ∷ xs) x = omega (arith, occurrences-snoc i xs x)

length-snoc : {A : Type 0} (xs : List A) (x : A) → length (snoc xs x) ≡ suc (length xs)
length-snoc [] x = refl
length-snoc (y ∷ xs) x = ap suc (length-snoc xs x)

module _ (opening : OpeningApi) where
  apply_start_option-ne-panic :
      (cfg : OpenConfig) (opt : DictionaryItem) → apply_start_option opening cfg opt ≢ panic
  unfolding apply_start_option
  apply_start_option-ne-panic cfg opt h = elim (Option-cases (start_of opening opt.value)) [
    | inl e ↦ ground (arith, e, h)
    | inr (start, e) ↦ ground (arith, e, h)
  ]

  apply_start_options-ne-panic :
      (cfg : OpenConfig) (opts : List DictionaryItem) → apply_start_options opening cfg opts ≢ panic
  unfolding apply_start_options apply_start_option
  apply_start_options-ne-panic cfg [] h = cc
  apply_start_options-ne-panic cfg (opt ∷ opts) h =
      elim (Result-cases (apply_start_option opening cfg opt)) [
        | inl (cfg', e) ↦ apply_start_options-ne-panic cfg' opts (rw (e, apply_start_options) at h)
        | inr (inl (error, e)) ↦ let h' = rw (e, apply_start_options) at h in cc
        | inr (inr e) ↦ apply_start_option-ne-panic cfg opt e
      ]

  open_config-ne-panic : (res : Resource) → open_config opening res ≢ panic
  unfolding open_config
  open_config-ne-panic res h =
      let options = res.input_config.custom_options in
      apply_start_options-ne-panic
        (record { custom_options = options; force_start_pts = none; force_start_dts = none })
        options h

  module _ (lawful : IsOpeningApi opening) where
    close_all_lem :
        (w : opening.World) (inputs : List ℕ) (i : ℕ)
        → lawful.open_inputs (close_all opening w inputs) i
          ≡ lawful.open_inputs w i - occurrences i inputs
    unfolding close_all
    close_all_lem w [] i = omega arith
    close_all_lem w (input ∷ inputs) i =
        omega (arith, close_all_lem (opening.close w input) inputs i, lawful.closed w input i)

    -- What the loop has opened is in its list, one input for each resource if it came to its end.
    abbrev Accounts : opening.World → List Resource → List ℕ → ℕ → Opened opening → Type 0
    Accounts w resources inputs i r =
        (lawful.open_inputs r.0 i + occurrences i inputs
          ≡ lawful.open_inputs w i + occurrences i r.1)
        × (r.2 ≡ ok tt → length r.1 ≡ length inputs + length resources)
        × (r.2 ≢ panic)

    open_one :
        (w : opening.World) (res : Resource) (resources : List Resource) (inputs : List ℕ) (i : ℕ)
        (cfg : OpenConfig)
        → open_config opening res ≡ ok cfg
        → ((w' : opening.World) (input : ℕ)
            → Accounts w' resources
                (snoc inputs input)
                i
                (open_resources opening w' resources (snoc inputs input)))
        → Accounts w (res ∷ resources) inputs i (open_resources opening w (res ∷ resources) inputs)
    unfolding open_resources
    open_one w res resources inputs i cfg e rest =
        let called = opening.new_input_from_url w res.url cfg in
        elim (Option-cases called.1) [
          | inl f ↦
              let same = lawful.not_opened w called.0 res.url cfg i (ap (λ o. (called.0, o)) f) in
              rw (e, open_resources) (rw f (omega (arith, same), (λ h. absurd (cc)), (λ h. cc)))
          | inr (input, f) ↦
              let more = lawful.opened w called.0 res.url cfg input i (ap (λ o. (called.0, o)) f) in
              let (count, all, no_panic) = rest called.0 input in
              rw (e, open_resources)
                (rw f (
                  omega (arith, more, count, occurrences-snoc i inputs input),
                  (λ h. omega (arith, all h, length-snoc inputs input)),
                  no_panic,
                ))
        ]

    open_resources_lem :
        (w : opening.World) (resources : List Resource) (inputs : List ℕ) (i : ℕ)
        → Accounts w resources inputs i (open_resources opening w resources inputs)
    unfolding open_resources
    open_resources_lem w [] inputs i = (refl, (λ h. omega arith), (λ h. cc))
    open_resources_lem w (res ∷ resources) inputs i =
        elim (Result-cases (open_config opening res)) [
          | inl (cfg, e) ↦
              open_one w res resources inputs i cfg e
                (λ w' input. open_resources_lem w' resources (snoc inputs input) i)
          | inr (inl (error, e)) ↦ rw (e, open_resources) (refl, (λ h. absurd (cc)), (λ h. cc))
          | inr (inr e) ↦ absurd (open_config-ne-panic res e)
        ]

    -- What a call of `NewInput` leaves: after an error exactly the inputs are open that were before,
    -- and the factory is as it was; else one input for each resource is open on top of these, and the
    -- factory has numbered them and starts to assign indices anew.
    abbrev pub IsLeft :
        opening.World
        → InputFactory
        → Result FactoryError (List Resource)
        → opening.World × InputFactory × Result FactoryError (List ℕ)
        → Type 0
    IsLeft w f resources (w', f', err e) =
        (f' ≡ f) × ((i : ℕ) → lawful.open_inputs w' i ≡ lawful.open_inputs w i)
    IsLeft w f resources (w', f', panic) = resources ≡ panic
    IsLeft w f resources (w', f', ok inputs) =
        IsReady f'
        × IsNumbered f' inputs
        × ((rs : List Resource) × (resources ≡ ok rs) × (length inputs ≡ length rs))
        × ((i : ℕ) → lawful.open_inputs w' i ≡ lawful.open_inputs w i + occurrences i inputs)

    finish_input_lem :
        (w : opening.World) (f : InputFactory) (rs : List Resource) (r : Opened opening)
        → ((i : ℕ) → Accounts w rs [] i r)
        → IsLeft w f (ok rs) (finish_input opening f r)
    unfolding reset_indices
    finish_input_lem w f rs (w', inputs, ok done) h = (
      reset_indices-IsReady f inputs,
      refl,
      (rs, refl, omega (arith, (h 0).1 refl)),
      λ i. omega (arith, (h i).0),
    )
    finish_input_lem w f rs (w', inputs, err e) h =
        (refl, λ i. omega (arith, (h i).0, close_all_lem w' inputs i))
    finish_input_lem w f rs (w', inputs, panic) h = absurd ((h 0).2 refl)

    -- `NewInput` leaks nothing: it either opens one input for each resource of its priority, in which
    -- case the factory numbers exactly these and is ready to assign indices, or it gives an error, in
    -- which case every input that it has opened is closed again and the factory is unchanged. It
    -- panics only where the lookup of the resources does.
    pub new_input_lem :
        (api : InputsApi) {Mux : Type 0} (w : opening.World) (s : FfStream api.State Mux)
        (f : InputFactory)
        → IsLeft w f (get_resources api f s) (new_input opening api w s f)
    unfolding new_input
    new_input_lem api w s f = elim (Result-cases (get_resources api f s)) [
      | inl (rs, e) ↦
          rw (e, new_input)
            (finish_input_lem w f rs (open_resources opening w rs [])
              (λ i. open_resources_lem w rs [] i))
      | inr (inl (error, e)) ↦ rw (e, new_input) (refl, λ i. refl)
      | inr (inr e) ↦ rw (e, new_input) refl
    ]
