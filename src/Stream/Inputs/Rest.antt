-- ===== src/Stream/Inputs/Rest.antt =====
-- ffstream.go: what `AddInput` leaves alone.
use ffstream.Base.{
  ℕ, zero, suc, ◌≡◌, refl, ◌∙◌, List, [], ◌∷◌, length, get_elem?, ◌==◌, i64, ok, Result-cases,
  Option-cases, Bool-cases, inl, inr, arith,
}
use ffstream.Resource.{Resource, get_fallback_priority}
use ffstream.Stream.{InputsApi, FfStream}
use ffstream.Stream.Inputs.{rounds_to, add_chain, add_chains, append_info, add_input, add_inputs}

module _ (api : InputsApi) {Mux : Type 0} where
  -- The templates and the multiplexer are the same.
  abbrev pub HasRestOf : FfStream api.State Mux → FfStream api.State Mux → Type 0
  HasRestOf s t = (t.output_templates ≡ s.output_templates) × (t.stream_mux ≡ s.stream_mux)

  add_chains_rest : (k p : ℕ) (s : FfStream api.State Mux) → HasRestOf s (add_chains api k p s)
  unfolding add_chains add_chain
  add_chains_rest zero p s = (refl, refl)
  add_chains_rest (suc k) p s = add_chains_rest k (suc p) (add_chain api s p)

  append_info_rest :
      (s t : FfStream api.State Mux) (p : ℕ) (r : Resource)
      → append_info api s p r ≡ ok t
      → HasRestOf s t
  unfolding append_info
  append_info_rest s t p r h = elim (Option-cases (get_elem? s.inputs_info p)) [
    | inl e ↦ absurd (ground (arith, e, h))
    | inr (rs, e) ↦ ground (arith, e, h)
  ]

  add_input_rest :
      (s t : FfStream api.State Mux) (r : Resource) → add_input api s r ≡ ok t → HasRestOf s t
  unfolding add_input
  add_input_rest s t r h =
      let chains = length (api.input_chains s.inputs) in
      let priority = get_fallback_priority r in
      let grown = add_chains api (rounds_to chains (i64 priority)) chains s in
      elim (Bool-cases (chains == length s.inputs_info)) [
        | inr e ↦ let h' = rw e at h in absurd (cc)
        | inl e ↦
            let (templates, m) = append_info_rest grown t priority r (rw e at h) in
            let (templates', m') = add_chains_rest (rounds_to chains (i64 priority)) chains s in
            (templates ∙ templates', m ∙ m')
      ]

  pub add_inputs_rest :
      (s t : FfStream api.State Mux) (rs : List Resource)
      → add_inputs api s rs ≡ ok t
      → HasRestOf s t
  unfolding add_inputs
  add_inputs_rest s t [] h = ground (arith, h)
  add_inputs_rest s t (r ∷ rs) h = elim (Result-cases (add_input api s r)) [
    | inl (u, e) ↦
        let (templates, m) = add_input_rest s u r e in
        let (templates', m') = add_inputs_rest u t rs (rw (e, add_inputs) at h) in
        (templates' ∙ templates, m' ∙ m)
    | inr (inl (x, e)) ↦ let h' = rw (e, add_inputs) at h in absurd (cc)
    | inr (inr e) ↦ let h' = rw (e, add_inputs) at h in absurd (cc)
  ]
