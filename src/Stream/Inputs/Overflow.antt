-- ===== src/Stream/Inputs/Overflow.antt =====
-- ffstream.go: `AddInput` with a priority that does not fit an `int`.
use ffstream.Base.{
  ℕ, ◌^◌, ◌<◌, ◌≤◌, ◌≡◌, sym, subst, length, get_elem?_of_ge, arith, ==_iff, i64, panic,
}
use ffstream.Resource.{Resource, get_fallback_priority}
use ffstream.Stream.{InputsApi, FfStream}
use ffstream.Stream.Inputs.{rounds_to, add_chains, append_info, add_input}
use ffstream.Stream.Inputs.Laws.{IsValid}

append_info_panics :
    (api : InputsApi) {Mux : Type 0} (s : FfStream api.State Mux) (p : ℕ) (r : Resource)
    → length s.inputs_info ≤ p
    → append_info api s p r ≡ panic
unfolding append_info
append_info_panics api s p r h = ground (arith, get_elem?_of_ge s.inputs_info p h)

no_rounds : (n p : ℕ) → 2 ^ 63 ≤ p → rounds_to n (i64 p) ≡ 0
unfolding rounds_to i64
no_rounds n p h = ground arith

-- On a valid stream with fewer than 2 ^ 63 lists, a priority from 2 ^ 63 on is negative as an `int`: the loop adds no list, and the write to the
-- list of that priority panics.
pub add_input_panics :
    (api : InputsApi) {Mux : Type 0} (s : FfStream api.State Mux) (r : Resource)
    → IsValid api s
    → length s.inputs_info < 2 ^ 63
    → 2 ^ 63 ≤ get_fallback_priority r
    → add_input api s r ≡ panic
unfolding add_input add_chains
add_input_panics api s r v l h =
    let n = length (api.input_chains s.inputs) in
    let p = get_fallback_priority r in
    rw ((==_iff n (length s.inputs_info)).1 v.same_length) (
      subst (λ k. append_info api (add_chains api k n s) p r ≡ panic) (sym (no_rounds n p h))
        (append_info_panics api s p r (omega arith)))
