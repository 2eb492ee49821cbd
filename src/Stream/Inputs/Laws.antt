-- ===== src/Stream/Inputs/Laws.antt =====
-- ffstream.go: what `AddInput` keeps and what it adds.
use ffstream.Base.{
  ℕ, zero, suc, ◌+◌, ◌^◌, ◌<◌, ◌≡◌, refl, ◌∙◌, sym, ap, subst, some, List, [], ◌∷◌, ◌++◌, snoc,
  append_assoc, append-nil, length, length-append, length-modify, get_elem?, modify,
  get_elem?_of_lt, arith, ◌==◌, ==_iff, if◌then◌else◌, i64, ok, All,
}
use ffstream.Resource.{Resource, get_fallback_priority}
use ffstream.Resource.Groups.{of_priority}
use ffstream.Stream.Factory.{InputFactory, new_input_factory}
use ffstream.Stream.{InputsApi, IsInputsApi, FfStream}
use ffstream.Stream.Inputs.{rounds_to, add_chain, add_chains, append_info, add_input, add_inputs}

-- The resources of a priority; there are none past the end.
unfoldable pub info_at : List (List Resource) → ℕ → List Resource
info_at [] q = []
info_at (rs ∷ infos) zero = rs
info_at (rs ∷ infos) (suc q) = info_at infos q

info_at-snoc : (infos : List (List Resource)) (q : ℕ) → info_at (snoc infos []) q ≡ info_at infos q
unfolding info_at
info_at-snoc [] zero = refl
info_at-snoc [] (suc q) = refl
info_at-snoc (rs ∷ infos) zero = refl
info_at-snoc (rs ∷ infos) (suc q) = info_at-snoc infos q

info_at-modify :
    (infos : List (List Resource)) (p q : ℕ) (r : Resource)
    → p < length infos
    → info_at (modify infos p (λ old. snoc old r)) q
      ≡ (if p == q then snoc (info_at infos q) r else info_at infos q)
unfolding info_at
info_at-modify [] p q r h = elim h [ ]
info_at-modify (rs ∷ infos) zero zero r h = refl
info_at-modify (rs ∷ infos) zero (suc q) r h = ground arith
info_at-modify (rs ∷ infos) (suc p) zero r h = ground arith
info_at-modify (rs ∷ infos) (suc p) (suc q) r h =
    ground (arith, info_at-modify infos p q r (omega arith))

get_elem?-snoc :
    (fs : List InputFactory) (f : InputFactory) (q : ℕ)
    → get_elem? (snoc fs f) q ≡ (if length fs == q then some f else get_elem? fs q)
get_elem?-snoc [] f zero = refl
get_elem?-snoc [] f (suc q) = ground arith
get_elem?-snoc (g ∷ fs) f zero = ground arith
get_elem?-snoc (g ∷ fs) f (suc q) = ground (arith, get_elem?-snoc fs f q)

abbrev HavePriorities : List InputFactory → Type 0
HavePriorities chains =
    (p : ℕ) (f : InputFactory) → get_elem? chains p ≡ some f → f.fallback_priority ≡ p

snoc-priorities :
    (chains : List InputFactory)
    → HavePriorities chains
    → HavePriorities (snoc chains (new_input_factory (length chains)))
unfolding new_input_factory
snoc-priorities chains h p g e =
    ground (arith, h p g, get_elem?-snoc chains (new_input_factory (length chains)) p)

-- With the rounds of the loop there is a list for the priority.
enough :
    (n infos p : ℕ) (grown : ℕ)
    → p < 2 ^ 63
    → grown ≡ infos + rounds_to n (i64 p)
    → n ≡ infos
    → p < grown
unfolding rounds_to i64
enough n infos p grown h g e = ground arith

-- The number of chains is that of the resource lists, and chain `p` is that of priority `p`.
pub record IsValid (api : InputsApi) {Mux : Type 0} (s : FfStream api.State Mux) : Type 0 where
  pub same_length : length (api.input_chains s.inputs) ≡ length s.inputs_info
  pub priorities :
      (p : ℕ) (f : InputFactory)
      → get_elem? (api.input_chains s.inputs) p ≡ some f
      → f.fallback_priority ≡ p

module _ (api : InputsApi) (lawful : IsInputsApi api) {Mux : Type 0} where
  -- A stream after more chains: nothing but empty lists is added.
  record Grown (s : FfStream api.State Mux) (k : ℕ) (t : FfStream api.State Mux) : Type 0 where
    valid : IsValid api t
    grown : length t.inputs_info ≡ length s.inputs_info + k
    infos : (q : ℕ) → info_at t.inputs_info q ≡ info_at s.inputs_info q

  add_chain-IsValid :
      (s : FfStream api.State Mux)
      → IsValid api s
      → IsValid api (add_chain api s (length (api.input_chains s.inputs)))
  unfolding add_chain
  add_chain-IsValid s v =
      let chains = api.input_chains s.inputs in
      let f = new_input_factory (length chains) in
      let law = lawful.chains-add_factory s.inputs f in
      record {
        same_length = rw law (
            omega (
              arith,
              length-append chains (f ∷ []),
              length-append s.inputs_info ([] ∷ []),
              v.same_length,
            ));
        priorities = λ p g e.
            snoc-priorities chains v.priorities p g (subst (λ c. get_elem? c p ≡ some g) law e);
      }

  chains_longer :
      (s : FfStream api.State Mux)
      → length (api.input_chains (add_chain api s (length (api.input_chains s.inputs))).inputs)
        ≡ suc (length (api.input_chains s.inputs))
  unfolding add_chain
  chains_longer s =
      let chains = api.input_chains s.inputs in
      let f = new_input_factory (length chains) in
      rw (lawful.chains-add_factory s.inputs f) (omega (arith, length-append chains (f ∷ [])))

  infos_longer :
      (s : FfStream api.State Mux) (p : ℕ)
      → length (add_chain api s p).inputs_info ≡ suc (length s.inputs_info)
  unfolding add_chain
  infos_longer s p = omega (arith, length-append s.inputs_info ([] ∷ []))

  infos_same :
      (s : FfStream api.State Mux) (p q : ℕ)
      → info_at (add_chain api s p).inputs_info q ≡ info_at s.inputs_info q
  unfolding add_chain
  infos_same s p q = info_at-snoc s.inputs_info q

  add_chains_lem :
      (k : ℕ) (s : FfStream api.State Mux)
      → IsValid api s
      → Grown s k (add_chains api k (length (api.input_chains s.inputs)) s)
  unfolding add_chains
  add_chains_lem zero s v = record { valid = v; grown = omega arith; infos = λ q. refl }
  add_chains_lem (suc k) s v =
      let t = add_chain api s (length (api.input_chains s.inputs)) in
      let longer = chains_longer s in
      let rest =
        subst (λ p. Grown t k (add_chains api k p t)) longer
          (add_chains_lem k t (add_chain-IsValid s v)) in
      record {
        valid = rest.valid;
        grown = omega (arith, rest.grown, infos_longer s (length (api.input_chains s.inputs)));
        infos = λ q. rest.infos q ∙ infos_same s (length (api.input_chains s.inputs)) q;
      }

  -- Adding a resource of a priority that fits an `int` succeeds. The stream stays valid; it has a
  -- list for each priority up to that one; the resource is the last of its priority, and the
  -- resources of all other priorities are as before.
  pub record Added (s : FfStream api.State Mux) (r : Resource) (t : FfStream api.State Mux)
      : Type 0 where
    pub valid : IsValid api t
    pub long : get_fallback_priority r < length t.inputs_info
    pub infos :
        (q : ℕ)
        → info_at t.inputs_info q ≡ (
            if get_fallback_priority r == q
            then snoc (info_at s.inputs_info q) r
            else info_at s.inputs_info q)

  append_info_lem :
      (s : FfStream api.State Mux) (r : Resource)
      → IsValid api s
      → get_fallback_priority r < length s.inputs_info
      → (t : FfStream api.State Mux) × (append_info api s (get_fallback_priority r) r ≡ ok t)
        × Added s r t
  unfolding append_info
  append_info_lem s r v h =
      let p = get_fallback_priority r in
      let (rs, e) = get_elem?_of_lt s.inputs_info p h in
      let infos = modify s.inputs_info p (λ old. snoc old r) in
      let same = length-modify s.inputs_info p (λ old. snoc old r) in
      (
        record s { inputs_info = infos },
        ground (arith, e),
        record {
          valid = record { same_length = v.same_length ∙ sym same; priorities = v.priorities };
          long = omega (arith, same);
          infos = λ q. info_at-modify s.inputs_info p q r h;
        },
      )

  pub add_input_lem :
      (s : FfStream api.State Mux) (r : Resource)
      → IsValid api s
      → get_fallback_priority r < 2 ^ 63
      → (t : FfStream api.State Mux) × (add_input api s r ≡ ok t) × Added s r t
  unfolding add_input
  add_input_lem s r v h =
      let n = length (api.input_chains s.inputs) in
      let k = rounds_to n (i64 (get_fallback_priority r)) in
      let g = add_chains_lem k s v in
      let u = add_chains api k n s in
      let (t, e, a) = append_info_lem u r g.valid (
        enough n (length s.inputs_info) (get_fallback_priority r) (length u.inputs_info) h g.grown
          v.same_length) in
      (
        t,
        rw ((==_iff n (length s.inputs_info)).1 v.same_length) e,
        record {
          valid = a.valid;
          long = a.long;
          infos = λ q.
              a.infos q
              ∙ ap (λ rs. if get_fallback_priority r == q then snoc rs r else rs) (g.infos q);
        },
      )

  info_at-Added :
      (s t : FfStream api.State Mux) (r : Resource) (rest : List Resource) (q : ℕ)
      → Added s r t
      → info_at t.inputs_info q ++ of_priority q rest
        ≡ info_at s.inputs_info q ++ of_priority q (r ∷ rest)
  unfolding of_priority
  info_at-Added s t r rest q a =
      ground
        (arith, a.infos q, append_assoc {0} (info_at s.inputs_info q) (r ∷ []) (of_priority q rest))

  -- Adding inputs to a valid stream, their priorities below 2 ^ 63, always succeeds and leaves a
  -- valid stream. The list of each priority then has, behind what it had, exactly the added
  -- resources of that priority, in the order in which they were added.
  pub add_inputs_lem :
      (s : FfStream api.State Mux) (rs : List Resource)
      → IsValid api s
      → All (λ r. get_fallback_priority r < 2 ^ 63) rs
      → (t : FfStream api.State Mux) × (add_inputs api s rs ≡ ok t)
        × IsValid api t
        × ((q : ℕ) → info_at t.inputs_info q ≡ info_at s.inputs_info q ++ of_priority q rs)
  unfolding add_inputs
  add_inputs_lem s [] v h =
      (s, refl, v, λ q. unfold of_priority in sym (append-nil (info_at s.inputs_info q)))
  add_inputs_lem s (r ∷ rs) v (h, hs) =
      let (t, e, a) = add_input_lem s r v h in
      let (u, f, w, i) = add_inputs_lem t rs a.valid hs in
      (u, ground (arith, e, f), w, λ q. i q ∙ info_at-Added s t r rs q a)
