-- ===== src/Server/Inputs/Listing.antt =====
-- grpc_server.go: what `GetInputsInfo` lists.
use ffstream.Base.{
  ℕ, suc, ◌+◌, ◌<◌, ◌≤◌, ◌^◌, get_elem?, ◌≡◌, refl, ◌∙◌, ap, subst, String, Option, none, some,
  List, [], ◌∷◌, ◌++◌, map, length, get_elem?_of_lt, arith, ok, err,
}
use ffstream.Resource.{Resource}
use ffstream.Stream.{InputsApi}
use ffstream.Stream.Factory.{InputFactory, FactoryError, out_of_range}
use ffstream.Stream.Inputs.{int_lt, get_resources}
use ffstream.Server.{GrpcServer}
use ffstream.Server.Inputs.Laws.{get_resources-found, i64_small}
use ffstream.Server.Inputs.{
  ChainsApi, InputInfo, input_info, input_kernel, resource_infos, chain_infos, get_inputs_info,
}

-- A chain has at least that many inputs open, if it has any open at all.
abbrev pub Covers : Option (List ℕ) → ℕ → Type 0
Covers none n = Unit {0}
Covers (some inputs) n = n ≤ length inputs

abbrev pub addresses : List Resource → List String
addresses = map (λ r. r.url)

abbrev pub listed : List InputInfo → List String
listed = map (λ info. info.url)

-- The addresses of the resources of every priority that has a chain, in their order.
abbrev pub chain_addresses : List InputFactory → List (List Resource) → List String
chain_addresses [] infos = []
chain_addresses (f ∷ fs) [] = []
chain_addresses (f ∷ fs) (rs ∷ infos) = addresses rs ++ chain_addresses fs infos

nothing_more : (fs : List InputFactory) → chain_addresses fs [] ≡ []
nothing_more [] = refl
nothing_more (f ∷ fs) = refl

input_kernel_total :
    (inputs : Option (List ℕ)) (idx n : ℕ)
    → Covers inputs n
    → idx < n
    → (k : Option ℕ) × (input_kernel inputs idx ≡ ok k)
unfolding input_kernel
input_kernel_total none idx n c h = (none, refl)
input_kernel_total (some inputs) idx n c h =
    let (id, e) = get_elem?_of_lt inputs idx (omega arith) in (some id, ground (arith, e))

listed-append : (xs ys : List InputInfo) → listed (xs ++ ys) ≡ listed xs ++ listed ys
listed-append [] ys = refl
listed-append (x ∷ xs) ys = ap (◌∷◌ x.url) (listed-append xs ys)

module _ (api : InputsApi) (chains : ChainsApi api) where
  resource_infos_total :
      (state : api.State) (chain : ℕ) (f : InputFactory) (rs : List Resource) (idx : ℕ)
      → Covers (chains.kernel_inputs state chain) (idx + length rs)
      → (infos : List InputInfo) × (resource_infos api chains state chain f rs idx ≡ ok infos)
        × (listed infos ≡ addresses rs)
  unfolding resource_infos
  resource_infos_total state chain f [] idx c = ([], refl, refl)
  resource_infos_total state chain f (r ∷ rs) idx c =
      let (k, e) =
        input_kernel_total (chains.kernel_inputs state chain) idx (idx + length (r ∷ rs)) c
          (omega arith) in
      let (infos, g, l) =
        resource_infos_total state chain f rs (suc idx)
          (subst (Covers (chains.kernel_inputs state chain)) (omega arith) c) in
      (input_info api chains state chain f r idx k ∷ infos, rw e (rw g refl), ap (◌∷◌ r.url) l)

  -- The chain of every priority has an input open for each of its resources, if it has any open.
  abbrev pub AreCovered : api.State → List (List Resource) → ℕ → Type 0
  AreCovered state [] chain = Unit {0}
  AreCovered state (rs ∷ infos) chain =
      Covers (chains.kernel_inputs state chain) (length rs) × AreCovered state infos (suc chain)

module _ (api : InputsApi) (chains : ChainsApi api) {Mux : Type 0}
    (srv : GrpcServer api.State Mux) where
  -- What is left of the chains and of the lists of resources, from a position on.
  record IsRest (fs : List InputFactory) (infos : List (List Resource)) (chain : ℕ) : Type 0 where
    ends : length srv.ff_stream.inputs_info ≤ chain + length infos
    fits : chain + length fs < 2 ^ 63
    priorities :
        (i : ℕ) (f : InputFactory) → get_elem? fs i ≡ some f → f.fallback_priority ≡ chain + i
    there :
        (i : ℕ) (rs : List Resource)
        → get_elem? infos i ≡ some rs
        → get_elem? srv.ff_stream.inputs_info (chain + i) ≡ some rs

  tail-IsRest :
      (f : InputFactory) (fs : List InputFactory) (rs : List Resource)
      (infos : List (List Resource)) (chain : ℕ)
      → IsRest (f ∷ fs) (rs ∷ infos) chain
      → IsRest fs infos (suc chain)
  tail-IsRest f fs rs infos chain h = record {
    ends = let e = h.ends in omega arith;
    fits = let e = h.fits in omega arith;
    priorities = λ i g e. let p = h.priorities (suc i) g e in omega arith;
    there = λ i qs e.
        subst (λ n. get_elem? srv.ff_stream.inputs_info n ≡ some qs) (omega arith)
          (h.there (suc i) qs e);
  }

  head_found :
      (f : InputFactory) (fs : List InputFactory) (rs : List Resource)
      (infos : List (List Resource)) (chain : ℕ)
      → IsRest (f ∷ fs) (rs ∷ infos) chain
      → get_resources api f srv.ff_stream ≡ ok rs
  head_found f fs rs infos chain h =
      let p = h.priorities 0 f refl in
      let fits = h.fits in
      get_resources-found api chains srv f {rs = rs} (omega arith) (
        subst (λ n. get_elem? srv.ff_stream.inputs_info n ≡ some rs) (omega arith)
          (h.there 0 rs refl))

  none_found :
      (f : InputFactory) (fs : List InputFactory) (chain : ℕ)
      → IsRest (f ∷ fs) [] chain
      → (e : FactoryError) × (get_resources api f srv.ff_stream ≡ err e)
  unfolding get_resources int_lt
  none_found f fs chain h =
      let p = h.priorities 0 f refl in
      let fits = h.fits in
      let ends = h.ends in
      let small = i64_small f.fallback_priority (omega arith) in
      (
        out_of_range f.fallback_priority (length srv.ff_stream.inputs_info),
        rw (get_resources, small) (ground arith),
      )

  past-IsRest :
      (f : InputFactory) (fs : List InputFactory) (chain : ℕ)
      → IsRest (f ∷ fs) [] chain
      → IsRest fs [] (suc chain)
  past-IsRest f fs chain h = record {
    ends = let e = h.ends in omega arith;
    fits = let e = h.fits in omega arith;
    priorities = λ i g e. let p = h.priorities (suc i) g e in omega arith;
    there = λ i rs e. absurd (cc);
  }

  chain_infos_total :
      (fs : List InputFactory) (infos : List (List Resource)) (chain : ℕ)
      → IsRest fs infos chain
      → AreCovered api chains srv.ff_stream.inputs infos chain
      → (list : List InputInfo) × (chain_infos api chains srv.ff_stream fs chain ≡ ok list)
        × (listed list ≡ chain_addresses fs infos)
  unfolding chain_infos
  chain_infos_total [] infos chain h c = ([], refl, refl)
  chain_infos_total (f ∷ fs) [] chain h c =
      let (others, e, l) = chain_infos_total fs [] (suc chain) (past-IsRest f fs chain h) tt in
      let (error, refused) = none_found f fs chain h in
      (others, rw (chain_infos, refused) e, l ∙ nothing_more fs)
  chain_infos_total (f ∷ fs) (rs ∷ infos) chain h c =
      let (others, e, l) =
        chain_infos_total fs infos (suc chain) (tail-IsRest f fs rs infos chain h) c.1 in
      let (own, g, k) =
        resource_infos_total api chains srv.ff_stream.inputs chain f rs 0
          (subst (Covers (chains.kernel_inputs srv.ff_stream.inputs chain)) (omega arith) c.0) in
      (
        own ++ others,
        rw (chain_infos, head_found f fs rs infos chain h, g, e) refl,
        listed-append own others
            ∙ ap (λ xs. xs ++ listed others) k
            ∙ ap (λ xs. addresses rs ++ xs) l,
      )

  -- If every chain has the priority of its position and an input open for each resource of its
  -- priority, if it has any open, and there are fewer than 2 ^ 63 chains: the list of inputs is answered
  -- without an error or a panic, and has one entry for each resource of each priority that has a chain,
  -- in order, with its address. A chain for whose priority there are no resources is passed over.
  pub get_inputs_info_lem :
      ((p : ℕ) (f : InputFactory)
        → get_elem? (api.input_chains srv.ff_stream.inputs) p ≡ some f
        → f.fallback_priority ≡ p)
      → length (api.input_chains srv.ff_stream.inputs) < 2 ^ 63
      → AreCovered api chains srv.ff_stream.inputs srv.ff_stream.inputs_info 0
      → (list : List InputInfo) × (get_inputs_info api chains srv ≡ ok list)
        × (listed list
            ≡ chain_addresses (api.input_chains srv.ff_stream.inputs) srv.ff_stream.inputs_info)
  unfolding get_inputs_info
  get_inputs_info_lem priorities fits c =
      chain_infos_total (api.input_chains srv.ff_stream.inputs) srv.ff_stream.inputs_info 0
        (record {
          ends = omega arith;
          fits = omega arith;
          priorities = λ i f e. let p = priorities i f e in omega arith;
          there = λ i rs e.
              subst (λ n. get_elem? srv.ff_stream.inputs_info n ≡ some rs) (omega arith) e;
        })
        c
