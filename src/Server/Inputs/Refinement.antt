-- ===== src/Server/Inputs/Refinement.antt =====
-- grpc_server.go and ffstream.go: a run of requests on the inputs does what its replay does.
use ffstream.Base.{
  ℕ, zero, suc, ◌≤◌, ◌<◌, ◌^◌, ◌≡◌, refl, sym, ◌∙◌, ap, subst, Option, none, some, List, [], ◌∷◌,
  length, get_elem?, modify, ◌==◌, ==_iff, ◌⊎◌, fun_ext, if◌then◌else◌, err, panic, All, arith,
  Option-cases, inl, inr, get_elem?_of_lt, lt_of_get_elem?, get_elem?_of_ge, modify_of_ge,
  length_of_none, true, Bool-cases,
}
use ffstream.Resource.{DictionaryItem, Resource}
use ffstream.Stream.{InputsApi, IsInputsApi}
use ffstream.Stream.Factory.{InputFactory}
use ffstream.Stream.Inputs.Laws.{IsValid, info_at, add_input_lem}
use ffstream.Server.{invalid_argument, GrpcServer}
use ffstream.Server.Inputs.{ChainsApi, set_option, set_input_custom_option}
use ffstream.Server.Inputs.Laws.{no_chain-refused, no_resource-refused, set_input_custom_option_lem}
use ffstream.Server.Inputs.Requests.{
  Request, add_resource, set_custom_option, Fits, Contents, replay_one, replay, run_one, run,
  contents,
}

abbrev or_empty : Option (List Resource) → List Resource
or_empty none = []
or_empty (some rs) = rs

info_at-get_elem? :
    (infos : List (List Resource)) (q : ℕ) → info_at infos q ≡ or_empty (get_elem? infos q)
unfolding info_at
info_at-get_elem? [] q = refl
info_at-get_elem? (rs ∷ infos) zero = refl
info_at-get_elem? (rs ∷ infos) (suc q) = info_at-get_elem? infos q

info_at-written :
    (infos infos' : List (List Resource)) (p n : ℕ) (f : Resource → Resource) {rs : List Resource}
    → get_elem? infos p ≡ some rs
    → get_elem? infos' p ≡ some (modify rs n f)
    → ((q : ℕ) → (p ≡ q) ⊎ (get_elem? infos' q ≡ get_elem? infos q))
    → (q : ℕ)
    → info_at infos' q ≡ (if p == q then modify (info_at infos q) n f else info_at infos q)
info_at-written infos infos' p n f {rs} found written others q = elim (Bool-cases (p == q)) [
  | inl e ↦
      let here : info_at infos p ≡ rs = info_at-get_elem? infos p ∙ ap or_empty found in
      rw e (
        subst (λ k. info_at infos' k ≡ modify (info_at infos k) n f) ((==_iff p q).0 e)
          (info_at-get_elem? infos' p ∙ ap or_empty written ∙ ap (λ l. modify l n f) (sym here)))
  | inr e ↦ rw e (elim (others q) [
    | inl same ↦ absurd (ground arith)
    | inr g ↦ info_at-get_elem? infos' q ∙ ap or_empty g ∙ sym (info_at-get_elem? infos q)
  ])
]

module _ (api : InputsApi) (chains : ChainsApi api) where
  replay-pointwise :
      (c d : Contents) (requests : List Request)
      → ((q : ℕ) → c q ≡ d q)
      → (q : ℕ) → replay api chains c requests q ≡ replay api chains d requests q
  replay-pointwise c d requests h q = ap (λ e. replay api chains e requests q) (fun_ext h)

  module _ {Mux : Type 0} where
    abbrev Refines : GrpcServer api.State Mux → Request → GrpcServer api.State Mux → Type 0
    Refines srv request srv' =
        IsValid api srv'.ff_stream
        × ((q : ℕ)
            → contents api chains srv' q
              ≡ replay_one api chains (contents api chains srv) request q)

    -- A request that the map does not notice.
    unchanged :
        (srv : GrpcServer api.State Mux) (priority num : ℕ) (item : DictionaryItem)
        → IsValid api srv.ff_stream
        → length (contents api chains srv priority) ≤ num
        → Refines srv (set_custom_option priority num item) srv
    unchanged srv priority num item v past = (
      v,
      λ q. elim (Bool-cases (priority == q)) [
        | inl e ↦
            let same = (==_iff priority q).0 e in
            rw e (
              sym (
                modify_of_ge (contents api chains srv q) num (set_option api chains item)
                  (subst (λ p. length (contents api chains srv p) ≤ num) same past)))
        | inr e ↦ rw e refl
      ],
    )

    run_refused :
        (srv : GrpcServer api.State Mux) (priority num : ℕ) (item : DictionaryItem)
        → IsValid api srv.ff_stream
        → priority < 2 ^ 63
        → get_elem? (api.input_chains srv.ff_stream.inputs) priority ≡ none
        → Refines srv
            (set_custom_option priority num item)
            (run_one api chains srv (set_custom_option priority num item))
    unfolding run_one
    run_refused srv priority num item v hp e =
        let past = length_of_none (api.input_chains srv.ff_stream.inputs) priority e in
        let refused = (no_chain-refused api chains srv priority num item true hp past).0 in
        let infos = srv.ff_stream.inputs_info in
        let nothing : length (contents api chains srv priority) ≤ num =
          rw (info_at-get_elem? infos priority)
            (rw (get_elem?_of_ge infos priority (omega (arith, v.same_length))) (omega arith)) in
        let same = unchanged srv priority num item v nothing in
        elim (Bool-cases (priority == length (api.input_chains srv.ff_stream.inputs))) [
          | inl z ↦
              let panics : set_input_custom_option api chains srv priority num item ≡ panic =
                rw z at refused in
              rw panics same
          | inr z ↦
              let fails : set_input_custom_option api chains srv priority num item
                  ≡ err invalid_argument =
                rw z at refused in
              rw fails same
        ]

    run_found :
        (srv : GrpcServer api.State Mux) (priority num : ℕ) (item : DictionaryItem)
        (f : InputFactory) (rs : List Resource)
        → IsValid api srv.ff_stream
        → priority < 2 ^ 63
        → num < 2 ^ 63
        → get_elem? (api.input_chains srv.ff_stream.inputs) priority ≡ some f
        → get_elem? srv.ff_stream.inputs_info priority ≡ some rs
        → Refines srv
            (set_custom_option priority num item)
            (run_one api chains srv (set_custom_option priority num item))
    unfolding run_one
    run_found srv priority num item f rs v hp hn hf hrs =
        let infos = srv.ff_stream.inputs_info in
        let here : contents api chains srv priority ≡ rs =
          info_at-get_elem? infos priority ∙ ap or_empty hrs in
        elim (Option-cases (get_elem? rs num)) [
          | inl e ↦
              let past = length_of_none rs num e in
              rw
                (no_resource-refused api chains srv priority num item {f = f} {rs = rs} v hp hn hf
                  hrs past)
                (unchanged srv priority num item v (omega (arith, ap length here)))
          | inr (r, e) ↦
              let (t, done, valid, written, others) =
                set_input_custom_option_lem api chains srv priority num item {f = f} {rs = rs}
                  {r = r} v hp hn hf hrs e in
              rw done (
                valid,
                info_at-written infos t.ff_stream.inputs_info priority num
                    (set_option api chains item) hrs written others,
              )
        ]

    run_one_lem :
        IsInputsApi api
        → (srv : GrpcServer api.State Mux) (request : Request) → IsValid api srv.ff_stream
        → Fits request
        → Refines srv request (run_one api chains srv request)
    unfolding run_one
    run_one_lem lawful srv (add_resource r) v h =
        let (t, done, added) = add_input_lem api lawful srv.ff_stream r v h in
        rw done (added.valid, added.infos)
    run_one_lem lawful srv (set_custom_option priority num item) v (hp, hn) =
        let all = api.input_chains srv.ff_stream.inputs in
        elim (Option-cases (get_elem? all priority)) [
          | inl e ↦ run_refused srv priority num item v hp e
          | inr (f, e) ↦
              let bound = lt_of_get_elem? all priority {x = f} e in
              let (rs, found) =
                get_elem?_of_lt srv.ff_stream.inputs_info priority
                  (omega (arith, bound, v.same_length)) in
              run_found srv priority num item f rs v hp hn e found
        ]

    -- A run of calls of `AddInput` and requests `SetInputCustomOption` on a valid stream, whatever they
    -- ask for below 2 ^ 63, keeps the stream valid and does to the resources of each priority what
    -- the replay on a map from priorities to lists of resources does, where writing an option to a
    -- resource that is not there changes nothing.
    pub run-replay :
        IsInputsApi api
        → (srv : GrpcServer api.State Mux) (requests : List Request) → IsValid api srv.ff_stream
        → All Fits requests
        → IsValid api (run api chains srv requests).ff_stream
          × ((q : ℕ)
              → contents api chains (run api chains srv requests) q
                ≡ replay api chains (contents api chains srv) requests q)
    unfolding run
    run-replay lawful srv [] v h = (v, λ q. refl)
    run-replay lawful srv (request ∷ requests) v (h, hs) =
        let (v', one) = run_one_lem lawful srv request v h in
        let srv' = run_one api chains srv request in
        let (w, rest) = run-replay lawful srv' requests v' hs in
        (
          w,
          λ q.
              rest q
              ∙ replay-pointwise (contents api chains srv')
                  (replay_one api chains (contents api chains srv) request) requests one q,
        )
