-- ===== src/Server/Inputs/Laws.antt =====
-- grpc_server.go: which requests about the inputs succeed, are refused, or panic.
use ffstream.Base.{
  ℕ, ◌<◌, ◌≤◌, ◌^◌, ◌≡◌, ◌≢◌, ◌∙◌, sym, Bool, some, List, ◌↔◌, ◌⊎◌, length, get_elem?, modify,
  get_elem?_of_ge, get_elem?_of_lt, lt_of_get_elem?, get_elem?-modify_self, get_elem?-modify_ne,
  length-modify, ◌==◌, ==_iff, arith, if◌then◌else◌, pos, i64, ok, err, panic, Option-cases, inl,
  inr,
}
use ffstream.Resource.{DictionaryItem, Resource}
use ffstream.Stream.{InputsApi}
use ffstream.Stream.Factory.{InputFactory}
use ffstream.Stream.Inputs.{int_lt, get_resources}
use ffstream.Stream.Inputs.Laws.{IsValid}
use ffstream.Server.{invalid_argument, GrpcServer}
use ffstream.Server.Inputs.{
  ChainsApi, input_kernel, int_gt, chain_at, set_option, write_option, set_input_custom_option,
  set_stop_input,
}

dec_eq : (a b : ℕ) → (a ≡ b) ⊎ (a ≢ b)
dec_eq a b = ground arith

pub i64_small : (n : ℕ) → n < 2 ^ 63 → i64 n ≡ pos n
unfolding i64
i64_small n h = ground arith

-- The lookup of the open input at `idx` panics exactly if `idx` is the number of open inputs: its
-- guard lets that one position through.
pub input_kernel_panic_iff :
    (inputs : List ℕ) (idx : ℕ) → (input_kernel (some inputs) idx ≡ panic) ↔ (idx ≡ length inputs)
unfolding input_kernel
input_kernel_panic_iff inputs idx = elim (Option-cases (get_elem? inputs idx)) [
  | inl e ↦ ground (arith, e, get_elem?_of_lt inputs idx)
  | inr (id, e) ↦ ground (arith, e, lt_of_get_elem? inputs idx {x = id} e)
]

module _ (api : InputsApi) (chains : ChainsApi api) {Mux : Type 0}
    (srv : GrpcServer api.State Mux) where
  chain_at-past :
      (priority : ℕ)
      → priority < 2 ^ 63
      → length (api.input_chains srv.ff_stream.inputs) < priority
      → chain_at api chains srv priority ≡ err invalid_argument
  unfolding chain_at int_gt
  chain_at-past priority b h = rw (i64_small priority b) (ground arith)

  chain_at-end :
      (priority : ℕ)
      → priority < 2 ^ 63
      → priority ≡ length (api.input_chains srv.ff_stream.inputs)
      → chain_at api chains srv priority ≡ panic
  unfolding chain_at int_gt
  chain_at-end priority b h = rw (i64_small priority b) (
      ground
        (arith, get_elem?_of_ge (api.input_chains srv.ff_stream.inputs) priority (omega arith)))

  chain_at-found :
      (priority : ℕ) {f : InputFactory}
      → priority < 2 ^ 63
      → get_elem? (api.input_chains srv.ff_stream.inputs) priority ≡ some f
      → chain_at api chains srv priority ≡ ok f
  unfolding chain_at int_gt
  chain_at-found priority {f} b h = rw (i64_small priority b) (
      ground (arith, h, lt_of_get_elem? (api.input_chains srv.ff_stream.inputs) priority {x = f} h))

  -- A request to change or to stop the input of a priority that has no chain is refused with
  -- `InvalidArgument`, and changes nothing, if the priority is above the number of chains; if it
  -- is that number, which the guard lets through, both handlers panic.
  pub no_chain-refused :
      (priority num : ℕ) (item : DictionaryItem) (stop : Bool)
      → priority < 2 ^ 63
      → length (api.input_chains srv.ff_stream.inputs) ≤ priority
      → let at_end = priority == length (api.input_chains srv.ff_stream.inputs) in
        (set_input_custom_option api chains srv priority num item
          ≡ (if at_end then panic else err invalid_argument))
        × (set_stop_input api chains srv priority stop
            ≡ (srv, (if at_end then panic else err invalid_argument)))
  unfolding set_input_custom_option set_stop_input
  no_chain-refused priority num item stop b h =
      ground (arith, chain_at-past priority b, chain_at-end priority b)

  pub get_resources-found :
      (f : InputFactory) {rs : List Resource}
      → f.fallback_priority < 2 ^ 63
      → get_elem? srv.ff_stream.inputs_info f.fallback_priority ≡ some rs
      → get_resources api f srv.ff_stream ≡ ok rs
  unfolding get_resources int_lt
  get_resources-found f {rs} b h =
      rw (i64_small f.fallback_priority b) (
        ground (arith, h, lt_of_get_elem? srv.ff_stream.inputs_info f.fallback_priority {x = rs} h))

  -- The server with the option written to the resource.
  abbrev pub with_option : ℕ → ℕ → DictionaryItem → GrpcServer api.State Mux
  with_option priority num item = record srv {
    ff_stream = record srv.ff_stream {
      inputs_info =
          modify srv.ff_stream.inputs_info priority
            (λ rs. modify rs num (set_option api chains item));
    };
  }

  write_option-found :
      (priority num : ℕ) (item : DictionaryItem) (rs : List Resource) {r : Resource}
      → num < 2 ^ 63
      → get_elem? rs num ≡ some r
      → write_option api chains srv priority num item rs ≡ ok (with_option priority num item)
  unfolding write_option int_lt
  write_option-found priority num item rs {r} b h =
      rw (i64_small num b) (ground (arith, h, lt_of_get_elem? rs num {x = r} h))

  -- A number past the last resource of the priority is refused.
  pub no_resource-refused :
      (priority num : ℕ) (item : DictionaryItem) {f : InputFactory} {rs : List Resource}
      → IsValid api srv.ff_stream
      → priority < 2 ^ 63
      → num < 2 ^ 63
      → get_elem? (api.input_chains srv.ff_stream.inputs) priority ≡ some f
      → get_elem? srv.ff_stream.inputs_info priority ≡ some rs
      → length rs ≤ num
      → set_input_custom_option api chains srv priority num item ≡ err invalid_argument
  unfolding set_input_custom_option write_option int_lt
  no_resource-refused priority num item {f} {rs} v b bn hf hrs past =
      let same = v.priorities priority f hf in
      rw (chain_at-found priority b hf) (
        ground (
          arith,
          same,
          ==_iff f.fallback_priority priority,
          get_resources-found f {rs = rs},
          hrs,
          i64_small num bn,
        ))

  -- On a valid stream, setting an option of a resource that is there succeeds. The resource then has
  -- the option, by `SetFirst`, the other resources of its priority and those of all other priorities
  -- are as before, and the stream is valid.
  pub set_input_custom_option_lem :
      (priority num : ℕ) (item : DictionaryItem) {f : InputFactory} {rs : List Resource}
      {r : Resource}
      → IsValid api srv.ff_stream
      → priority < 2 ^ 63
      → num < 2 ^ 63
      → get_elem? (api.input_chains srv.ff_stream.inputs) priority ≡ some f
      → get_elem? srv.ff_stream.inputs_info priority ≡ some rs
      → get_elem? rs num ≡ some r
      → (t : GrpcServer api.State Mux) × (set_input_custom_option api chains srv priority num item
          ≡ ok t)
        × IsValid api t.ff_stream
        × (get_elem? t.ff_stream.inputs_info priority
            ≡ some (modify rs num (set_option api chains item)))
        × ((q : ℕ)
            → (priority ≡ q)
              ⊎ (get_elem? t.ff_stream.inputs_info q ≡ get_elem? srv.ff_stream.inputs_info q))
  unfolding set_input_custom_option
  set_input_custom_option_lem priority num item {f} {rs} {r} v b bn hf hrs hr =
      let same = v.priorities priority f hf in
      (
        with_option priority num item,
        rw (chain_at-found priority b hf) (
            ground (
              arith,
              same,
              ==_iff f.fallback_priority priority,
              get_resources-found f {rs = rs},
              write_option-found priority num item rs bn hr,
              hrs,
            )),
        record {
          same_length =
              v.same_length
              ∙ sym (
                  length-modify srv.ff_stream.inputs_info priority
                    (λ rs. modify rs num (set_option api chains item)));
          priorities = v.priorities;
        },
        get_elem?-modify_self srv.ff_stream.inputs_info priority
            (λ rs. modify rs num (set_option api chains item)) hrs,
        λ q. elim (dec_eq priority q) [
          | inl e ↦ inl e
          | inr n ↦ inr (
              get_elem?-modify_ne srv.ff_stream.inputs_info priority q
                (λ rs. modify rs num (set_option api chains item)) n)
        ],
      )
