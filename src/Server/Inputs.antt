-- ===== src/Server/Inputs.antt =====
-- grpc_server.go: `GetInputsInfo`, `SetInputCustomOption` and `SetStopInput`.
pub mod Laws
pub mod Listing
pub mod Requests
pub mod Refinement
use ffstream.Base.{
  ℕ, suc, String, Bool, true, false, not, Option, none, some, List, [], ◌∷◌, ◌++◌, length,
  get_elem?, modify, ltb, ◌==◌, if◌then◌else◌, ℤ, pos, negsuc, i64, Result, ok, err, panic, ◌>>=◌,
  must_find,
}
use ffstream.Resource.{DictionaryItem, InputConfig, Resource}
use ffstream.Stream.{InputsApi, FfStream}
use ffstream.Stream.Factory.{InputFactory, FactoryError}
use ffstream.Stream.Inputs.{int_lt, get_resources}
use ffstream.Server.{Code, internal, invalid_argument, GrpcServer}

-- More of the library's inputs. A chain is given by its position. `kernel_inputs` are the object IDs
-- of the inputs that the chain has open; there are none while it is locked or closed. A Boolean says
-- whether the call succeeded. `set_first` is `DictionaryItems.SetFirst`.
pub record ChainsApi (api : InputsApi) : Type 0 where
  pub kernel_inputs : api.State → ℕ → Option (List ℕ)
  pub kernel_is_set : api.State → ℕ → Bool
  pub nil_object_id : ℕ
  pub pause : api.State → ℕ → api.State × Bool
  pub unpause : api.State → ℕ → api.State × Bool
  pub set_first : List DictionaryItem → DictionaryItem → List DictionaryItem

-- The message `InputInfo`, with the configuration that `InputConfigToProto` is given.
pub record InputInfo : Type 0 where
  pub id : ℕ
  pub priority : ℕ
  pub num : ℕ
  pub url : String
  pub input_config : InputConfig
  pub is_active : Bool

-- The function that finds `inputKernel`, for the inputs that are open.
unfoldable pub input_kernel : Option (List ℕ) → ℕ → Result Code (Option ℕ)
input_kernel none idx = ok none
input_kernel (some inputs) idx =
    let found = get_elem? inputs idx in
    if ltb (length inputs) idx then ok none else must_find found >>= λ id. ok (some id)

-- `z > n`, for an `int` and the length of a slice
unfoldable pub int_gt : ℤ → ℕ → Bool
int_gt (pos m) n = ltb n m
int_gt (negsuc m) n = false

abbrev pub code_of : Bool → Result Code (Unit {0})
code_of true = ok tt
code_of false = err internal

module _ (api : InputsApi) (chains : ChainsApi api) where
  abbrev id_of : Option ℕ → ℕ
  id_of none = chains.nil_object_id
  id_of (some id) = id

  -- The message for a resource at `idx`.
  abbrev pub input_info : api.State → ℕ → InputFactory → Resource → ℕ → Option ℕ → InputInfo
  input_info state chain f res idx kernel = record {
    id = id_of kernel;
    priority = f.fallback_priority;
    num = idx;
    url = res.url;
    input_config = res.input_config;
    is_active = chains.kernel_is_set state chain;
  }

  -- The loop over the resources of a chain.
  unfoldable pub resource_infos :
      api.State → ℕ → InputFactory → List Resource → ℕ → Result Code (List InputInfo)
  unfolding input_kernel
  resource_infos state chain f [] idx = ok []
  resource_infos state chain f (res ∷ resources) idx = do
    kernel ← input_kernel (chains.kernel_inputs state chain) idx
    rest ← resource_infos state chain f resources (suc idx)
    ok (input_info state chain f res idx kernel ∷ rest)

  abbrev pub set_option : DictionaryItem → Resource → Resource
  set_option item r = record r {
    input_config = record r.input_config {
      custom_options = chains.set_first r.input_config.custom_options item;
    };
  }

module _ (api : InputsApi) (chains : ChainsApi api) {Mux : Type 0} where
  -- The loop over the chains; a chain whose resources are not found is logged and passed over.
  unfoldable pub chain_infos :
      FfStream api.State Mux → List InputFactory → ℕ → Result Code (List InputInfo)
  chain_infos s [] chain = ok []
  chain_infos s (f ∷ fs) chain =
      let rest = chain_infos s fs (suc chain) in
      elim (get_resources api f s) [
        | err e ↦ rest
        | panic ↦ panic
        | ok resources ↦ resource_infos api chains s.inputs chain f resources 0 >>= λ infos.
            rest >>= λ others. ok (infos ++ others)
      ]

  unfoldable pub get_inputs_info : GrpcServer api.State Mux → Result Code (List InputInfo)
  unfolding chain_infos
  get_inputs_info srv = chain_infos srv.ff_stream (api.input_chains srv.ff_stream.inputs) 0

  -- The chain of a priority, as both handlers below look it up.
  unfoldable pub chain_at : GrpcServer api.State Mux → ℕ → Result Code InputFactory
  chain_at srv priority =
      let all = api.input_chains srv.ff_stream.inputs in
      if int_gt (i64 priority) (length all)
      then err invalid_argument
      else must_find (get_elem? all priority)

  -- The slice that `GetResources` returns is the stream's own: the write reaches the stream.
  unfoldable pub write_option :
      GrpcServer api.State Mux
      → ℕ
      → ℕ
      → DictionaryItem
      → List Resource
      → Result Code (GrpcServer api.State Mux)
  write_option srv priority num item resources =
      let s = srv.ff_stream in
      let written = record srv {
        ff_stream = record s {
          inputs_info =
              modify s.inputs_info priority (λ rs. modify rs num (set_option api chains item));
        };
      } in
      let found = get_elem? resources num in
      if int_lt (i64 num) (length resources)
      then (must_find found >>= λ r. ok written)
      else err invalid_argument

  unfoldable pub set_input_custom_option :
      GrpcServer api.State Mux → ℕ → ℕ → DictionaryItem → Result Code (GrpcServer api.State Mux)
  unfolding write_option chain_at
  set_input_custom_option srv priority num item = chain_at srv priority >>= λ f.
      if f.fallback_priority == priority
      then elim (get_resources api f srv.ff_stream) [
        | ok resources ↦ write_option srv priority num item resources
        | err e ↦ err internal
        | panic ↦ panic
      ]
      else err internal

  -- What is left of the server after a call of the inputs.
  unfoldable pub after_chain_call :
      GrpcServer api.State Mux
      → api.State × Bool
      → GrpcServer api.State Mux × Result Code (Unit {0})
  after_chain_call srv (state, done) =
      (record srv { ff_stream = record srv.ff_stream { inputs = state } }, code_of done)

  unfoldable pub set_stop_input :
      GrpcServer api.State Mux → ℕ → Bool → GrpcServer api.State Mux × Result Code (Unit {0})
  unfolding chain_at after_chain_call
  set_stop_input srv priority stop = elim (chain_at srv priority) [
    | err code ↦ (srv, err code)
    | panic ↦ (srv, panic)
    | ok f ↦ after_chain_call srv (
        if stop
        then chains.pause srv.ff_stream.inputs priority
        else chains.unpause srv.ff_stream.inputs priority)
  ]
