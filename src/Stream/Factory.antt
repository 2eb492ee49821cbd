-- ===== src/Stream/Factory.antt =====
-- pkg/ffstream/input_factory.go: the factory of one priority, and the stream indices that it
-- assigns. A source is a pointer, modelled by a number; `none` is the nil source.
pub mod Assignment
pub mod Sources
use ffstream.Base.{
  ℕ, zero, suc, String, Bool, true, false, ◌&&◌, Option, none, some, List, [], ◌∷◌, ◌==◌,
  if◌then◌else◌, Result, ok, err, panic,
}

-- `streamIndexKey`
pub record StreamIndexKey : Type 0 where
  pub source : ℕ
  pub index : ℕ

-- A map that is nil cannot be written to.
pub record InputFactory : Type 0 where
  pub fallback_priority : ℕ
  pub stream_index_next : ℕ
  pub stream_index_map : Option (List (StreamIndexKey × ℕ))
  pub source_index : List (ℕ × ℕ)

unfoldable pub new_input_factory : ℕ → InputFactory
new_input_factory priority = record {
  fallback_priority = priority;
  stream_index_next = 0;
  stream_index_map = none;
  source_index = [];
}

unfoldable pub same_key : StreamIndexKey → StreamIndexKey → Bool
same_key a b = a.source == b.source && a.index == b.index

-- `f.sourceIndex[src]`; a missing source gives 0.
unfoldable pub source_index_of : List (ℕ × ℕ) → ℕ → ℕ
source_index_of [] src = 0
source_index_of ((s, i) ∷ rest) src = if s == src then i else source_index_of rest src

unfoldable pub find_key : List (StreamIndexKey × ℕ) → StreamIndexKey → Option ℕ
find_key [] key = none
find_key ((k, out) ∷ rest) key = if same_key k key then some out else find_key rest key

-- A lookup in the map; in the nil map there is nothing.
unfoldable pub find_index : Option (List (StreamIndexKey × ℕ)) → StreamIndexKey → Option ℕ
find_index none key = none
find_index (some entries) key = find_key entries key

pub data FactoryError : Type 0 where
  source_is_nil : FactoryError
  out_of_range : ℕ → ℕ → FactoryError
  bad_start_pts : String → FactoryError
  bad_start_dts : String → FactoryError
  cannot_open : String → FactoryError

-- The end of `streamIndexAssignLocked`, for a key that has no index yet.
unfoldable pub assign_new :
    InputFactory
    → StreamIndexKey
    → Option (List (StreamIndexKey × ℕ))
    → Result FactoryError (ℕ × InputFactory)
assign_new f key none = panic
assign_new f key (some entries) =
    let out = f.stream_index_next in
    ok (
      out,
      record f { stream_index_next = suc out; stream_index_map = some ((key, out) ∷ entries) },
    )

unfoldable pub assign_key : InputFactory → StreamIndexKey → Result FactoryError (ℕ × InputFactory)
assign_key f key = elim (find_index f.stream_index_map key) [
  | some out ↦ ok (out, f)
  | none ↦ assign_new f key f.stream_index_map
]

-- The test for the 0th stream of the first input.
unfoldable pub is_first : InputFactory → StreamIndexKey → Bool
is_first f key = source_index_of f.source_index key.source == 0 && key.index == 0

-- `streamIndexAssignLocked`: the index assigned and the factory after it.
unfoldable pub stream_index_assign :
    InputFactory → Option ℕ → ℕ → Result FactoryError (ℕ × InputFactory)
stream_index_assign f none stream_idx = err source_is_nil
stream_index_assign f (some src) stream_idx =
    let key : StreamIndexKey = record { source = src; index = stream_idx } in
    if is_first f key then ok (0, f) else assign_key f key

-- What `NewInput` does to the factory once the inputs are open, in this order of theirs.
-- A later entry of a source hides an earlier one.
unfoldable pub number_sources : List ℕ → ℕ → List (ℕ × ℕ) → List (ℕ × ℕ)
number_sources [] idx numbered = numbered
number_sources (src ∷ srcs) idx numbered = number_sources srcs (suc idx) ((src, idx) ∷ numbered)

unfoldable pub reset_indices : InputFactory → List ℕ → InputFactory
unfolding number_sources
reset_indices f inputs = record f {
  stream_index_next = 1;
  stream_index_map = some [];
  source_index = number_sources inputs 0 [];
}
