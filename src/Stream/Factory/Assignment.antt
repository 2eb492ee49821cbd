-- ===== src/Stream/Factory/Assignment.antt =====
-- input_factory.go: the indices that streams have, and what one assignment does to them.
use ffstream.Base.{
  ℕ, suc, ◌<◌, ◌≡◌, ◌↔◌, refl, subst, true, false, Option, none, some, List, [], ◌∷◌, arith,
  if◌then◌else◌, ok, Bool-cases, Option-cases, inl, inr, ◌⊎◌,
}
use ffstream.Stream.Factory.{
  StreamIndexKey, InputFactory, same_key, find_key, find_index, assign_new, assign_key, is_first,
  stream_index_assign, reset_indices,
}

-- The index that a stream has, if it has one.
unfoldable pub assigned : InputFactory → StreamIndexKey → Option ℕ
assigned f key = if is_first f key then some 0 else find_index f.stream_index_map key

abbrev pub key_of : ℕ → ℕ → StreamIndexKey
key_of src idx = record { source = src; index = idx }

-- Every index in the map lies from 1 below the next one, and no two entries share it.
abbrev IsBounded : ℕ → List (StreamIndexKey × ℕ) → Type 0
IsBounded next [] = Unit {0}
IsBounded next ((k, out) ∷ entries) = (0 < out) × (out < next) × IsBounded out entries

-- The map is there, and its indices ascend below the next one.
abbrev HasMap : ℕ → Option (List (StreamIndexKey × ℕ)) → Type 0
HasMap next none = ⊥
HasMap next (some entries) = (0 < next) × IsBounded next entries

abbrev pub IsReady : InputFactory → Type 0
IsReady f = HasMap f.stream_index_next f.stream_index_map

pub reset_indices-IsReady : (f : InputFactory) (inputs : List ℕ) → IsReady (reset_indices f inputs)
unfolding reset_indices
reset_indices-IsReady f inputs = (omega arith, tt)

same_key_iff : (a b : StreamIndexKey) → (same_key a b ≡ true) ↔ (a ≡ b)
unfolding same_key
same_key_iff a b = ground arith

find_key_lt :
    (next : ℕ) (entries : List (StreamIndexKey × ℕ)) (key : StreamIndexKey) {out : ℕ}
    → IsBounded next entries
    → find_key entries key ≡ some out
    → (0 < out) × (out < next)
unfolding find_key
find_key_lt next [] key b h = absurd (cc)
find_key_lt next ((k, o) ∷ entries) key {out} b h = elim (Bool-cases (same_key k key)) [
  | inl e ↦ ground arith
  | inr e ↦ ground (arith, find_key_lt o entries key {out = out} b.2)
]

find_key_inj :
    (next : ℕ) (entries : List (StreamIndexKey × ℕ)) (k l : StreamIndexKey) {out : ℕ}
    → IsBounded next entries
    → find_key entries k ≡ some out
    → find_key entries l ≡ some out
    → k ≡ l
unfolding find_key
find_key_inj next [] k l b h g = absurd (cc)
find_key_inj next ((j, o) ∷ entries) k l {out} (pos, lt, b) h g = ground (
  arith,
  same_key_iff j k,
  same_key_iff j l,
  find_key_lt o entries k {out = out} b,
  find_key_lt o entries l {out = out} b,
  find_key_inj o entries k l {out = out} b,
)

-- The streams that are not the 0th stream of the first input.
abbrev IsOther : InputFactory → StreamIndexKey → Type 0
IsOther f key = is_first f key ≡ false

-- What one assignment does, on a factory that is ready.
pub record Assigns (f : InputFactory) (key : StreamIndexKey) (out : ℕ) (f' : InputFactory)
    : Type 0 where
  pub ready : IsReady f'
  pub sources : f'.source_index ≡ f.source_index
  pub index : assigned f' key ≡ some out
  pub kept : (k : StreamIndexKey) (o : ℕ) → assigned f k ≡ some o → assigned f' k ≡ some o

module _ (f : InputFactory) (key : StreamIndexKey) (entries : List (StreamIndexKey × ℕ))
    (e : f.stream_index_map ≡ some entries) (other : is_first f key ≡ false) where
  assign_old :
      (out : ℕ)
      → IsReady f
      → find_key entries key ≡ some out
      → (assign_key f key ≡ ok (out, f)) × Assigns f key out f
  unfolding assign_key find_index assigned
  assign_old out r h =
      (ground arith, record { ready = r; sources = refl; index = ground arith; kept = λ k o g. g })

  abbrev after_new : InputFactory
  after_new = record f {
    stream_index_next = suc f.stream_index_next;
    stream_index_map = some ((key, f.stream_index_next) ∷ entries);
  }

  assign_fresh :
      IsReady f
      → find_key entries key ≡ none
      → (assign_key f key ≡ ok (f.stream_index_next, after_new))
        × Assigns f key f.stream_index_next after_new
  unfolding assign_key assign_new find_index find_key assigned is_first
  assign_fresh r h = (
    ground arith,
    record {
      ready = ground arith;
      sources = refl;
      index = ground (arith, same_key_iff key key);
      kept = λ k o g. ground (arith, same_key_iff key k);
    },
  )

-- On a factory whose map is there every stream of a source that is not nil gets an index.
assign_key_lem :
    (f : InputFactory) (key : StreamIndexKey)
    → IsReady f
    → is_first f key ≡ false
    → (out : ℕ) × (f' : InputFactory) × (assign_key f key ≡ ok (out, f')) × Assigns f key out f'
assign_key_lem f key r o = elim (Option-cases f.stream_index_map) [
  | inl e ↦ absurd (subst (HasMap f.stream_index_next) e r)
  | inr (entries, e) ↦ elim (Option-cases (find_key entries key)) [
    | inl h ↦
        let (q, a) = assign_fresh f key entries e o r h in
        (f.stream_index_next, after_new f key entries e o, q, a)
    | inr (out, h) ↦ let (q, a) = assign_old f key entries e o out r h in (out, f, q, a)
  ]
]

-- On a factory whose map is there, a stream of a source that is not nil always gets an index. It
-- keeps that index, and every stream that had one keeps it too.
pub stream_index_assign_total :
    (f : InputFactory) (src stream_idx : ℕ)
    → IsReady f
    → (out : ℕ) × (f' : InputFactory) × (stream_index_assign f (some src) stream_idx ≡ ok (out, f'))
      × Assigns f (key_of src stream_idx) out f'
unfolding stream_index_assign
stream_index_assign_total f src stream_idx r =
    elim (Bool-cases (is_first f (key_of src stream_idx))) [
      | inl e ↦ (
        0,
        f,
        rw e,
        record { ready = r; sources = refl; index = unfold assigned in rw e; kept = λ k o g. g },
      )
      | inr e ↦
          let (out, f', q, a) = assign_key_lem f (key_of src stream_idx) r e in (out, f', rw e q, a)
    ]

find_index_inj :
    (next : ℕ) (m : Option (List (StreamIndexKey × ℕ))) (k l : StreamIndexKey) {out : ℕ}
    → HasMap next m
    → find_index m k ≡ some out
    → find_index m l ≡ some out
    → (0 < out) × (k ≡ l)
unfolding find_index
find_index_inj next none k l r h g = absurd r
find_index_inj next (some entries) k l {out} r h g = (
  (find_key_lt next entries k {out = out} r.1 h).0,
  find_key_inj next entries k l {out = out} r.1 h g,
)

-- On a factory whose map is there two streams with the same index are the same stream, or are both
-- taken for the 0th stream of the first input, which gets index 0.
pub assigned_inj :
    (f : InputFactory) (k l : StreamIndexKey) {out : ℕ}
    → IsReady f
    → assigned f k ≡ some out
    → assigned f l ≡ some out
    → (k ≡ l) ⊎ ((is_first f k ≡ true) × (is_first f l ≡ true) × (out ≡ 0))
unfolding assigned
assigned_inj f k l {out} r h g = ground (
  arith,
  find_index_inj f.stream_index_next f.stream_index_map k l {out = out} r,
  find_index_inj f.stream_index_next f.stream_index_map k k {out = out} r,
  find_index_inj f.stream_index_next f.stream_index_map l l {out = out} r,
)
