-- ===== src/Stream/Factory/Sources.antt =====
-- input_factory.go: the numbers that `NewInput` gives its inputs, and what they do to the indices.
use ffstream.Base.{
  ℕ, suc, ◌<◌, ◌≡◌, refl, ◌∙◌, ap, subst, true, false, some, List, [], ◌∷◌, arith, Bool-cases, inl,
  inr,
}
use ffstream.Resource.{seen}
use ffstream.Stream.Factory.{
  StreamIndexKey, InputFactory, source_index_of, is_first, number_sources,
}
use ffstream.Stream.Factory.Assignment.{assigned, IsReady, assigned_inj, key_of}

-- The inputs that the factory was last reset to.
abbrev pub IsNumbered : InputFactory → List ℕ → Type 0
IsNumbered f inputs = f.source_index ≡ number_sources inputs 0 []

not_seen-source_index :
    (srcs : List ℕ) (idx : ℕ) (numbered : List (ℕ × ℕ)) (s : ℕ)
    → seen srcs s ≡ false
    → source_index_of (number_sources srcs idx numbered) s ≡ source_index_of numbered s
unfolding number_sources source_index_of seen
not_seen-source_index [] idx numbered s h = refl
not_seen-source_index (x ∷ srcs) idx numbered s h =
    ground (arith, not_seen-source_index srcs (suc idx) ((x, idx) ∷ numbered) s)

source_index-pos :
    (srcs : List ℕ) (idx : ℕ) (numbered : List (ℕ × ℕ)) (s : ℕ)
    → 0 < idx
    → seen srcs s ≡ true
    → 0 < source_index_of (number_sources srcs idx numbered) s
unfolding number_sources source_index_of seen
source_index-pos [] idx numbered s p h = absurd (cc)
source_index-pos (x ∷ srcs) idx numbered s p h = elim (Bool-cases (seen srcs s)) [
  | inl e ↦ source_index-pos srcs (suc idx) ((x, idx) ∷ numbered) s (omega arith) e
  | inr e ↦ ground (arith, not_seen-source_index srcs (suc idx) ((x, idx) ∷ numbered) s e)
]

-- Of the inputs only the first has number 0.
first_source :
    (x : ℕ) (srcs : List ℕ) (s : ℕ)
    → seen (x ∷ srcs) s ≡ true
    → source_index_of (number_sources (x ∷ srcs) 0 []) s ≡ 0
    → s ≡ x
unfolding number_sources seen
first_source x srcs s h z = elim (Bool-cases (seen srcs s)) [
  | inl e ↦ absurd (omega (arith, source_index-pos srcs 1 ((x, 0) ∷ []) s (omega arith) e))
  | inr e ↦ ground arith
]

is_first-eq :
    (f : InputFactory) (inputs : List ℕ) (k l : StreamIndexKey)
    → IsNumbered f inputs
    → seen inputs k.source ≡ true
    → seen inputs l.source ≡ true
    → is_first f k ≡ true
    → is_first f l ≡ true
    → k ≡ l
unfolding is_first
is_first-eq f [] k l n hk hl a b = absurd (unfold seen in cc)
is_first-eq f (x ∷ srcs) k l n hk hl a b =
    let zk : source_index_of (number_sources (x ∷ srcs) 0 []) k.source ≡ 0 =
      subst (λ m. source_index_of m k.source ≡ 0) n (ground arith) in
    let zl : source_index_of (number_sources (x ∷ srcs) 0 []) l.source ≡ 0 =
      subst (λ m. source_index_of m l.source ≡ 0) n (ground arith) in
    ground (arith, first_source x srcs k.source hk zk, first_source x srcs l.source hl zl)

-- On a factory that `NewInput` has reset to some inputs, and after any assignments since, two
-- streams of those inputs never share an index.
pub assigned-distinct :
    (f : InputFactory) (inputs : List ℕ) (k l : StreamIndexKey) {out : ℕ}
    → IsReady f
    → IsNumbered f inputs
    → seen inputs k.source ≡ true
    → seen inputs l.source ≡ true
    → assigned f k ≡ some out
    → assigned f l ≡ some out
    → k ≡ l
assigned-distinct f inputs k l {out} r n hk hl a b = elim (assigned_inj f k l {out = out} r a b) [
  | inl e ↦ e
  | inr (ik, il, z) ↦ is_first-eq f inputs k l n hk hl ik il
]

-- A source that is none of the inputs is taken for the first one: its stream 0 has index 0, which
-- is also that of stream 0 of the first input, where the inputs differ.
pub unknown_source-collides :
    (f : InputFactory) (x : ℕ) (srcs : List ℕ) (s : ℕ)
    → IsNumbered f (x ∷ srcs)
    → seen srcs x ≡ false
    → seen (x ∷ srcs) s ≡ false
    → (assigned f (key_of s 0) ≡ some 0) × (assigned f (key_of x 0) ≡ some 0)
unfolding assigned is_first source_index_of
unknown_source-collides f x srcs s n d u =
    let zs : source_index_of f.source_index s ≡ 0 =
      ap (λ m. source_index_of m s) n ∙ not_seen-source_index (x ∷ srcs) 0 [] s u in
    let zx : source_index_of f.source_index x ≡ 0 =
      ap (λ m. source_index_of m x) n
      ∙ unfold number_sources in not_seen-source_index srcs 1 ((x, 0) ∷ []) x d ∙ ground arith in
    (rw zs, rw zx)
