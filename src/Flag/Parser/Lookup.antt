-- ===== src/Flag/Parser/Lookup.antt =====
-- parser.go: what `findOptionByName` returns, and that it sees names only.
use ffstream.Base.{
  ℕ, zero, suc, ◌≡◌, refl, ◌≢◌, String, none, some, List, [], ◌∷◌, arith, eq_iff, get_elem?,
  Option-cases, inl, inr, tail, modify,
}
use ffstream.Flag.Parser.{GenericOption, plain, known, find_option_by_name, found, classify}

module _ {Level : Type 0} where
  -- The option found stands at the position returned.
  pub find-get_elem? :
      (opts : List (GenericOption Level)) (name : String) {i : ℕ} {opt : GenericOption Level}
      → find_option_by_name opts name ≡ some (i, opt)
      → get_elem? opts i ≡ some opt
  unfolding find_option_by_name
  find-get_elem? [] name h = cc
  find-get_elem? (o ∷ opts) name {i} {opt} h = elim (Option-cases (find_option_by_name opts name)) [
    | inl e ↦ ground arith
    | inr ((j, o'), e) ↦ ground (arith, find-get_elem? opts name e)
  ]

  -- An option is found by its own name, and one without a name never.
  pub find-name :
      (opts : List (GenericOption Level)) (name : String) {i : ℕ} {opt : GenericOption Level}
      → find_option_by_name opts name ≡ some (i, opt)
      → (opt.name ≡ name) × (name ≢ "")
  unfolding find_option_by_name
  find-name [] name h = cc
  find-name (o ∷ opts) name {i} {opt} h = elim (Option-cases (find_option_by_name opts name)) [
    | inl e ↦ ground (arith, eq_iff o.name "", eq_iff name o.name)
    | inr ((j, o'), e) ↦ ground (arith, eq_iff o.name "", eq_iff name o.name, find-name opts name e)
  ]

  module _ (f : GenericOption Level → GenericOption Level)
      (same : (o : GenericOption Level) → (f o).name ≡ o.name) where
    pub find-modify-none :
        (opts : List (GenericOption Level)) (i : ℕ) (name : String)
        → find_option_by_name opts name ≡ none
        → find_option_by_name (modify opts i f) name ≡ none
    unfolding find_option_by_name
    find-modify-none [] i name h = refl
    find-modify-none (o ∷ opts) zero name h = ground (arith, same o)
    find-modify-none (o ∷ opts) (suc i) name h =
        elim (Option-cases (find_option_by_name opts name)) [
          | inl e ↦ ground (arith, find-modify-none opts i name e)
          | inr ((j, o'), e) ↦ ground arith
        ]

    pub find-modify-some :
        (opts : List (GenericOption Level)) (name : String) {i : ℕ} {opt : GenericOption Level}
        → find_option_by_name opts name ≡ some (i, opt)
        → find_option_by_name (modify opts i f) name ≡ some (i, f opt)
    unfolding find_option_by_name
    find-modify-some [] name h = cc
    find-modify-some (o ∷ opts) name {i = zero} {opt} h =
        elim (Option-cases (find_option_by_name opts name)) [
          | inl e ↦ ground (arith, same o)
          | inr ((j, o'), e) ↦ ground (arith, same o)
        ]
    find-modify-some (o ∷ opts) name {i = suc i} {opt} h =
        elim (Option-cases (find_option_by_name opts name)) [
          | inl e ↦ ground arith
          | inr ((j, o'), e) ↦ ground (arith, find-modify-some opts name e)
        ]

  pub classify-known :
      (opts : List (GenericOption Level)) (arg : String) {i : ℕ} {opt : GenericOption Level}
      → classify opts arg ≡ known i opt
      → find_option_by_name opts (tail arg) ≡ some (i, opt)
  unfolding classify found
  classify-known opts arg {i} {opt} h = elim (Option-cases (find_option_by_name opts (tail arg))) [
    | inl e ↦ ground arith
    | inr ((j, o'), e) ↦ ground arith
  ]

  module _ (f : GenericOption Level → GenericOption Level)
      (same : (o : GenericOption Level) → (f o).name ≡ o.name) where
    pub classify-modify_plain :
        (opts : List (GenericOption Level)) (i : ℕ) (arg : String)
        → classify opts arg ≡ plain
        → classify (modify opts i f) arg ≡ plain
    unfolding classify found
    classify-modify_plain opts i arg h = elim (Option-cases (find_option_by_name opts (tail arg))) [
      | inl e ↦ ground (arith, find-modify-none f same opts i (tail arg) e)
      | inr ((j, o'), e) ↦ ground arith
    ]

    pub classify-modify_known :
        (opts : List (GenericOption Level)) (arg : String) {i : ℕ} {opt : GenericOption Level}
        → classify opts arg ≡ known i opt
        → classify (modify opts i f) arg ≡ known i (f opt)
    unfolding classify found
    classify-modify_known opts arg {i} {opt} h = ground (
      arith,
      classify-known opts arg h,
      find-modify-some f same opts (tail arg) (classify-known opts arg h),
    )
