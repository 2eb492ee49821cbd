-- ===== src/Flag/Parser/Steps.antt =====
-- parser.go: the rounds of the loop of `Parse` as equations, and the rule for its invariants.
use ffstream.Base.{
  ℕ, suc, ◌≡◌, refl, subst, sym, String, true, false, Option, none, some, List, [], ◌∷◌, get_elem?,
  Option-cases, Bool-cases, inl, inr, arith, tail,
}
use ffstream.Flag.Value.{Readers}
use ffstream.Flag.Parser.{
  GenericOption, Parser, unable_to_parse, Kind, plain, end_of_flags, known, classify, collect,
  finish, take_value, parse_loop,
}
use ffstream.Flag.Parser.Lookup.{classify-known, find-get_elem?}

abbrev pub Waiting : Type 0 → Type 0
Waiting Level = Option (ℕ × GenericOption Level × String)

-- The option that waits for its argument stands where the loop found it.
abbrev pub Waits : {Level : Type 0} → Parser Level → Waiting Level → Type 0
Waits p none = Unit {0}
Waits p (some (i, opt, raw)) = get_elem? p.options i ≡ some opt

-- The kinds of an argument, with the option's setting.
data Kinds {Level : Type 0} (k : Kind Level) : Type 0 where
  first : k ≡ plain → Kinds k
  second : k ≡ end_of_flags → Kinds k
  parameter :
      (i : ℕ) (opt : GenericOption Level) → k ≡ known i opt → opt.with_argument ≡ true → Kinds k
  switch :
      (i : ℕ) (opt : GenericOption Level) → k ≡ known i opt → opt.with_argument ≡ false → Kinds k

Kind-cases : {Level : Type 0} (k : Kind Level) → Kinds k
Kind-cases plain = first refl
Kind-cases end_of_flags = second refl
Kind-cases (known i opt) = elim (Bool-cases opt.with_argument) [
  | inl c ↦ parameter i opt refl c
  | inr c ↦ switch i opt refl c
]

known-get_elem? :
    {Level : Type 0} (opts : List (GenericOption Level)) (arg : String) {i : ℕ}
    {opt : GenericOption Level}
    → classify opts arg ≡ known i opt
    → get_elem? opts i ≡ some opt
known-get_elem? opts arg e = find-get_elem? opts (tail arg) (classify-known opts arg e)

module _ {Level : Type 0} (readers : Readers Level) (arg : String) (rest : List String) (idx : ℕ)
    (p : Parser Level) where
  pub loop_plain :
      classify p.options arg ≡ plain
      → parse_loop readers (arg ∷ rest) idx none p
        ≡ parse_loop readers rest (suc idx) none (collect p arg)
  unfolding parse_loop
  loop_plain e = ground arith

  pub loop_end :
      classify p.options arg ≡ end_of_flags
      → parse_loop readers (arg ∷ rest) idx none p
        ≡ (finish (record p { collected_non_flags = rest }), none)
  unfolding parse_loop
  loop_end e = ground arith

  module _ {i : ℕ} {opt : GenericOption Level} (e : classify p.options arg ≡ known i opt) where
    pub loop_parameter :
        opt.with_argument ≡ true
        → parse_loop readers (arg ∷ rest) idx none p
          ≡ parse_loop readers rest (suc idx) (some (i, opt, arg)) p
    unfolding parse_loop
    loop_parameter w = ground arith

    pub loop_switch :
        {p' : Parser Level}
        → opt.with_argument ≡ false
        → take_value readers p i opt "" ≡ some p'
        → parse_loop readers (arg ∷ rest) idx none p ≡ parse_loop readers rest (suc idx) none p'
    unfolding parse_loop
    loop_switch w t = ground arith

    pub loop_switch_fails :
        opt.with_argument ≡ false
        → take_value readers p i opt "" ≡ none
        → parse_loop readers (arg ∷ rest) idx none p ≡ (p, some (unable_to_parse opt.name arg idx))
    unfolding parse_loop
    loop_switch_fails w t = ground arith

  module _ (i : ℕ) (opt : GenericOption Level) (raw : String) where
    pub loop_value :
        {p' : Parser Level}
        → take_value readers p i opt arg ≡ some p'
        → parse_loop readers (arg ∷ rest) idx (some (i, opt, raw)) p
          ≡ parse_loop readers rest (suc idx) none p'
    unfolding parse_loop
    loop_value t = ground arith

    pub loop_value_fails :
        take_value readers p i opt arg ≡ none
        → parse_loop readers (arg ∷ rest) idx (some (i, opt, raw)) p
          ≡ (p, some (unable_to_parse opt.name raw idx))
    unfolding parse_loop
    loop_value_fails t = ground arith

-- An invariant of the parser: kept by the four ways in which a round changes it, it holds at the
-- end, whether that is an error or not.
module _ {Level : Type 0} (readers : Readers Level) (P : Parser Level → Type 0)
    (collects : (p : Parser Level) (arg : String) → P p → P (collect p arg))
    (finishes : (p : Parser Level) → P p → P (finish p))
    (ends : (p : Parser Level) (rest : List String)
      → P p
      → P (finish (record p { collected_non_flags = rest })))
    (takes : (p : Parser Level) (i : ℕ) (opt : GenericOption Level) (input : String)
        (p' : Parser Level)
      → get_elem? p.options i ≡ some opt
      → take_value readers p i opt input ≡ some p'
      → P p
      → P p') where
  pub parse_loop_inv :
      (args : List String) (idx : ℕ) (waits : Waiting Level) (p : Parser Level)
      → Waits p waits
      → P p
      → P (parse_loop readers args idx waits p).0
  unfolding parse_loop
  parse_loop_inv [] idx none p w h = finishes p h
  parse_loop_inv [] idx (some (i, opt, raw)) p w h = h
  parse_loop_inv (value ∷ rest) idx (some (i, opt, raw)) p w h =
      elim (Option-cases (take_value readers p i opt value)) [
        | inl e ↦ subst (λ r. P r.0) (sym (loop_value_fails readers value rest idx p i opt raw e)) h
        | inr (p', e) ↦
            subst (λ r. P r.0) (sym (loop_value readers value rest idx p i opt raw e))
              (parse_loop_inv rest (suc idx) none p' tt (takes p i opt value p' w e h))
      ]
  parse_loop_inv (arg ∷ rest) idx none p w h = elim (Kind-cases (classify p.options arg)) [
    | first e ↦
        subst (λ r. P r.0) (sym (loop_plain readers arg rest idx p e))
          (parse_loop_inv rest (suc idx) none (collect p arg) tt (collects p arg h))
    | second e ↦ subst (λ r. P r.0) (sym (loop_end readers arg rest idx p e)) (ends p rest h)
    | parameter i opt e c ↦
        subst (λ r. P r.0) (sym (loop_parameter readers arg rest idx p e c))
          (parse_loop_inv rest (suc idx) (some (i, opt, arg)) p (known-get_elem? p.options arg e) h)
    | switch i opt e c ↦ elim (Option-cases (take_value readers p i opt "")) [
      | inl t ↦ subst (λ r. P r.0) (sym (loop_switch_fails readers arg rest idx p e c t)) h
      | inr (p', t) ↦
          subst (λ r. P r.0) (sym (loop_switch readers arg rest idx p e c t))
            (parse_loop_inv rest (suc idx) none p' tt
              (takes p i opt "" p' (known-get_elem? p.options arg e) t h))
    ]
  ]
