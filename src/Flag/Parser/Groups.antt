-- ===== src/Flag/Parser/Groups.antt =====
-- parser.go: the groups of unknown options that each option has collected.
use mathlib.Core.Option
use mathlib.Core.Option.{some-injective}
use ffstream.Base.{
  ℕ, ◌≡◌, subst, String, Bool, true, false, Option, none, some, List, [], ◌∷◌, arith, get_elem?,
  length, length-append, snoc, All, All-modify, All-get_elem?, Option-cases, if◌then◌else◌, str_eq,
  inl, inr,
}
use ffstream.Flag.Value.{
  Readers, Wrapped, uint64, string, strings_as_separate_flags, bool, log_level, duration,
  parse_value, parse_bool,
}
use ffstream.Flag.Parser.{GenericOption, Parser, collect, finish, hand_over, take_value, parse}
use ffstream.Flag.Parser.Update.{grouped, renew, hand_over-options}
use ffstream.Flag.Parser.Steps.{parse_loop_inv}

abbrev pub IsFilled : {Level : Type 0} → Wrapped Level → Bool → List (List String) → Type 0
IsFilled (strings_as_separate_flags vs) true groups = length vs ≡ length groups
IsFilled _ _ groups = Unit {0}

-- A list option that collects unknown options has a group for each of its values.
abbrev pub IsMatched : {Level : Type 0} → GenericOption Level → Type 0
IsMatched opt = IsFilled opt.wrapped opt.collect_unknown_options opt.collected_unknown_options

IsFilled-map :
    {A Level : Type 0} (k : A → Wrapped Level) (o : Option A) (c : Bool) (gs : List (List String))
    {v : Wrapped Level}
    → ((a : A) → IsFilled (k a) c gs)
    → Option.map k o ≡ some v
    → IsFilled v c gs
IsFilled-map k none c gs {v} all h = absurd (cc)
IsFilled-map k (some a) c gs {v} all h =
    subst (λ w. IsFilled w c gs) (some-injective (k a) v h) (all a)

IsFilled-if :
    {A Level : Type 0} (t : Bool) (x : A) (k : A → Wrapped Level) (o : Option A) (c : Bool)
    (gs : List (List String)) {v : Wrapped Level}
    → ((a : A) → IsFilled (k a) c gs)
    → (if t then some (k x) else Option.map k o) ≡ some v
    → IsFilled v c gs
IsFilled-if true x k o c gs all h = IsFilled-map k (some x) c gs all h
IsFilled-if false x k o c gs all h = IsFilled-map k o c gs all h

module _ {Level : Type 0} (readers : Readers Level) where
  pub IsFilled-parse_value :
      (w : Wrapped Level) (input : String) (c : Bool) (gs : List (List String)) (g : List String)
      {v : Wrapped Level}
      → parse_value readers w input ≡ some v
      → IsFilled w c gs
      → IsFilled v c (grouped c gs g)
  unfolding parse_value
  IsFilled-parse_value (uint64 n) input c gs g h m =
      IsFilled-map uint64 (readers.parse_bytes input) c (grouped c gs g) (λ a. tt) h
  IsFilled-parse_value (string s) input c gs g {v} h m =
      subst (λ w. IsFilled w c (grouped c gs g)) (some-injective (string input) v h) tt
  IsFilled-parse_value (strings_as_separate_flags vs) input true gs g {v} h m =
      subst (λ w. IsFilled w true (snoc gs g))
        (some-injective (strings_as_separate_flags (snoc vs input)) v h)
        (omega (arith, length-append vs (input ∷ []), length-append gs (g ∷ []), m))
  IsFilled-parse_value (strings_as_separate_flags vs) input false gs g {v} h m =
      subst (λ w. IsFilled w false gs)
        (some-injective (strings_as_separate_flags (snoc vs input)) v h) tt
  IsFilled-parse_value (bool b) input c gs g h m =
      IsFilled-if (str_eq input "") true bool (parse_bool input) c (grouped c gs g) (λ a. tt) h
  IsFilled-parse_value (log_level l) input c gs g h m =
      IsFilled-if (str_eq input "verbose") readers.level_debug log_level (readers.set_level input) c
        (grouped c gs g) (λ a. tt) h
  IsFilled-parse_value (duration d) input c gs g h m =
      IsFilled-map duration (readers.parse_duration input) c (grouped c gs g) (λ a. tt) h

  -- The option that stands at `i` is the one that the loop has found.
  hand_over-IsMatched :
      (p : Parser Level) (i : ℕ) (opt : GenericOption Level) (input : String) {v : Wrapped Level}
      → get_elem? p.options i ≡ some opt
      → All IsMatched p.options
      → parse_value readers opt.wrapped input ≡ some v
      → All IsMatched (hand_over p i opt.collect_unknown_options v).options
  hand_over-IsMatched p i opt input {v} e all h =
      let next = p.next_collector_of_unknown_options in
      let c = opt.collect_unknown_options in
      rw (hand_over-options p i c v) (
        All-modify IsMatched p.options i (renew c next v) opt all e (
          IsFilled-parse_value opt.wrapped input c opt.collected_unknown_options next h
            (All-get_elem? IsMatched p.options i opt all e)))

  take_value-IsMatched :
      (p : Parser Level) (i : ℕ) (opt : GenericOption Level) (input : String) {p' : Parser Level}
      → get_elem? p.options i ≡ some opt
      → All IsMatched p.options
      → take_value readers p i opt input ≡ some p'
      → All IsMatched p'.options
  unfolding take_value
  take_value-IsMatched p i opt input {p'} e all h =
      elim (Option-cases (parse_value readers opt.wrapped input)) [
        | inl f ↦ ground arith
        | inr (v, f) ↦
            subst (λ q. All IsMatched q.options)
              (some-injective (hand_over p i opt.collect_unknown_options v) p' (ground arith))
              (hand_over-IsMatched p i opt input e all f)
      ]

  -- Whatever the arguments, and also where the parse fails, every list option that collects unknown
  -- options ends with exactly one group for each of its values, if it began so.
  pub parse-IsMatched :
      (p : Parser Level) (args : List String)
      → All IsMatched p.options
      → All IsMatched (parse readers p args).0.options
  unfolding parse finish collect
  parse-IsMatched p args h =
      parse_loop_inv readers (λ q. All IsMatched q.options) (λ q arg k. k) (λ q k. k)
        (λ q rest k. k) (λ q i opt input q' e t k. take_value-IsMatched q i opt input e k t) args 0
        none p tt h
