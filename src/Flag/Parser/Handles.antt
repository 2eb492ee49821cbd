-- ===== src/Flag/Parser/Handles.antt =====
-- parser.go: what stays true of the option behind a handle, whatever the arguments.
use mathlib.Core.Option.{some-injective}
use ffstream.Base.{
  ℕ, ◌≡◌, sym, ◌∙◌, ap, subst, String, none, some, List, get_elem?, modify, get_elem?-modify_self,
  get_elem?-modify_ne, ◌==◌, ==_iff, Bool-cases, Option-cases, inl, inr, arith,
}
use ffstream.Flag.Value.{Readers, Wrapped, parse_value}
use ffstream.Flag.Parser.{GenericOption, Parser, collect, finish, hand_over, take_value, parse}
use ffstream.Flag.Parser.Update.{renew, hand_over-options}
use ffstream.Flag.Parser.Steps.{parse_loop_inv}

-- The handle leads to an option of which `Q` holds.
abbrev pub At : {Level : Type 0} → (GenericOption Level → Type 0) → Parser Level → ℕ → Type 0
At {Level} Q p handle =
    (opt : GenericOption Level) × (get_elem? p.options handle ≡ some opt) × Q opt

module _ {Level : Type 0} (readers : Readers Level) (Q : GenericOption Level → Type 0)
    (closed : (opt : GenericOption Level) (next : List String) (input : String) (v : Wrapped Level)
      → parse_value readers opt.wrapped input ≡ some v
      → Q opt
      → Q (renew opt.collect_unknown_options next v opt)) where
  hand_over-At :
      (p : Parser Level) (handle i : ℕ) (fed : GenericOption Level) (input : String)
      (v : Wrapped Level)
      → get_elem? p.options i ≡ some fed
      → parse_value readers fed.wrapped input ≡ some v
      → At Q p handle
      → At Q (hand_over p i fed.collect_unknown_options v) handle
  hand_over-At p handle i fed input v g e (opt, h, q) =
      let next = p.next_collector_of_unknown_options in
      let f = renew fed.collect_unknown_options next v in
      let options = hand_over-options p i fed.collect_unknown_options v in
      elim (Bool-cases (i == handle)) [
        | inl same ↦
            let j = (==_iff i handle).0 same in
            let fed_opt = some-injective fed opt (sym g ∙ ap (get_elem? p.options) j ∙ h) in
            (
              f fed,
              rw options (
                  subst (λ k. get_elem? (modify p.options i f) k ≡ some (f fed)) j
                    (get_elem?-modify_self p.options i f g)),
              closed fed next input v e (subst Q (sym fed_opt) q),
            )
        | inr other ↦
            (opt, rw options (get_elem?-modify_ne p.options i handle f (λ j. ground arith) ∙ h), q)
      ]

  take_value-At :
      (handle : ℕ) (p : Parser Level) (i : ℕ) (fed : GenericOption Level) (input : String)
      (p' : Parser Level)
      → get_elem? p.options i ≡ some fed
      → take_value readers p i fed input ≡ some p'
      → At Q p handle
      → At Q p' handle
  unfolding take_value
  take_value-At handle p i fed input p' g t a =
      elim (Option-cases (parse_value readers fed.wrapped input)) [
        | inl f ↦ absurd (ground arith)
        | inr (v, f) ↦
            subst (λ q. At Q q handle)
              (some-injective (hand_over p i fed.collect_unknown_options v) p' (ground arith))
              (hand_over-At p handle i fed input v g f a)
      ]

  pub parse-At :
      (p : Parser Level) (args : List String) (handle : ℕ)
      → At Q p handle
      → At Q (parse readers p args).0 handle
  unfolding parse finish collect
  parse-At p args handle a =
      parse_loop_inv readers (λ q. At Q q handle) (λ q arg k. k) (λ q k. k) (λ q rest k. k)
        (take_value-At handle) args 0 none p tt a
