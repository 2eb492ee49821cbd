-- ===== src/Flag/Parser/Update.antt =====
-- parser.go: what one accepted option changes.
use ffstream.Base.{ℕ, ◌≡◌, refl, String, Bool, true, false, List, [], snoc, modify, modify-modify}
use ffstream.Flag.Value.{Wrapped}
use ffstream.Flag.Parser.{GenericOption, Parser, hand_over}

abbrev pub grouped : Bool → List (List String) → List String → List (List String)
grouped true groups group = snoc groups group
grouped false groups group = groups

-- The arguments that are left to the next collector.
abbrev pub left_over : Bool → List String → List String
left_over true next = []
left_over false next = next

module _ {Level : Type 0} where
  abbrev pub renew : Bool → List String → Wrapped Level → GenericOption Level → GenericOption Level
  renew collects next v opt = record opt {
    wrapped = v;
    collected_unknown_options = grouped collects opt.collected_unknown_options next;
  }

  pub hand_over-options :
      (p : Parser Level) (i : ℕ) (collects : Bool) (v : Wrapped Level)
      → (hand_over p i collects v).options
        ≡ modify p.options i (renew collects p.next_collector_of_unknown_options v)
  unfolding hand_over
  hand_over-options p i true v = modify-modify p.options i _ _
  hand_over-options p i false v = refl

  -- All that it changes: the option and, if that collects, the arguments before it.
  pub hand_over_lem :
      (p : Parser Level) (i : ℕ) (collects : Bool) (v : Wrapped Level)
      → hand_over p i collects v ≡ record p {
        options = modify p.options i (renew collects p.next_collector_of_unknown_options v);
        next_collector_of_unknown_options = left_over collects p.next_collector_of_unknown_options;
      }
  unfolding hand_over
  hand_over_lem p i true v = rw modify-modify
  hand_over_lem p i false v = refl
