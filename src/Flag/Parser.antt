-- ===== src/Flag/Parser.antt =====
-- pkg/ffflag/parser.go: `Parser`, the registration of options and `Parse`.
-- A `*GenericOption` is the position of the option in `options`; handles stay valid since options
-- are only added at the end.
pub mod Lookup
pub mod Update
pub mod Steps
pub mod Groups
pub mod Handles
pub mod CommandLine
use mathlib.Core.Option
use ffstream.Base.{
  ℕ, suc, ◌-◌, String, Bool, true, false, not, ◌||◌, Option, none, some, List, [], ◌∷◌, snoc,
  length, modify, str_eq, get_elem?, if◌then◌else◌, has_dash, tail,
}
use ffstream.Flag.Value.{Readers, Wrapped, bool, strings_as_separate_flags, parse_value}

module _ (Level : Type 0) where
  pub record GenericOption : Type 0 where
    pub name : String
    pub collect_unknown_options : Bool
    pub with_argument : Bool
    pub wrapped : Wrapped Level
    pub collected_unknown_options : List (List String)

  pub record Parser : Type 0 where
    pub options : List GenericOption
    pub collected_unknown_options : List String
    pub collected_non_flags : List String
    pub next_collector_of_unknown_options : List String

-- The two errors of `Parse`: the option's name, the raw argument and its position.
pub data ParseError : Type 0 where
  requires_argument : String → String → ℕ → ParseError
  unable_to_parse : String → String → ℕ → ParseError

-- What an argument is, by the tests at the top of the loop.
pub data Kind (Level : Type 0) : Type 0 where
  plain : Kind Level
  end_of_flags : Kind Level
  known : ℕ → GenericOption Level → Kind Level

module _ {Level : Type 0} where
  unfoldable pub new_parser : Parser Level
  new_parser = record {
    options = [];
    collected_unknown_options = [];
    collected_non_flags = [];
    next_collector_of_unknown_options = [];
  }

  -- `AddParameter`, with the handle that it returns.
  unfoldable pub add_parameter : Parser Level → String → Bool → Wrapped Level → Parser Level × ℕ
  add_parameter p name collect v =
      let opt : GenericOption Level = record {
        name = name;
        collect_unknown_options = collect;
        with_argument = true;
        wrapped = v;
        collected_unknown_options = [];
      } in
      (record p { options = snoc p.options opt }, length p.options)

  -- `AddFlag`: a switch with no argument, off at first.
  unfoldable pub add_flag : Parser Level → String → Bool → Parser Level × ℕ
  add_flag p name collect =
      let opt : GenericOption Level = record {
        name = name;
        collect_unknown_options = collect;
        with_argument = false;
        wrapped = bool false;
        collected_unknown_options = [];
      } in
      (record p { options = snoc p.options opt }, length p.options)

  unfoldable pub new_default_parser : Parser Level
  unfolding new_parser add_parameter
  new_default_parser = (add_parameter new_parser "i" true (strings_as_separate_flags [])).0

  -- The first option of that name; an option with no name is passed over.
  unfoldable pub find_option_by_name :
      List (GenericOption Level) → String → Option (ℕ × GenericOption Level)
  find_option_by_name [] flag_name = none
  find_option_by_name (opt ∷ opts) flag_name =
      let rest = Option.map (λ (i, o). (suc i, o)) (find_option_by_name opts flag_name) in
      if str_eq opt.name "" then rest else if str_eq flag_name opt.name then some (0, opt) else rest

  unfoldable pub found : Option (ℕ × GenericOption Level) → Kind Level
  found none = plain
  found (some (i, opt)) = known i opt

  unfoldable pub classify : List (GenericOption Level) → String → Kind Level
  unfolding found has_dash tail
  classify opts arg =
      if not (has_dash arg) || str_eq arg "-"
      then plain
      else if str_eq arg "--"
      then end_of_flags
      else found (find_option_by_name opts (tail arg))

  -- `p.nextCollectorOfUnknownOptions = append(…, arg)`
  unfoldable pub collect : Parser Level → String → Parser Level
  collect p arg = record p {
    next_collector_of_unknown_options = snoc p.next_collector_of_unknown_options arg;
  }

  -- The last statement of `Parse`
  unfoldable pub finish : Parser Level → Parser Level
  finish p = record p { collected_unknown_options = p.next_collector_of_unknown_options }

  -- `*v = …`
  unfoldable pub store_value : Wrapped Level → GenericOption Level → GenericOption Level
  store_value v opt = record opt { wrapped = v }

  -- `flag.CollectedUnknownOptions = append(…)`
  unfoldable pub add_group : List String → GenericOption Level → GenericOption Level
  add_group group opt = record opt {
    collected_unknown_options = snoc opt.collected_unknown_options group;
  }

  -- What the rest of a round does once the value is read; `collects` is the option's setting.
  unfoldable pub hand_over : Parser Level → ℕ → Bool → Wrapped Level → Parser Level
  unfolding store_value add_group
  hand_over p i collects v =
      let options = modify p.options i (store_value v) in
      if collects
      then record p {
        options = modify options i (add_group p.next_collector_of_unknown_options);
        next_collector_of_unknown_options = [];
      }
      else record p { options = options }

module _ {Level : Type 0} (readers : Readers Level) where
  unfoldable pub take_value :
      Parser Level → ℕ → GenericOption Level → String → Option (Parser Level)
  unfolding parse_value hand_over
  take_value p i opt value =
      Option.map (hand_over p i opt.collect_unknown_options) (parse_value readers opt.wrapped value)

  -- The loop from position `idx` on. While an option waits for its argument it is `waits`, with the
  -- raw argument that named it.
  unfoldable pub parse_loop :
      List String
      → ℕ
      → Option (ℕ × GenericOption Level × String)
      → Parser Level
      → Parser Level × Option ParseError
  parse_loop [] idx none p = (finish p, none)
  parse_loop [] idx (some (i, opt, raw)) p = (p, some (requires_argument opt.name raw (idx - 1)))
  parse_loop (value ∷ rest) idx (some (i, opt, raw)) p = elim (take_value p i opt value) [
    | none ↦ (p, some (unable_to_parse opt.name raw idx))
    | some p' ↦ parse_loop rest (suc idx) none p'
  ]
  parse_loop (arg ∷ rest) idx none p = elim (classify p.options arg) [
    | plain ↦ parse_loop rest (suc idx) none (collect p arg)
    | end_of_flags ↦ (finish (record p { collected_non_flags = rest }), none)
    | known i opt ↦ elim opt.with_argument [
      | true ↦ parse_loop rest (suc idx) (some (i, opt, arg)) p
      | false ↦ elim (take_value p i opt "") [
        | none ↦ (p, some (unable_to_parse opt.name arg idx))
        | some p' ↦ parse_loop rest (suc idx) none p'
      ]
    ]
  ]

  unfoldable pub parse : Parser Level → List String → Parser Level × Option ParseError
  unfolding parse_loop take_value finish collect classify
  parse p args = parse_loop args 0 none p
