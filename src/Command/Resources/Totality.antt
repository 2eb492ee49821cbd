-- ===== src/Command/Resources/Totality.antt =====
-- flag.go: the indexing of the collected options by `parseFlags`.
use ffstream.Base.{
  ℕ, suc, ◌+◌, ◌≤◌, ◌≡◌, refl, String, Bool, true, false, List, [], ◌∷◌, length, length-append,
  get_elem?_of_lt, ok, arith, ◌&&◌,
}
use ffstream.Flag.Value.{Readers, Wrapped, strings_as_separate_flags}
use ffstream.Flag.Parser.{GenericOption, Parser, parse}
use ffstream.Flag.Parser.Groups.{IsFilled, IsMatched, IsFilled-parse_value}
use ffstream.Flag.Parser.Handles.{At, parse-At}
use ffstream.Resource.{Resource, resource}
use ffstream.Command.Options.{convert_unknown_options}
use ffstream.Command.Resources.{
  Split, split_start, split_round, split, build_resources, strings_value, Fatal, Resources,
  parse_resources, is_empty,
}

round-length :
    (s : Split) (opt : String)
    → length s.unknown_options ≡ length s.unknown_non_options
    → length (split_round s opt).unknown_options ≡ length (split_round s opt).unknown_non_options
unfolding split_round
round-length s opt h = ground (
  arith,
  length-append {0} s.unknown_options (s.next_unknown_options ∷ []),
  length-append {0} s.unknown_non_options (opt ∷ []),
)

-- Each output address has its group of options.
split-length :
    (s : Split) (opts : List String)
    → length s.unknown_options ≡ length s.unknown_non_options
    → length (split s opts).unknown_options ≡ length (split s opts).unknown_non_options
unfolding split
split-length s [] h = h
split-length s (opt ∷ opts) h = split-length (split_round s opt) opts (round-length s opt h)

-- With enough groups, there is a resource for each address.
build_resources_total :
    (urls : List String) (idx : ℕ) (groups : List (List String))
    → idx + length urls ≤ length groups
    → (rs : List Resource) × (build_resources {E = Fatal} urls idx groups ≡ ok rs)
unfolding build_resources
build_resources_total [] idx groups h = ([], refl)
build_resources_total (url ∷ urls) idx groups h =
    let (group, e) = get_elem?_of_lt groups idx (omega arith) in
    let (rest, f) = build_resources_total urls (suc idx) groups (omega arith) in
    (resource url (convert_unknown_options group) ∷ rest, rw (e, f))

-- A list option that collects unknown options and has a group for each value.
abbrev pub IsInputOption : {Level : Type 0} → GenericOption Level → Type 0
IsInputOption opt = (opt.collect_unknown_options ≡ true) × IsMatched opt

values-le-groups :
    {Level : Type 0} (w : Wrapped Level) (c : Bool) (groups : List (List String))
    → c ≡ true
    → IsFilled w c groups
    → length (strings_value w) ≤ length groups
unfolding strings_value
values-le-groups (strings_as_separate_flags vs) true groups e m = omega arith
values-le-groups (strings_as_separate_flags vs) false groups e m = absurd (cc)
values-le-groups _ c groups e m = omega arith

parse_resources_total :
    {Level : Type 0} (p : Parser Level) (handle : ℕ)
    → At IsInputOption p handle
    → (is_empty p.collected_unknown_options && is_empty p.collected_non_flags) ≡ false
    → (r : Resources) × (parse_resources p handle ≡ ok r)
unfolding parse_resources split_start
parse_resources_total p handle (opt, h, (c, m)) e =
    let s = split split_start p.collected_unknown_options in
    let (outputs, o) =
      build_resources_total s.unknown_non_options 0 s.unknown_options
        (omega (arith, split-length split_start p.collected_unknown_options refl)) in
    let (inputs, i) =
      build_resources_total (strings_value opt.wrapped) 0 opt.collected_unknown_options (
        omega (
          arith,
          values-le-groups opt.wrapped opt.collect_unknown_options opt.collected_unknown_options c
              m,
        )) in
    (record { inputs = inputs; outputs = outputs }, rw e (rw o (rw h (rw i))))

-- After a parse of any arguments at all, failed or not, building the inputs and the outputs never
-- runs past the groups that the parser has collected: there is a result whenever some output or
-- argument behind `--` was given. The option behind the handle collects unknown options and has no
-- value without its group at the start.
pub parse-parse_resources :
    {Level : Type 0} (readers : Readers Level) (p : Parser Level) (args : List String) (handle : ℕ)
    → At IsInputOption p handle
    → (is_empty (parse readers p args).0.collected_unknown_options
        && is_empty (parse readers p args).0.collected_non_flags)
      ≡ false
    → (r : Resources) × (parse_resources (parse readers p args).0 handle ≡ ok r)
parse-parse_resources readers p args handle a =
    parse_resources_total (parse readers p args).0 handle (
      parse-At readers IsInputOption
        (λ opt next input v e (c, m). (
          c,
          IsFilled-parse_value readers opt.wrapped input opt.collect_unknown_options
              opt.collected_unknown_options next e m,
        ))
        p args handle a)
