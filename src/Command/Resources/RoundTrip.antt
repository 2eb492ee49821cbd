-- ===== src/Command/Resources/RoundTrip.antt =====
-- flag.go: command lines of inputs and outputs, each behind its options.
use ffstream.Base.{
  ℕ, suc, ◌+◌, ◌≡◌, refl, ◌∙◌, ap, subst, String, Bool, true, false, none, some, List, [], ◌∷◌,
  ◌++◌, snoc, map, append_assoc, append-nil, get_elem?, get_elem?-modify_self, ok, arith, All,
  All-append, tail,
}
use ffstream.Flag.Value.{Readers, strings_as_separate_flags}
use ffstream.Flag.Parser.{GenericOption, Parser, known, classify, parse}
use ffstream.Flag.Parser.CommandLine.{
  command_line, IsLoose, AllLoose, gathered, values, groups_of, parse-command_line,
}
use ffstream.Flag.Parser.Lookup.{classify-known, find-get_elem?}
use ffstream.Resource.{DictionaryItem, Resource, resource}
use ffstream.Command.Options.{option_arg, arguments, convert-arguments}
use ffstream.Command.Resources.{
  is_option, Split, split_start, split_round, split, build_resources, strings_value, Fatal,
  parse_resources, is_empty,
}

-- An address with the options in front of it.
abbrev pub Target : Type 0
Target = List DictionaryItem × String

abbrev pub as_resource : Target → Resource
as_resource (items, url) = resource url items

abbrev pub as_group : Target → List String × String
as_group (items, url) = (arguments items, url)

-- The outputs as arguments.
abbrev pub output_args : List Target → List String
output_args [] = []
output_args ((items, url) ∷ outs) = arguments items ++ (url ∷ output_args outs)

-- `-key` is an option that the parser does not know, and the value does not look like an option.
abbrev pub IsForeign : {Level : Type 0} → List (GenericOption Level) → DictionaryItem → Type 0
IsForeign options item =
    (is_option (option_arg item.key) ≡ true)
    × IsLoose options (option_arg item.key)
    × (is_option item.value ≡ false)

-- The inputs' options are foreign; so are the outputs', whose addresses do not look like options.
abbrev pub AreInputs : {Level : Type 0} → List (GenericOption Level) → List Target → Type 0
AreInputs options [] = Unit {0}
AreInputs options ((items, url) ∷ ins) = All (IsForeign options) items × AreInputs options ins

abbrev pub AreOutputs : {Level : Type 0} → List (GenericOption Level) → List Target → Type 0
AreOutputs options [] = Unit {0}
AreOutputs options ((items, url) ∷ outs) =
    All (IsForeign options) items × (is_option url ≡ false) × AreOutputs options outs

module _ {Level : Type 0} (options : List (GenericOption Level)) where
  plain_value : (value : String) → is_option value ≡ false → IsLoose options value
  unfolding classify is_option
  plain_value value h = ground arith

  arguments-IsLoose :
      (items : List DictionaryItem)
      → All (IsForeign options) items
      → All (IsLoose options) (arguments items)
  arguments-IsLoose [] h = tt
  arguments-IsLoose (item ∷ items) ((o, l, v), h) =
      (l, (plain_value item.value v, arguments-IsLoose items h))

  pub inputs-AllLoose :
      (ins : List Target) → AreInputs options ins → AllLoose options (map as_group ins)
  inputs-AllLoose [] h = tt
  inputs-AllLoose ((items, url) ∷ ins) h = (arguments-IsLoose items h.0, inputs-AllLoose ins h.1)

  pub outputs-IsLoose :
      (outs : List Target) → AreOutputs options outs → All (IsLoose options) (output_args outs)
  outputs-IsLoose [] h = tt
  outputs-IsLoose ((items, url) ∷ outs) (f, u, h) =
      All-append (IsLoose options) (arguments items) (url ∷ output_args outs)
        (arguments-IsLoose items f) (plain_value url u, outputs-IsLoose outs h)

abbrev at : List (List String) → List String → List String → Bool → Split
at groups next urls waits = record {
  unknown_options = groups;
  next_unknown_options = next;
  unknown_non_options = urls;
  next_is_option = waits;
}

module _ (groups : List (List String)) (next urls : List String) (opt : String) where
  option_round :
      (waits : Bool)
      → is_option opt ≡ true
      → split_round (at groups next urls waits) opt ≡ at groups (snoc next opt) urls true
  unfolding split_round
  option_round waits e = rw e

  value_round :
      is_option opt ≡ false
      → split_round (at groups next urls true) opt ≡ at groups (snoc next opt) urls false
  unfolding split_round
  value_round e = rw e

  url_round :
      is_option opt ≡ false
      → split_round (at groups next urls false) opt ≡ at (snoc groups next) [] (snoc urls opt) false
  unfolding split_round
  url_round e = rw e

module _ {Level : Type 0} (options : List (GenericOption Level)) where
  split-arguments :
      (items : List DictionaryItem) (rest : List String) (groups : List (List String))
      (next urls : List String)
      → All (IsForeign options) items
      → split (at groups next urls false) (arguments items ++ rest)
        ≡ split (at groups (next ++ arguments items) urls false) rest
  unfolding split
  split-arguments [] rest groups next urls h = rw append-nil
  split-arguments (item ∷ items) rest groups next urls ((o, l, v), h) =
      let arg = option_arg item.key in
      ap (λ s. split (split_round s item.value) (arguments items ++ rest))
        (option_round groups next urls arg false o)
      ∙ ap (λ s. split s (arguments items ++ rest))
          (value_round groups (snoc next arg) urls item.value v)
      ∙ split-arguments items rest groups (snoc (snoc next arg) item.value) urls h
      ∙ ap (λ n. split (at groups n urls false) rest) (simp append_assoc)

  split-output_args :
      (outs : List Target) (groups : List (List String)) (urls : List String)
      → AreOutputs options outs
      → split (at groups [] urls false) (output_args outs)
        ≡ at
            (groups ++ map (λ (items, url). arguments items) outs)
            []
            (urls ++ map (λ (items, url). url) outs)
            false
  unfolding split
  split-output_args [] groups urls h = simp append-nil
  split-output_args ((items, url) ∷ outs) groups urls (f, u, h) =
      split-arguments items (url ∷ output_args outs) groups [] urls f
      ∙ ap (λ s. split s (output_args outs)) (url_round groups (arguments items) urls url u)
      ∙ split-output_args outs (snoc groups (arguments items)) (snoc urls url) h
      ∙ simp append_assoc

-- The loop over the addresses meets each with its own group.
build_resources_lem :
    (targets : List Target) (idx : ℕ) (groups : List (List String))
    → ((k : ℕ)
        → get_elem? groups (idx + k) ≡ get_elem? (map (λ (items, url). arguments items) targets) k)
    → build_resources {E = Fatal} (map (λ (items, url). url) targets) idx groups
      ≡ ok (map as_resource targets)
unfolding build_resources
build_resources_lem [] idx groups h = refl
build_resources_lem ((items, url) ∷ targets) idx groups h =
    let here : get_elem? groups idx ≡ some (arguments items) =
      subst (λ k. get_elem? groups k ≡ some (arguments items)) (omega arith) (h 0) in
    let rest = build_resources_lem targets (suc idx) groups (λ k.
      subst (λ m. get_elem? groups m ≡ get_elem? (map (λ (items, url). arguments items) targets) k)
        (omega arith) (h (suc k))) in
    rw (here, rest, convert-arguments items)

build_resources_groups :
    (targets : List Target)
    → build_resources {E = Fatal}
        (map (λ (items, url). url) targets)
        0
        (map (λ (items, url). arguments items) targets)
      ≡ ok (map as_resource targets)
build_resources_groups targets =
    let groups = map (λ (items, url). arguments items) targets in
    build_resources_lem targets 0 groups (λ k. ap (get_elem? groups) (omega arith))

is_empty-output_args :
    (outs : List Target) → is_empty outs ≡ false → is_empty (output_args outs) ≡ false
unfolding is_empty
is_empty-output_args [] h = h
is_empty-output_args (([], url) ∷ outs) h = refl
is_empty-output_args ((item ∷ items, url) ∷ outs) h = refl

values-as_group : (ins : List Target) → values (map as_group ins) ≡ map (λ (items, url). url) ins
values-as_group [] = refl
values-as_group ((items, url) ∷ ins) = ap (◌∷◌ url) (values-as_group ins)

groups-as_group :
    (ins : List Target) → groups_of (map as_group ins) ≡ map (λ (items, url). arguments items) ins
groups-as_group [] = refl
groups-as_group ((items, url) ∷ ins) = ap (◌∷◌ (arguments items)) (groups-as_group ins)

parse_resources_lem :
    {Level : Type 0} (options : List (GenericOption Level)) (ins outs : List Target)
    (q : Parser Level) (handle : ℕ) {opt : GenericOption Level}
    → q.collected_unknown_options ≡ output_args outs
    → is_empty outs ≡ false
    → get_elem? q.options handle ≡ some opt
    → opt.wrapped ≡ strings_as_separate_flags (map (λ (items, url). url) ins)
    → opt.collected_unknown_options ≡ map (λ (items, url). arguments items) ins
    → AreOutputs options outs
    → parse_resources q handle
      ≡ ok (record { inputs = map as_resource ins; outputs = map as_resource outs })
unfolding parse_resources strings_value split_start
parse_resources_lem options ins outs q handle {opt} u n g w c o = simp (
  u,
  is_empty-output_args outs n,
  split-output_args options outs [] [] o,
  build_resources_groups outs,
  g,
  w,
  c,
  build_resources_groups ins,
)

-- Given a parser that has nothing collected yet and the handle of a list option with no value,
-- which takes an argument and collects unknown options: the command line that gives the inputs by
-- that option, each behind its options, and then the outputs, each behind its options, and at least
-- one, is parsed without an error, and `parseFlags` makes of it exactly those inputs and outputs,
-- in order and with their options. The options are foreign to the parser, and neither their values
-- nor the outputs' addresses look like options.
pub parse_resources-command_line :
    {Level : Type 0} (readers : Readers Level) (p : Parser Level) (flag : String)
    (ins outs : List Target) {handle : ℕ} {opt : GenericOption Level}
    → p.next_collector_of_unknown_options ≡ []
    → classify p.options flag ≡ known handle opt
    → opt.with_argument ≡ true
    → opt.collect_unknown_options ≡ true
    → opt.wrapped ≡ strings_as_separate_flags []
    → opt.collected_unknown_options ≡ []
    → AreInputs p.options ins
    → AreOutputs p.options outs
    → is_empty outs ≡ false
    → let (q, error) = parse readers p (command_line flag (map as_group ins) (output_args outs)) in
      (error ≡ none)
      × (parse_resources q handle
          ≡ ok (record { inputs = map as_resource ins; outputs = map as_resource outs }))
parse_resources-command_line readers p flag ins outs {handle} {opt} e k a c w g i o n =
    let final =
      parse-command_line readers flag (map as_group ins) (output_args outs) p [] e k a c w
        (inputs-AllLoose p.options ins i) (outputs-IsLoose p.options outs o) in
    rw final (
      refl,
      parse_resources_lem p.options ins outs _ handle {opt = gathered (map as_group ins) [] opt}
          refl n
          (get_elem?-modify_self p.options handle (gathered (map as_group ins) [])
            (find-get_elem? p.options (tail flag) (classify-known p.options flag k)))
          (ap strings_as_separate_flags (values-as_group ins))
          (ap (λ gs. gs ++ groups_of (map as_group ins)) g ∙ groups-as_group ins) o,
    )
