-- ===== src/Command/Resources.antt =====
-- cmd/ffstream/flag.go: how `parseFlags` turns what the parser has collected into the inputs and the
-- outputs.
pub mod Totality
pub mod RoundTrip
use ffstream.Base.{
  ℕ, suc, String, Bool, true, false, not, ◌&&◌, Option, none, some, List, [], ◌∷◌, ◌++◌, snoc,
  get_elem?, str_eq, has_dash, Result, ok, err, panic, ◌>>=◌, must_find, if◌then◌else◌,
}
use ffstream.Flag.Value.{Wrapped, strings_as_separate_flags}
use ffstream.Flag.Parser.{GenericOption, Parser}
use ffstream.Resource.{Resource, resource}
use ffstream.Command.Options.{convert_unknown_options}

-- `strings.HasPrefix(opt, "-") && len(opt) != 1`: a text that begins with a dash has length 1 only
-- if it is a dash.
unfoldable pub is_option : String → Bool
unfolding has_dash
is_option opt = has_dash opt && not (str_eq opt "-")

-- The variables of the loop over `p.CollectedUnknownOptions`.
pub record Split : Type 0 where
  pub unknown_options : List (List String)
  pub next_unknown_options : List String
  pub unknown_non_options : List String
  pub next_is_option : Bool

unfoldable pub split_start : Split
split_start = record {
  unknown_options = [];
  next_unknown_options = [];
  unknown_non_options = [];
  next_is_option = false;
}

-- One round of that loop
unfoldable pub split_round : Split → String → Split
split_round s opt =
    if is_option opt
    then record s { next_unknown_options = snoc s.next_unknown_options opt; next_is_option = true }
    else if s.next_is_option
    then record s { next_unknown_options = snoc s.next_unknown_options opt; next_is_option = false }
    else record s {
      unknown_options = snoc s.unknown_options s.next_unknown_options;
      next_unknown_options = [];
      unknown_non_options = snoc s.unknown_non_options opt;
    }

unfoldable pub split : Split → List String → Split
split s [] = s
split s (opt ∷ opts) = split (split_round s opt) opts

-- The loops that build `outputs` and `inputs`: the address at `idx` with the options at `idx`, where
-- a missing group is a panic.
unfoldable pub build_resources {ℓ} :
    {E : Type ℓ} → List String → ℕ → List (List String) → Result E (List Resource)
unfolding resource convert_unknown_options
build_resources [] idx groups = ok []
build_resources (url ∷ urls) idx groups = do
  group ← must_find (get_elem? groups idx)
  rest ← build_resources urls (suc idx) groups
  ok (resource url (convert_unknown_options group) ∷ rest)

-- The handle's `Value()`; the handle of a list option holds a list.
unfoldable pub strings_value : {Level : Type 0} → Wrapped Level → List String
strings_value (strings_as_separate_flags vs) = vs
strings_value _ = []

-- What `parseFlags` gives up for.
pub data Fatal : Type 0 where
  no_output : Fatal
  mapping_not_supported : Fatal
  filters_not_supported : Fatal
  unknown_mux_mode : String → Fatal
  unknown_video_codec : String → Fatal

unfoldable pub is_empty {ℓ} : {A : Type ℓ} → List A → Bool
is_empty [] = true
is_empty (x ∷ xs) = false

-- The resources of `Flags`: the inputs and the outputs.
pub record Resources : Type 0 where
  pub inputs : List Resource
  pub outputs : List Resource

-- `parseFlags` from the check of the outputs to the end of the loop over the inputs, on the parser
-- after `Parse`. `handle` is that of the option `i`.
unfoldable pub parse_resources : {Level : Type 0} → Parser Level → ℕ → Result Fatal Resources
parse_resources p handle =
    if is_empty p.collected_unknown_options && is_empty p.collected_non_flags
    then err no_output
    else do
      let s = split split_start p.collected_unknown_options
      outputs ← build_resources s.unknown_non_options 0 s.unknown_options
      opt ← must_find (get_elem? p.options handle)
      inputs ← build_resources (strings_value opt.wrapped) 0 opt.collected_unknown_options
      ok (record { inputs = inputs; outputs = outputs })
