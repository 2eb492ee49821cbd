-- ===== src/Command/Templates.antt =====
-- cmd/ffstream/main.go: the templates that the outputs become.
use ffstream.Base.{
  ◌≡◌, refl, ap, String, ◌<>◌, Bool, true, false, ◌&&◌, Option, none, some, List, [], ◌∷◌, ℤ,
  str_eq, eq_iff, if◌then◌else◌, has_dash, tail, trim_dash, All, arith, Bool-cases, inl, inr,
}
use ffstream.Resource.{DictionaryItem, Resource, resource}
use ffstream.Command.Options.{convert_unknown_options}

-- `ffstream.SenderTemplate`, pkg/ffstream/sender_factory.go
pub record SenderTemplate : Type 0 where
  pub url_template : String
  pub options : List DictionaryItem
  pub retry_output_timeout_on_failure : ℤ

-- The loop that looks for the output's format: the last one given is taken.
unfoldable pub output_format : String → List DictionaryItem → String
output_format format [] = format
output_format format (item ∷ items) =
    output_format (if str_eq item.key "-f" then item.value else format) items

abbrev pub mov_flags : String
mov_flags = "frag_keyframe+empty_moov+separate_moof"

-- What is done to `movFlags.Value`
unfoldable pub extend_value : String → String
extend_value value = (if str_eq value "" then value else value <> "+") <> mov_flags

-- The first item `movflags` is extended in place; if there is none, one is added at the end.
unfoldable pub extend_mov_flags : List DictionaryItem → List DictionaryItem
extend_mov_flags [] = record { key = "movflags"; value = extend_value "" } ∷ []
extend_mov_flags (item ∷ items) =
    let rest = extend_mov_flags items in
    if str_eq item.key "movflags"
    then record item { value = extend_value item.value } ∷ items
    else item ∷ rest

-- One round of the loop over `flags.Outputs`.
unfoldable pub output_template : ℤ → Resource → SenderTemplate
unfolding output_format extend_mov_flags
output_template retry output =
    let options = output.input_config.custom_options in
    record {
      url_template = output.url;
      options =
          if str_eq (output_format "" options) "mpegts" then extend_mov_flags options else options;
      retry_output_timeout_on_failure = retry;
    }

abbrev pub double_dash : String → Bool
double_dash arg = has_dash arg && has_dash (tail arg)

trim_dash-ne-f : (arg : String) → double_dash arg ≡ false → str_eq (trim_dash arg) "-f" ≡ false
unfolding trim_dash
trim_dash-ne-f arg d = elim (Bool-cases (str_eq (trim_dash arg) "-f")) [
  | inr e ↦ e
  | inl e ↦
      let dashed : has_dash (trim_dash arg) ≡ true =
        ap has_dash ((eq_iff (trim_dash arg) "-f").0 e) in
      absurd (ground arith)
]

output_format-convert :
    (format : String) (args : List String)
    → All (λ arg. double_dash arg ≡ false) args
    → output_format format (convert_unknown_options args) ≡ format
unfolding output_format convert_unknown_options
output_format-convert format [] h = refl
output_format-convert format (arg ∷ []) h = refl
output_format-convert format (arg ∷ value ∷ rest) (d, (_, h)) =
    rw (trim_dash-ne-f arg d) (output_format-convert format rest h)

-- The options of an output on the command line pass to its template as they are, `-f mpegts`
-- included, unless an argument among them begins with two dashes: the extension of `movflags` for
-- MPEG-TS is not reached by `-f`.
pub output_template-convert :
    (retry : ℤ) (url : String) (args : List String)
    → All (λ arg. double_dash arg ≡ false) args
    → (output_template retry (resource url (convert_unknown_options args))).options
      ≡ convert_unknown_options args
unfolding output_template resource
output_template-convert retry url args h = rw (output_format-convert "" args h)

-- The value of the first item of that key.
unfoldable pub first_value : String → List DictionaryItem → Option String
first_value key [] = none
first_value key (item ∷ items) =
    if str_eq item.key key then some item.value else first_value key items

unfoldable pub value_or_empty : Option String → String
value_or_empty none = ""
value_or_empty (some v) = v

-- The extension leaves the first value of every key but `movflags` as it was, and appends the flags
-- to that of `movflags`, which counts as empty where there is none.
pub first_value-extend_mov_flags :
    (key : String) (items : List DictionaryItem)
    → first_value key (extend_mov_flags items) ≡ (
        if str_eq key "movflags"
        then some (extend_value (value_or_empty (first_value key items)))
        else first_value key items)
unfolding first_value extend_mov_flags value_or_empty
first_value-extend_mov_flags key [] = ground (arith, eq_iff key "movflags", eq_iff "movflags" key)
first_value-extend_mov_flags key (item ∷ items) = ground (
  arith,
  eq_iff key "movflags",
  eq_iff item.key "movflags",
  eq_iff item.key key,
  first_value-extend_mov_flags key items,
)
