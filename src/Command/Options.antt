-- ===== src/Command/Options.antt =====
-- cmd/ffstream/unknown_options.go and index_safe.go: options as lists of arguments.
use ffstream.Base.{ℕ, ◌≡◌, refl, ap₂, String, none, some, List, [], ◌∷◌, get_elem?, trim_dash}
use ffstream.Resource.{DictionaryItem}

-- `convertUnknownOptionsToCustomOptions` and `convertUnknownOptionsToAVPCustomOptions`, which
-- differ in the name of the result's type only. A last argument with no value is dropped.
unfoldable pub convert_unknown_options : List String → List DictionaryItem
unfolding trim_dash
convert_unknown_options [] = []
convert_unknown_options (arg ∷ []) = []
convert_unknown_options (arg ∷ value ∷ rest) =
    record { key = trim_dash arg; value = value } ∷ convert_unknown_options rest

-- `indexSafe`, with the zero value as an argument.
unfoldable pub index_safe {ℓ} : {A : Type ℓ} → A → List A → ℕ → A
index_safe zero_value s index = elim (get_elem? s index) [ none ↦ zero_value | some a ↦ a ]

-- `-key`
abbrev pub option_arg : String → String
option_arg key = String.◌∷◌ "-" key

-- The arguments that give these options.
abbrev pub arguments : List DictionaryItem → List String
arguments [] = []
arguments (item ∷ items) = option_arg item.key ∷ item.value ∷ arguments items

-- Options written as `-key value` are read back as they were, whatever the keys and values.
pub convert-arguments :
    (items : List DictionaryItem) → convert_unknown_options (arguments items) ≡ items
unfolding convert_unknown_options
convert-arguments [] = refl
convert-arguments (item ∷ items) = ap₂ ◌∷◌ refl (convert-arguments items)
