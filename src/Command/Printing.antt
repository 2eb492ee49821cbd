-- ===== src/Command/Printing.antt =====
-- cmd/ffstream/codecs.go, demuxers.go and `printBuildInfo` of print_build_info.go: what the switches of
-- the command print.
use ffstream.Base.{
  ℕ, zero, suc, ◌-◌, ◌/◌, ◌%◌, String, Bool, List, [], ◌∷◌, ltb, if◌then◌else◌, Option, some, ℤ,
  digit, ◌<>◌,
}
use Prim.Native.Char.{Char}
use ffstream.Stream.Outputs.{u32_of_int}
use ffstream.Command.Settings.{Info, build_info, demuxers_info, encoders_info, decoders_info}
use ffstream.Command.Context.{BuildInfo, BuildVars, ModuleInfo, get_build_info}

-- `astiav.Codec`
pub record Codec : Type 0 where
  pub id : ℤ
  pub name : String
  pub is_encoder : Bool
  pub is_decoder : Bool

abbrev pub hex_letter : ℕ → Char
hex_letter zero = "A"
hex_letter (suc zero) = "B"
hex_letter (suc (suc zero)) = "C"
hex_letter (suc (suc (suc zero))) = "D"
hex_letter (suc (suc (suc (suc zero)))) = "E"
hex_letter _ = "F"

unfoldable pub hex_digit : ℕ → Char
unfolding digit
hex_digit n = if ltb n 10 then digit n else hex_letter (n - 10)

-- The last hexadecimal digits of a number in front of a text: `%016X` for 16 of them, as 32 bits need
-- no more.
unfoldable pub hex_onto : ℕ → ℕ → String → String
unfolding hex_digit
hex_onto zero n rest = rest
hex_onto (suc k) n rest = hex_onto k (n / 16) (String.◌∷◌ (hex_digit (n % 16)) rest)

unfoldable pub print_codec : Codec → String
unfolding hex_onto u32_of_int
print_codec codec = hex_onto 16 (u32_of_int codec.id) (" " <> codec.name <> "\n")

unfoldable pub print_encoders : List Codec → String
unfolding print_codec
print_encoders [] = ""
print_encoders (codec ∷ codecs) =
    let rest = print_encoders codecs in if codec.is_encoder then print_codec codec <> rest else rest

unfoldable pub print_decoders : List Codec → String
unfolding print_codec
print_decoders [] = ""
print_decoders (codec ∷ codecs) =
    let rest = print_decoders codecs in if codec.is_decoder then print_codec codec <> rest else rest

-- The names of the demuxers.
unfoldable pub print_demuxers : List String → String
print_demuxers [] = ""
print_demuxers (name ∷ names) = name <> "\n" <> print_demuxers names

-- What the libraries and the build know: codecs, demuxers, the build, and JSON, where `none` is an error.
pub record PrintApi : Type 0 where
  pub codecs : List Codec
  pub demuxers : List String
  pub vars : BuildVars
  pub module_info : Option ModuleInfo
  pub encode : BuildInfo → Option String

module _ (api : PrintApi) where
  unfoldable pub print_build_info : Option String
  unfolding get_build_info
  print_build_info = api.encode (get_build_info api.vars api.module_info)

  -- What a switch prints before the program exits; `none` is a fatal error.
  unfoldable pub print_info : Info → Option String
  unfolding print_build_info print_demuxers print_encoders print_decoders
  print_info build_info = print_build_info
  print_info demuxers_info = some (print_demuxers api.demuxers)
  print_info encoders_info = some (print_encoders api.codecs)
  print_info decoders_info = some (print_decoders api.codecs)
