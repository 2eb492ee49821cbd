-- ===== src/Tests/Printing.antt =====
-- What the switches print, for two codecs and a negative identifier.
use ffstream.Base.{◌≡◌, refl, true, false, none, some, [], ◌∷◌, pos, negsuc}
use ffstream.Command.Settings.{encoders_info, demuxers_info, build_info}
use ffstream.Command.Printing.{Codec, print_codec, PrintApi, print_info, print_decoders}

abbrev libx264 : Codec
libx264 = record { id = pos 27; name = "libx264"; is_encoder = true; is_decoder = false }

abbrev aac : Codec
aac = record { id = pos 86_018; name = "aac"; is_encoder = true; is_decoder = true }

abbrev print_api : PrintApi
print_api = record {
  codecs = libx264 ∷ aac ∷ [];
  demuxers = "mpegts" ∷ "flv" ∷ [];
  vars = record { version = ""; git_commit = ""; build_date = "" };
  module_info = none;
  encode = λ build. none;
}

encoders_test :
    print_info print_api encoders_info ≡ some "000000000000001B libx264\n0000000000015002 aac\n"
unfolding print_info
encoders_test = refl

decoders_test : print_decoders (libx264 ∷ aac ∷ []) ≡ "0000000000015002 aac\n"
unfolding print_decoders
decoders_test = refl

negative_test :
    print_codec (record { id = negsuc 0; name = "?"; is_encoder = false; is_decoder = false })
    ≡ "00000000FFFFFFFF ?\n"
unfolding print_codec
negative_test = refl

demuxers_test : print_info print_api demuxers_info ≡ some "mpegts\nflv\n"
unfolding print_info
demuxers_test = refl

build_test : print_info print_api build_info ≡ none
unfolding print_info
build_test = refl
