-- ===== src/Tests/Parsing.antt =====
-- The command-line parser of the program, on command lines as a user gives them.
use mathlib.Core.Option
use ffstream.Base.{
  ℕ, String, none, List, [], ◌∷◌, ◌≡◌, refl, pos, negsuc, parse_uint, All, modify, arith, ok,
  has_dash, tail, map,
}
use ffstream.Flag.Value.{Readers, parse_value}
use ffstream.Flag.Parser.{
  Parser, add_parameter, add_flag, new_parser, find_option_by_name, found, classify, collect,
  finish, store_value, add_group, hand_over, take_value, parse_loop, parse,
}
use ffstream.Flag.Parser.Groups.{IsMatched, parse-IsMatched}
use ffstream.Flag.Parser.CommandLine.{
  command_line, gathered, parse-command_line, parse-end_of_flags,
}
use ffstream.Resource.{resource}
use ffstream.Command.Flags.{register, registrations, flags_parser, inputs_flag}
use ffstream.Command.Options.{convert_unknown_options, index_safe}
use ffstream.Command.Resources.{Resources, is_option, is_empty, parse_resources}
use ffstream.Command.Resources.RoundTrip.{Target, as_resource, parse_resources-command_line}
use ffstream.Command.Resources.Totality.{parse-parse_resources}
use ffstream.Command.Encoders.{
  Encoders, parse_encoders, HasEncoderFlags, parse-parse_encoders, encoder_both, encoder_own,
  string_value, uint64_value, zero_encoder,
}
use ffstream.Command.Templates.{output_template, output_template-convert}

-- A logger with numbers for its levels, bytes and durations as plain numbers.
abbrev pub readers : Readers ℕ
readers = record {
  level_debug = 5;
  set_level = parse_uint 8;
  parse_bytes = parse_uint 64;
  parse_duration = λ s. Option.map pos (parse_uint 63 s);
}

abbrev pub parser : Parser ℕ
parser = flags_parser 4 (negsuc 0)

abbrev pub ins : List Target
ins = (record { key = "fallback_priority"; value = "1" } ∷ [], "backup.ts") ∷ ([], "main.ts") ∷ []

abbrev pub outs : List Target
outs = (record { key = "f"; value = "flv" } ∷ [], "rtmp://host/app") ∷ []

parse_resources-command_line_example :
    let (q, error) = parse readers parser (
      "-fallback_priority" ∷ "1" ∷ "-i" ∷ "backup.ts" ∷ "-i" ∷ "main.ts" ∷ "-f" ∷ "flv"
      ∷ "rtmp://host/app" ∷ []) in
    (error ≡ none)
    × (parse_resources q inputs_flag
        ≡ ok (record { inputs = map as_resource ins; outputs = map as_resource outs }))
unfolding flags_parser register registrations add_parameter add_flag new_parser classify found
    find_option_by_name has_dash tail is_option is_empty command_line
parse_resources-command_line_example =
    parse_resources-command_line readers parser "-i" ins outs refl refl refl refl refl refl
      (((refl, refl, refl), tt), (tt, tt)) (((refl, refl, refl), tt), refl, tt) refl

parse-command_line_example : parse readers parser ("x" ∷ "-i" ∷ "a" ∷ "-i" ∷ "b" ∷ "out" ∷ []) ≡ (
  record parser {
    options = modify parser.options 1 (gathered (("x" ∷ [], "a") ∷ ([], "b") ∷ []) []);
    collected_unknown_options = "out" ∷ [];
    next_collector_of_unknown_options = "out" ∷ [];
  },
  none,
)
unfolding flags_parser register registrations add_parameter add_flag new_parser classify found
    find_option_by_name has_dash tail command_line
parse-command_line_example =
    parse-command_line readers "-i" (("x" ∷ [], "a") ∷ ([], "b") ∷ []) ("out" ∷ []) parser [] refl
      refl refl refl refl ((refl, tt), (tt, tt)) (refl, tt)

parse-end_of_flags_test : parse readers parser ("out" ∷ "--" ∷ "-i" ∷ []) ≡ (
  record parser {
    collected_unknown_options = "out" ∷ [];
    collected_non_flags = "-i" ∷ [];
    next_collector_of_unknown_options = "out" ∷ [];
  },
  none,
)
unfolding flags_parser register registrations add_parameter add_flag new_parser classify found
    find_option_by_name has_dash tail
parse-end_of_flags_test = parse-end_of_flags readers parser ("out" ∷ []) ("-i" ∷ []) (refl, tt)

abbrev broken_args : List String
broken_args = "-x" ∷ "-i" ∷ "a" ∷ "-b:v" ∷ "many" ∷ "-i" ∷ []

All-IsMatched : All IsMatched parser.options
unfolding flags_parser register registrations add_parameter add_flag new_parser
All-IsMatched = ground arith

parse-IsMatched_example : All IsMatched (parse readers parser broken_args).0.options
parse-IsMatched_example = parse-IsMatched readers parser broken_args All-IsMatched

-- An output with no options, and a value of `-i` at the end that has no input behind it.
abbrev short_args : List String
short_args = "-i" ∷ "a" ∷ "out" ∷ []

parse-parse_resources_example :
    (r : Resources) × (parse_resources (parse readers parser short_args).0 inputs_flag ≡ ok r)
unfolding flags_parser register registrations add_parameter add_flag new_parser classify found
    find_option_by_name has_dash tail parse parse_loop take_value parse_value hand_over store_value
    add_group finish collect is_empty
parse-parse_resources_example =
    parse-parse_resources readers parser short_args inputs_flag (_, refl, (refl, refl)) refl

abbrev encoder_args : List String
encoder_args = "-crf" ∷ "20" ∷ "-c:v" ∷ "libx264" ∷ "-b:v" ∷ "1000" ∷ "out" ∷ []

has_encoder_flags : HasEncoderFlags parser
unfolding flags_parser register registrations add_parameter add_flag new_parser
has_encoder_flags = record {
  both = (_, refl, tt);
  video = (_, refl, (refl, λ e. absurd (cc)));
  audio = (_, refl, (refl, λ e. absurd (cc)));
  video_rate = (_, refl, tt);
  audio_rate = (_, refl, tt);
}

parse-parse_encoders_test :
    (e : Encoders) × (parse_encoders (parse readers parser encoder_args).0 ≡ ok e)
parse-parse_encoders_test = parse-parse_encoders readers parser encoder_args has_encoder_flags

output_template-convert_example :
    (output_template
      (pos 0)
      (resource "udp://host" (convert_unknown_options ("-f" ∷ "mpegts" ∷ [])))).options
    ≡ convert_unknown_options ("-f" ∷ "mpegts" ∷ [])
unfolding has_dash tail
output_template-convert_example =
    output_template-convert (pos 0) "udp://host" ("-f" ∷ "mpegts" ∷ []) (refl, (refl, tt))

-- The choice of `-c:v`, run to its end.
run_encoders :
    parse_encoders (parse readers parser encoder_args).0
    ≡ ok (record {
      video_encoder = record { codec = "libx264"; bit_rate = 1000; options = "-crf" ∷ "20" ∷ [] };
      audio_encoder = record { codec = "copy"; bit_rate = 0; options = [] };
    })
unfolding flags_parser register registrations add_parameter add_flag new_parser classify found
    find_option_by_name has_dash tail parse parse_loop take_value parse_value hand_over store_value
    add_group finish collect parse_encoders encoder_both encoder_own string_value uint64_value
    index_safe zero_encoder parse_uint
run_encoders = refl
