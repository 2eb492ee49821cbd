-- ===== src/Tests/Programs.antt =====
-- Whole command lines, over small libraries.
use ffstream.Base.{
  ℕ, ◌≡◌, refl, String, str_eq, true, false, none, some, List, [], ◌∷◌, map, ℤ, pos, negsuc, ok,
  err, if◌then◌else◌, has_dash, tail, arith, parse_uint,
}
use ffstream.Resource.{resource, get_fallback_priority}
use ffstream.Resource.Groups.{of_priority}
use ffstream.Transcoder.{TranscoderConfig}
use ffstream.Flag.Parser.{
  new_parser, add_parameter, add_flag, classify, found, find_option_by_name, parse,
}
use ffstream.Flag.Parser.CommandLine.{command_line}
use ffstream.Command.Flags.{flags_parser, register, registrations}
use ffstream.Command.Resources.{is_option, is_empty}
use ffstream.Command.Resources.RoundTrip.{as_resource, as_group, output_args}
use ffstream.Command.Templates.{output_template}
use ffstream.Command.Settings.{FlagsApi, Flags, exits, build_info}
use ffstream.Command.ParseFlags.{parse_flags}
use ffstream.Command.Main.{MainApi, prepare, resolution_of, sample_rate_of}
use ffstream.Command.Main.Preparation.{prepare-parse_flags}
use ffstream.Sender.Output.{undefined_mode, forbid}
use ffstream.Stream.{FfStream}
use ffstream.Stream.Factory.{InputFactory}
use ffstream.Stream.Inputs.Laws.{IsValid, info_at}
use ffstream.Stream.Outputs.Laws.{IsAudioComplete, IsVideoComplete}
use ffstream.Tests.Apis.{inputs_api, inputs_lawful, mux_api}
use ffstream.Tests.Parsing.{readers, ins, outs}

-- One mode, and no codec.
abbrev pub flags_api : FlagsApi
flags_api = record {
  Codec = ℕ;
  Rung = ℕ;
  Rest = ℕ;
  mux_mode_from_string = λ name. if str_eq name "forbid" then forbid else undefined_mode;
  codec_of = λ name. none;
  default_config = λ c. ([], 0);
  max_height = λ rungs height. rungs;
  min_height = λ rungs height. rungs;
  best = λ rungs. none;
  worst = λ rungs. none;
  bit_rate_high = λ rung. rung;
  bit_rate_low = λ rung. rung;
}

abbrev pub main_api : MainApi flags_api inputs_api mux_api
main_api = record {
  low_latency_options = λ codec. [];
  deduplicate = λ items. items;
  scan_resolution = λ value. none;
  scan_sample_rate = λ value. none;
  device_from_string = λ name. none;
  no_device = "none";
  listen = λ listening. true;
  new_inputs = λ cfg. some [];
  mode_of = λ mode. false;
  config_of = λ cfg. false;
}

prepare-parse_flags_example :
    (flags : Flags flags_api ℕ) × (s : FfStream (List InputFactory) (ℤ × ℤ))
    × (cfg : TranscoderConfig String) × (parse_flags flags_api readers 4
          (negsuc 0)
          ("ffstream" ∷ command_line "-i" (map as_group ins) (output_args outs))
        ≡ ok flags)
    × (prepare main_api flags ≡ ok (s, cfg))
    × IsValid inputs_api s
    × ((q : ℕ) → info_at s.inputs_info q ≡ of_priority q (map as_resource ins))
    × (s.output_templates ≡ map (output_template (pos 0)) (map as_resource outs))
    × (s.stream_mux ≡ none)
    × IsAudioComplete cfg.audio_track_configs
    × IsVideoComplete cfg.video_track_configs
unfolding flags_parser register registrations new_parser add_parameter add_flag classify found
    find_option_by_name has_dash tail is_option is_empty resolution_of sample_rate_of
    get_fallback_priority resource parse_uint
prepare-parse_flags_example =
    prepare-parse_flags main_api readers 4 (negsuc 0) "ffstream" ins outs []
      (record { width = 0; height = 0 }) 0 inputs_lawful (((refl, refl, refl), tt), (tt, tt))
      (((refl, refl, refl), tt), refl, tt) refl (omega arith) refl refl refl refl refl

version_test :
    parse_flags flags_api readers 4 (negsuc 0) ("ffstream" ∷ "-version" ∷ [])
    ≡ err (exits build_info)
unfolding parse_flags parse flags_parser find_option_by_name
version_test = refl
