-- ===== src/Tests/Runs.antt =====
-- A whole command line that is run to its end.
use ffstream.Base.{
  ℕ, Bool, ◌≡◌, refl, String, [], ◌∷◌, List, map, ℤ, negsuc, pos, ok, has_dash, tail, arith,
  parse_uint, Option,
}
use ffstream.Resource.{resource, get_fallback_priority}
use ffstream.Flag.Parser.{new_parser, add_parameter, add_flag, classify, found, find_option_by_name}
use ffstream.Flag.Parser.CommandLine.{command_line}
use ffstream.Command.Flags.{flags_parser, register, registrations}
use ffstream.Command.Resources.{is_option}
use ffstream.Command.Resources.RoundTrip.{Target, as_group, output_args}
use ffstream.Stream.Start.Success.{IsWilling}
use ffstream.Transcoder.{TranscoderConfig}
use ffstream.Command.Settings.{Flags}
use ffstream.Command.ParseFlags.{parse_flags}
use ffstream.Command.Main.{resolution_of, sample_rate_of}
use ffstream.Command.Main.Ending.{run_to_end}
use ffstream.Command.Main.Success.{run_to_end-parse_flags}
use ffstream.Stream.{FfStream}
use ffstream.Stream.Factory.{InputFactory}
use ffstream.Tests.Apis.{inputs_lawful, mux_api}
use ffstream.Tests.Parsing.{readers}
use ffstream.Tests.Programs.{flags_api, main_api}
use ffstream.Tests.Monitors.{push_api, stop_api}

abbrev first : Target
first = (record { key = "fallback_priority"; value = "1" } ∷ [], "backup.ts")

abbrev rest : List Target
rest = ([], "main.ts") ∷ []

abbrev out : Target
out = (record { key = "f"; value = "flv" } ∷ [], "rtmp://host/app")

willing :
    (mode : Bool) (auto : Option Bool) (cfg : TranscoderConfig String)
    → IsWilling mux_api mode auto cfg
willing mode auto cfg = record {
  made = (pos 0, pos 1);
  configured = (pos 0, pos 1);
  switched = (pos 0, pos 1);
  started = (pos 0, pos 1);
  makes = refl;
  configures = refl;
  switches = refl;
  starts = refl;
}

run_to_end-parse_flags_example :
    (flags : Flags flags_api ℕ) × (t : FfStream (List InputFactory) (ℤ × ℤ)) × (parse_flags
        flags_api readers 4
        (negsuc 0)
        ("ffstream" ∷ command_line "-i" (map as_group (first ∷ rest)) (output_args (out ∷ [])))
      ≡ ok flags)
    × (run_to_end main_api push_api stop_api flags ≡ ok t)
unfolding flags_parser register registrations new_parser add_parameter add_flag classify found
    find_option_by_name has_dash tail is_option resolution_of sample_rate_of get_fallback_priority
    resource parse_uint
run_to_end-parse_flags_example =
    run_to_end-parse_flags main_api push_api stop_api readers 4 (negsuc 0) "ffstream" first rest out
      [] (record { width = 0; height = 0 }) 0 inputs_lawful (λ s. refl)
      (((refl, refl, refl), tt), (tt, tt)) (((refl, refl, refl), tt), refl, tt) (omega arith) refl
      refl refl refl refl willing (λ m. refl)
