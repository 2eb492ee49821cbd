-- ===== src/Command/Main/Laws.antt =====
-- main.go and flag.go: what a command line of inputs and outputs leads to.
use ffstream.Base.{
  ◌≡◌, refl, ◌∙◌, ap, subst, String, false, none, some, List, [], ◌∷◌, map, modify, ℤ, ok, tail,
  has_dash,
}
use ffstream.Flag.Value.{Readers}
use ffstream.Flag.Parser.{
  GenericOption, Parser, classify, new_parser, add_parameter, add_flag, found, find_option_by_name,
}
use ffstream.Flag.Parser.CommandLine.{command_line, gathered, parse-command_line}
use ffstream.Resource.{Resource}
use ffstream.Command.Flags.{flags_parser, register, registrations, inputs_flag}
use ffstream.Command.Resources.{Resources, parse_resources, is_empty, strings_value}
use ffstream.Command.Resources.RoundTrip.{
  inputs-AllLoose, outputs-IsLoose, Target, as_resource, as_group, output_args, AreInputs,
  AreOutputs, parse_resources-command_line,
}
use ffstream.Command.Encoders.{Encoder, parse_encoders, encoder_both, encoder_own}
use ffstream.Command.Settings.{FlagsApi, Flags}
use ffstream.Command.ParseFlags.{flags_of, after_parse, parse_flags}
use ffstream.Sender.Output.{forbid}

module _ {Level : Type 0} (api : FlagsApi) (info : Level) (retry : ℤ) where
  -- The encoder that `-c` stands for by default.
  abbrev pub copy_encoder : Encoder
  copy_encoder = record { codec = "copy"; bit_rate = 0; options = [] }

  -- The flags of a command line that gives inputs and outputs alone.
  abbrev pub default_flags : List Resource → List Resource → Flags api Level
  default_flags inputs outputs = record {
    hw_accel_global = "none";
    inputs = inputs;
    listen_control_socket = "";
    listen_net_pprof = "";
    logger_level = some info;
    logstash_addr = "";
    sentry_dsn = "";
    log_file = "";
    lock_timeout = ℤ.pos 60_000_000_000;
    insecure_debug = false;
    remove_secrets_from_logs = false;
    video_encoder = copy_encoder;
    audio_encoder = copy_encoder;
    mux_mode = forbid;
    auto_bit_rate = none;
    retry_input_timeout_on_failure = retry;
    retry_output_timeout_on_failure = ℤ.pos 0;
    outputs = outputs;
  }

  -- The parser after such a command line.
  abbrev parsed : (GenericOption Level → GenericOption Level) → List String → Parser Level
  parsed g collected = record (flags_parser info retry) {
    options = modify (flags_parser info retry).options inputs_flag g;
    collected_unknown_options = collected;
    next_collector_of_unknown_options = collected;
  }

  flags_of_lem :
      (g : GenericOption Level → GenericOption Level) (collected : List String) (rs : Resources)
      → parse_resources (parsed g collected) inputs_flag ≡ ok rs
      → api.mux_mode_from_string "forbid" ≡ forbid
      → flags_of api (parsed g collected) ≡ ok (default_flags rs.inputs rs.outputs)
  unfolding flags_of parse_encoders encoder_both encoder_own flags_parser register registrations
      new_parser add_parameter add_flag is_empty strings_value
  flags_of_lem g collected rs e m = rw (flags_of, e, m) refl

  pub parse_flags_lem :
      (readers : Readers Level) (name : String) (ins outs : List Target)
      → AreInputs (flags_parser info retry).options ins
      → AreOutputs (flags_parser info retry).options outs
      → is_empty outs ≡ false
      → api.mux_mode_from_string "forbid" ≡ forbid
      → parse_flags api readers info retry
          (name ∷ command_line "-i" (map as_group ins) (output_args outs))
        ≡ ok (default_flags (map as_resource ins) (map as_resource outs))
  unfolding parse_flags after_parse flags_parser register registrations new_parser add_parameter
      add_flag classify found find_option_by_name has_dash tail
  parse_flags_lem readers name ins outs i o n m =
      let p = flags_parser info retry in
      let groups = map as_group ins in
      let final =
        parse-command_line readers "-i" groups (output_args outs) p [] {i = 1} refl refl refl refl
          refl (inputs-AllLoose p.options ins i) (outputs-IsLoose p.options outs o) in
      let both =
        parse_resources-command_line readers p "-i" ins outs {handle = 1} refl refl refl refl refl
          refl i o n in
      let rs : Resources = record {
        inputs = map as_resource ins;
        outputs = map as_resource outs;
      } in
      let e : parse_resources (parsed (gathered groups []) (output_args outs)) inputs_flag ≡ ok rs =
        subst (λ r. parse_resources r.0 inputs_flag ≡ ok rs) final both.1 in
      ap (after_parse api) final ∙ flags_of_lem (gathered groups []) (output_args outs) rs e m
