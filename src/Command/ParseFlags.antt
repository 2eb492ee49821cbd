-- ===== src/Command/ParseFlags.antt =====
-- cmd/ffstream/flag.go: `parseFlags` as a whole, around the parts that Resources and Encoders model.
use ffstream.Base.{
  ℕ, String, Option, none, some, List, [], ◌∷◌, get_elem?, ℤ, Result, ok, err, panic, ◌>>=◌,
  must_find, if◌then◌else◌,
}
use ffstream.Command.Settings.{
  Stop, not_parsed, FlagsApi, AutoBitRateVideoConfig, Flags, bool_value, duration_value,
  level_value, info_of, exit_with, or_fatal, fatal_unless, checked_mode, auto_bit_rate_config,
}
use ffstream.Flag.Value.{Readers, Wrapped}
use ffstream.Flag.Parser.{Parser, ParseError, parse}
use ffstream.Sender.Output.{MuxMode}
use ffstream.Command.Flags.{flags_parser, inputs_flag}
use ffstream.Command.Resources.{
  mapping_not_supported, filters_not_supported, parse_resources, strings_value, is_empty,
}
use ffstream.Command.Encoders.{string_value, uint64_value, parse_encoders}

module _ (api : FlagsApi) where
  -- `none` where the auto-bitrate is off.
  unfoldable pub auto_bit_rate_of :
      {Level : Type 0}
      → Parser Level
      → String
      → MuxMode
      → Result Stop (Option (AutoBitRateVideoConfig api))
  unfolding auto_bit_rate_config bool_value
  auto_bit_rate_of p codec mode = do
    on ← must_find (get_elem? p.options 20)
    top ← must_find (get_elem? p.options 21)
    bottom ← must_find (get_elem? p.options 22)
    bypass ← must_find (get_elem? p.options 23)
    let config =
        auto_bit_rate_config api codec mode (uint64_value top.wrapped) (uint64_value bottom.wrapped)
          (bool_value bypass.wrapped)
    if bool_value on.wrapped then (config >>= λ cfg. ok (some cfg)) else ok none

  module _ {Level : Type 0} where
    -- The handles are positions in the order of registration: for each, its value.
    abbrev pub value_at : {E A : Type 0} → (Wrapped Level → A) → Parser Level → ℕ → Result E A
    value_at f p i = must_find (get_elem? p.options i) >>= λ opt. ok (f opt.wrapped)

    -- What follows `Parse` without an error.
    unfoldable pub flags_of : Parser Level → Result Stop (Flags api Level)
    unfolding auto_bit_rate_of info_of string_value bool_value duration_value level_value
    flags_of p = do
      version ← value_at bool_value p 26
      demuxers ← value_at bool_value p 27
      encoders ← value_at bool_value p 28
      decoders ← value_at bool_value p 29
      going_on ← exit_with (info_of version demuxers encoders decoders)
      resources ← or_fatal (parse_resources p inputs_flag)
      maps ← value_at strings_value p 18
      unmapped ← fatal_unless (is_empty maps) mapping_not_supported
      filters ← value_at strings_value p 16
      unfiltered ← fatal_unless (is_empty filters) filters_not_supported
      complex ← value_at strings_value p 17
      simple ← fatal_unless (is_empty complex) filters_not_supported
      mode_name ← value_at string_value p 19
      mode ← checked_mode mode_name (api.mux_mode_from_string mode_name)
      listen_control_socket ← value_at string_value p 7
      listen_net_pprof ← value_at string_value p 8
      logger_level ← value_at level_value p 9
      logstash_addr ← value_at string_value p 10
      sentry_dsn ← value_at string_value p 11
      log_file ← value_at string_value p 12
      lock_timeout ← value_at duration_value p 13
      insecure_debug ← value_at bool_value p 14
      remove_secrets_from_logs ← value_at bool_value p 15
      retry_input ← value_at duration_value p 24
      retry_output ← value_at duration_value p 25
      hw_accel ← value_at string_value p 0
      both ← or_fatal (parse_encoders p)
      auto ← auto_bit_rate_of p both.video_encoder.codec mode
      ok (record {
        hw_accel_global = hw_accel;
        inputs = resources.inputs;
        listen_control_socket = listen_control_socket;
        listen_net_pprof = listen_net_pprof;
        logger_level = logger_level;
        logstash_addr = logstash_addr;
        sentry_dsn = sentry_dsn;
        log_file = log_file;
        lock_timeout = lock_timeout;
        insecure_debug = insecure_debug;
        remove_secrets_from_logs = remove_secrets_from_logs;
        video_encoder = both.video_encoder;
        audio_encoder = both.audio_encoder;
        mux_mode = mode;
        auto_bit_rate = auto;
        retry_input_timeout_on_failure = retry_input;
        retry_output_timeout_on_failure = retry_output;
        outputs = resources.outputs;
      })

    unfoldable pub after_parse : Parser Level × Option ParseError → Result Stop (Flags api Level)
    unfolding flags_of
    after_parse (p, some e) = err (not_parsed e)
    after_parse (p, none) = flags_of p

    -- `args` is `os.Args`; `info` and `retry` are those of `flags_parser`.
    unfoldable pub parse_flags :
        Readers Level → Level → ℤ → List String → Result Stop (Flags api Level)
    unfolding after_parse
    parse_flags readers info retry [] = panic
    parse_flags readers info retry (name ∷ args) =
        after_parse (parse readers (flags_parser info retry) args)
