-- ===== src/Command/Main/Preparation.antt =====
-- main.go: the stream that `Start` is given for a command line of inputs and outputs.
use ffstream.Base.{
  ℕ, ◌<◌, ◌^◌, ◌≡◌, refl, sym, ◌∙◌, ap, String, false, none, some, List, [], ◌∷◌, ◌++◌, map, ℤ, All,
  ok, inl, append-nil, append_assoc,
}
use ffstream.Flag.Value.{Readers}
use ffstream.Flag.Parser.CommandLine.{command_line}
use ffstream.Resource.{Resource, get_fallback_priority}
use ffstream.Resource.Groups.{of_priority}
use ffstream.Transcoder.{Resolution, TranscoderConfig}
use ffstream.Command.Options.{convert_unknown_options}
use ffstream.Command.Templates.{output_template}
use ffstream.Command.Flags.{flags_parser}
use ffstream.Command.Resources.{is_empty}
use ffstream.Command.Resources.RoundTrip.{
  Target, as_resource, as_group, output_args, AreInputs, AreOutputs,
}
use ffstream.Command.Settings.{FlagsApi, Flags}
use ffstream.Command.ParseFlags.{parse_flags}
use ffstream.Command.Main.{
  MainApi, new_stream, listened, add_templates, resolution_of, sample_rate_of,
  encoder_video_options, transcoder_config, zero_resolution, prepare,
}
use ffstream.Command.Main.Laws.{default_flags, parse_flags_lem}
use ffstream.Sender.Output.{forbid}
use ffstream.Stream.{InputsApi, IsInputsApi, FfStream}
use ffstream.Stream.Configuration.{options_config}
use ffstream.Stream.Inputs.{add_inputs, add_output_template}
use ffstream.Stream.Inputs.Laws.{IsValid, info_at, add_inputs_lem}
use ffstream.Stream.Inputs.Rest.{add_inputs_rest}
use ffstream.Stream.Outputs.{MuxApi}
use ffstream.Stream.Outputs.Laws.{IsAudioComplete, IsVideoComplete}

module _ (api : InputsApi) {Mux : Type 0} where
  abbrev pub first_stream : ℤ → api.State → FfStream api.State Mux
  first_stream retry inputs = record {
    config = record { input_retry_interval = retry };
    inputs = inputs;
    inputs_info = [];
    output_templates = [];
    stream_mux = none;
  }

  first-IsValid :
      (retry : ℤ) (inputs : api.State)
      → api.input_chains inputs ≡ []
      → IsValid api (first_stream retry inputs)
  first-IsValid retry inputs e = record {
    same_length = rw e refl;
    priorities = λ p f h. absurd (let h' = rw e at h in cc);
  }

module _ {flags_api : FlagsApi} {api : InputsApi} {mux : MuxApi} (main : MainApi flags_api api mux)
    {Level : Type 0} where
  pub add_templates_lem :
      (flags : Flags flags_api Level) (s : FfStream api.State mux.Mux) (outputs : List Resource)
      → add_templates main flags s outputs ≡ record s {
        output_templates =
            s.output_templates
            ++ map (output_template flags.retry_output_timeout_on_failure) outputs;
      }
  unfolding add_templates add_output_template
  add_templates_lem flags s [] =
      ap (λ ts. record s { output_templates = ts }) (sym (append-nil s.output_templates))
  add_templates_lem flags s (output ∷ outputs) =
      let t = output_template flags.retry_output_timeout_on_failure output in
      add_templates_lem flags (add_output_template api s t) outputs
      ∙ ap (λ ts. record s { output_templates = ts })
          (append_assoc s.output_templates (t ∷ [])
            (map (output_template flags.retry_output_timeout_on_failure) outputs))

  prepare_ok :
      (flags : Flags flags_api Level) (s t : FfStream api.State mux.Mux) (resolution : Resolution)
      (rate : ℕ)
      → new_stream main flags ≡ ok s
      → listened main flags ≡ ok tt
      → add_inputs api s flags.inputs ≡ ok t
      → resolution_of main zero_resolution (encoder_video_options main flags) ≡ ok resolution
      → sample_rate_of main 0
          (main.deduplicate (convert_unknown_options flags.audio_encoder.options))
        ≡ ok rate
      → prepare main flags
        ≡ ok
            (add_templates main flags t flags.outputs, transcoder_config main flags resolution rate)
  unfolding prepare
  prepare_ok flags s t resolution rate a l b c d = rw (prepare, a, l) (rw b (rw c (rw d refl)))

  new_stream_ok :
      (flags : Flags flags_api Level) (inputs : api.State)
      → main.new_inputs (record { input_retry_interval = flags.retry_input_timeout_on_failure })
        ≡ some inputs
      → new_stream main flags ≡ ok (first_stream api flags.retry_input_timeout_on_failure inputs)
  unfolding new_stream options_config
  new_stream_ok flags inputs e = rw (new_stream, e) refl

  -- A command line that gives inputs, by `-i` and each behind its options, and then outputs, each behind
  -- its options, leads to the call of `Start`: the stream that it is given is valid and not started,
  -- the inputs of each priority are those of that priority on the command line, in order, and there
  -- is one template for each output, in order, with its address and its options, and the configuration
  -- lacks neither a sample rate nor a resolution that its first tracks need. The options are
  -- foreign to the program and all values and addresses of outputs look like no option; priorities
  -- fit an `int`; the library's inputs begin with no chain, and its low-latency options for the codec
  -- `copy` are understood.
  pub prepare-parse_flags :
      (readers : Readers Level) (level : Level) (retry : ℤ) (name : String) (ins outs : List Target)
      (inputs : api.State) (resolution : Resolution) (rate : ℕ)
      → IsInputsApi api
      → AreInputs (flags_parser level retry).options ins
      → AreOutputs (flags_parser level retry).options outs
      → is_empty outs ≡ false
      → All (λ r. get_fallback_priority r < 2 ^ 63) (map as_resource ins)
      → flags_api.mux_mode_from_string "forbid" ≡ forbid
      → main.new_inputs (record { input_retry_interval = retry }) ≡ some inputs
      → api.input_chains inputs ≡ []
      → resolution_of main zero_resolution
          (main.deduplicate (main.low_latency_options "copy" ++ []))
        ≡ ok resolution
      → sample_rate_of main 0 (main.deduplicate []) ≡ ok rate
      → (flags : Flags flags_api Level) × (s : FfStream api.State mux.Mux) × (cfg : TranscoderConfig
          mux.Device)
        × (parse_flags flags_api readers level retry
              (name ∷ command_line "-i" (map as_group ins) (output_args outs))
            ≡ ok flags)
        × (prepare main flags ≡ ok (s, cfg))
        × IsValid api s
        × ((q : ℕ) → info_at s.inputs_info q ≡ of_priority q (map as_resource ins))
        × (s.output_templates ≡ map (output_template (ℤ.pos 0)) (map as_resource outs))
        × (s.stream_mux ≡ none)
        × IsAudioComplete cfg.audio_track_configs
        × IsVideoComplete cfg.video_track_configs
  unfolding prepare listened encoder_video_options convert_unknown_options of_priority info_at
  prepare-parse_flags readers level retry name ins outs inputs resolution rate lawful i o n fits m
        made fresh scanned scanned_rate =
      let flags =
        default_flags flags_api level retry (map as_resource ins) (map as_resource outs) in
      let s0 = first_stream api {Mux = mux.Mux} retry inputs in
      let (t, added, valid, infos) =
        add_inputs_lem api lawful s0 (map as_resource ins) (first-IsValid api retry inputs fresh)
          fits in
      let (templates, unused) = add_inputs_rest api s0 t (map as_resource ins) added in
      let e = add_templates_lem flags t (map as_resource outs) in
      (
        flags,
        add_templates main flags t (map as_resource outs),
        transcoder_config main flags resolution rate,
        parse_flags_lem flags_api level retry readers name ins outs i o n m,
        prepare_ok flags s0 t resolution rate (new_stream_ok flags inputs made) refl added scanned
            scanned_rate,
        rw e (record { same_length = valid.same_length; priorities = valid.priorities }),
        rw e infos,
        rw e (ap (λ ts. ts ++ map (output_template (ℤ.pos 0)) (map as_resource outs)) templates),
        rw e unused,
        inl refl,
        inl refl,
      )
