-- ===== src/Command/Main/Success.antt =====
-- main.go: a run of the program that ends well.
use ffstream.Base.{
  ℕ, ◌<◌, ◌^◌, ◌≡◌, refl, ◌∙◌, ap, String, none, some, Option, List, [], ◌∷◌, ◌++◌, map, length, ℤ,
  All, ok, arith,
}
use mathlib.Core.Option
use ffstream.Flag.Value.{Readers}
use ffstream.Flag.Parser.CommandLine.{command_line}
use ffstream.Resource.{Resource, get_fallback_priority}
use ffstream.Resource.Groups.{of_priority}
use ffstream.Transcoder.{Resolution, TranscoderConfig}
use ffstream.Command.Flags.{flags_parser}
use ffstream.Command.Resources.{is_empty}
use ffstream.Command.Resources.RoundTrip.{
  Target, as_resource, as_group, output_args, AreInputs, AreOutputs,
}
use ffstream.Command.Settings.{FlagsApi, Flags}
use ffstream.Command.ParseFlags.{parse_flags}
use ffstream.Command.Main.{MainApi, resolution_of, sample_rate_of, zero_resolution, prepare}
use ffstream.Command.Main.Preparation.{prepare-parse_flags}
use ffstream.Command.Main.Ending.{run_to_end}
use ffstream.Sender.Output.{forbid}
use ffstream.Stream.{InputsApi, IsInputsApi, FfStream}
use ffstream.Stream.Inputs.Laws.{info_at}
use ffstream.Stream.Outputs.{MuxApi}
use ffstream.Stream.Outputs.Laws.{IsAudioComplete, IsVideoComplete}
use ffstream.Stream.Start.{PushApi}
use ffstream.Stream.Start.Waiting.{StopApi, wait}
use ffstream.Stream.Start.Success.{IsWilling, start_and_wait_ok}

-- A stream that has a resource has a priority.
info_at-some :
    (infos : List (List Resource)) (r : Resource) (rs : List Resource)
    → info_at infos (get_fallback_priority r) ≡ of_priority (get_fallback_priority r) (r ∷ rs)
    → 0 < length infos
unfolding info_at of_priority
info_at-some [] r rs h = ground arith
info_at-some (_ ∷ infos) r rs h = omega arith

module _ {flags_api : FlagsApi} {api : InputsApi} {mux : MuxApi} (main : MainApi flags_api api mux)
    (push : PushApi api mux) (stop : StopApi mux) {Level : Type 0} where
  run_to_end-prepare :
      (flags : Flags flags_api Level) (s : FfStream api.State mux.Mux)
      (cfg : TranscoderConfig mux.Device)
      → prepare main flags ≡ ok (s, cfg)
      → s.stream_mux ≡ none
      → 0 < api.get_input_chains_count s.inputs
      → length s.output_templates ≡ 1
      → IsAudioComplete cfg.audio_track_configs
      → IsVideoComplete cfg.video_track_configs
      → IsWilling mux
          (main.mode_of flags.mux_mode)
          (Option.map main.config_of flags.auto_bit_rate)
          cfg
      → ((m : mux.Mux) → stop.wait_for_stop (some m) ≡ ok tt)
      → (t : FfStream api.State mux.Mux) × (run_to_end main push stop flags ≡ ok t)
  unfolding run_to_end wait
  run_to_end-prepare flags s cfg prepared unused some_input one audio video calls stops =
      let (t, e, m) =
        start_and_wait_ok api mux push s (main.mode_of flags.mux_mode)
          (Option.map main.config_of flags.auto_bit_rate) cfg unused some_input one audio video
          calls in
      let w : wait mux stop t ≡ ok tt = ap stop.wait_for_stop m ∙ stops calls.started in
      (t, ground (arith, prepared, e, w))

  -- A command line that gives some input and exactly one output leads to a run that ends well, if every
  -- call of the multiplexer succeeds. The conditions on the command line and on the library are those
  -- under which it leads to the call of `Start`, and the library counts its chains.
  pub run_to_end-parse_flags :
      (readers : Readers Level) (level : Level) (retry : ℤ) (name : String) (first : Target)
      (ins : List Target) (out : Target) (inputs : api.State) (resolution : Resolution) (rate : ℕ)
      → IsInputsApi api
      → ((state : api.State) → api.get_input_chains_count state ≡ length (api.input_chains state))
      → AreInputs (flags_parser level retry).options (first ∷ ins)
      → AreOutputs (flags_parser level retry).options (out ∷ [])
      → All (λ r. get_fallback_priority r < 2 ^ 63) (map as_resource (first ∷ ins))
      → flags_api.mux_mode_from_string "forbid" ≡ forbid
      → main.new_inputs (record { input_retry_interval = retry }) ≡ some inputs
      → api.input_chains inputs ≡ []
      → resolution_of main zero_resolution
          (main.deduplicate (main.low_latency_options "copy" ++ []))
        ≡ ok resolution
      → sample_rate_of main 0 (main.deduplicate []) ≡ ok rate
      → ((mode : mux.Mode) (auto : Option mux.AutoBitRate) (cfg : TranscoderConfig mux.Device)
          → IsWilling mux mode auto cfg)
      → ((m : mux.Mux) → stop.wait_for_stop (some m) ≡ ok tt)
      → (flags : Flags flags_api Level) × (t : FfStream api.State mux.Mux) × (parse_flags flags_api
            readers level retry
            (name ∷ command_line "-i" (map as_group (first ∷ ins)) (output_args (out ∷ [])))
          ≡ ok flags)
        × (run_to_end main push stop flags ≡ ok t)
  unfolding is_empty
  run_to_end-parse_flags readers level retry name first ins out inputs resolution rate lawful counts
        i o fits mode made fresh scanned scanned_rate willing stops =
      let (flags, s, cfg, parsed, prepared, valid, infos, templates, unused, audio, video) =
        prepare-parse_flags main readers level retry name (first ∷ ins) (out ∷ []) inputs resolution
          rate lawful i o refl fits mode made fresh scanned scanned_rate in
      let r = as_resource first in
      let some_info =
        info_at-some s.inputs_info r (map as_resource ins) (infos (get_fallback_priority r)) in
      let chains = valid.same_length in
      let count = counts s.inputs in
      let (t, ended) =
        run_to_end-prepare flags s cfg prepared unused (omega arith) (ap length templates) audio
          video
          (willing (main.mode_of flags.mux_mode) (Option.map main.config_of flags.auto_bit_rate)
            cfg)
          stops in
      (flags, t, parsed, ended)
