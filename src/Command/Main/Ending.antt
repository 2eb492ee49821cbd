-- ===== src/Command/Main/Ending.antt =====
-- main.go: the whole program, from the flags to its end.
use ffstream.Base.{
  ◌≡◌, ◌≢◌, refl, sym, ◌∙◌, ap, subst, none, some, Option, [], map, length, length-map, ok, err,
  panic, Result, ◌>>=◌, arith, ◌++◌, Option-cases, inl, inr, ok-injective, >>=-eq-ok,
}
use mathlib.Core.Option
use ffstream.Transcoder.{TranscoderConfig}
use ffstream.Command.Options.{convert_unknown_options}
use ffstream.Command.Templates.{output_template}
use ffstream.Command.Settings.{FlagsApi, Flags}
use ffstream.Command.Main.{
  MainApi, MainError, stream_error, new_stream, listened, add_templates, resolution_of,
  sample_rate_of, encoder_video_options, transcoder_config, zero_resolution, prepare, lift_error,
}
use ffstream.Command.Main.Preparation.{first_stream, add_templates_lem}
use ffstream.Stream.{InputsApi, FfStream, StreamError}
use ffstream.Stream.Configuration.{Config, options_config}
use ffstream.Stream.Inputs.{add_inputs}
use ffstream.Stream.Inputs.Rest.{add_inputs_rest}
use ffstream.Stream.Outputs.{MuxApi}
use ffstream.Stream.Start.{PushApi}
use ffstream.Stream.Start.Waiting.{StopApi, start_and_wait, start_and_wait_guards, wait}

-- What `assertNoError` lets through.
abbrev pub assert_none : {S : Type 0} → S × Option StreamError → Result MainError S
assert_none (s, none) = ok s
assert_none (s, some e) = err (stream_error e)

assert_none_ok :
    {S : Type 0} (r : S × Option StreamError) (s : S) → assert_none r ≡ ok s → r.1 ≡ none
assert_none_ok (s, none) t h = refl
assert_none_ok (s, some e) t h = absurd (cc)

lift_error_ok : {A : Type 0} (r : Result StreamError A) (a : A) → lift_error r ≡ ok a → r ≡ ok a
lift_error_ok (ok b) a h = ap ok (ok-injective b a h)
lift_error_ok (err e) a h = absurd (cc)
lift_error_ok panic a h = absurd (cc)

no_inputs_added :
    (api : InputsApi) {Mux : Type 0} (s t : FfStream api.State Mux)
    → add_inputs api s [] ≡ ok t
    → t ≡ s
unfolding add_inputs
no_inputs_added api s t h = sym (ok-injective s t h)

module _ {flags_api : FlagsApi} {api : InputsApi} {mux : MuxApi} (main : MainApi flags_api api mux)
    {Level : Type 0} where
  new_stream_parts :
      (flags : Flags flags_api Level) (s : FfStream api.State mux.Mux)
      → new_stream main flags ≡ ok s
      → (inputs : api.State) × (main.new_inputs
            (record { input_retry_interval = flags.retry_input_timeout_on_failure })
          ≡ some inputs)
        × (s ≡ first_stream api flags.retry_input_timeout_on_failure inputs)
  unfolding new_stream options_config
  new_stream_parts flags s h =
      let cfg : Config = record { input_retry_interval = flags.retry_input_timeout_on_failure } in
      elim (Option-cases (main.new_inputs cfg)) [
        | inl e ↦ absurd (let h' = rw (e, new_stream) at h in cc)
        | inr (inputs, e) ↦
            let first =
              first_stream api {Mux = mux.Mux} flags.retry_input_timeout_on_failure inputs in
            let h' = rw (e, new_stream) at h in (inputs, e, sym (ok-injective first s h'))
      ]

  -- What ran without an error before each step.
  prepare_parts :
      (flags : Flags flags_api Level) (s : FfStream api.State mux.Mux)
      (cfg : TranscoderConfig mux.Device)
      → prepare main flags ≡ ok (s, cfg)
      → (s0 : FfStream api.State mux.Mux) × (t : FfStream api.State mux.Mux) × (new_stream main
            flags
          ≡ ok s0)
        × (add_inputs api s0 flags.inputs ≡ ok t)
        × (s ≡ add_templates main flags t flags.outputs)
  unfolding prepare
  prepare_parts flags s cfg h =
      let (s0, made, h1) = >>=-eq-ok (new_stream main flags) _ (s, cfg) h in
      let (there, _, h2) = >>=-eq-ok (listened main flags) _ (s, cfg) h1 in
      let (t, added, h3) = >>=-eq-ok (lift_error (add_inputs api s0 flags.inputs)) _ (s, cfg) h2 in
      let (resolution, _, h4) =
        >>=-eq-ok (resolution_of main zero_resolution (encoder_video_options main flags)) _ (s, cfg)
          h3 in
      let (rate, _, h5) =
        >>=-eq-ok
          (sample_rate_of main 0
            (main.deduplicate (convert_unknown_options flags.audio_encoder.options)))
          _ (s, cfg) h4 in
      let result =
        ok-injective
          (add_templates main flags t flags.outputs, transcoder_config main flags resolution rate)
          (s, cfg) h5 in
      (
        s0,
        t,
        made,
        lift_error_ok (add_inputs api s0 flags.inputs) t added,
        sym (ap (λ p. p.0) result),
      )

module _ {flags_api : FlagsApi} {api : InputsApi} {mux : MuxApi} (main : MainApi flags_api api mux)
    (push : PushApi api mux) (stop : StopApi mux) {Level : Type 0} where
  -- `main`: the stream as it ends, unless an error ends the program before.
  unfoldable pub run_to_end : Flags flags_api Level → Result MainError (FfStream api.State mux.Mux)
  unfolding prepare start_and_wait wait
  run_to_end flags = do
    prepared ← prepare main flags
    s ← assert_none (
        start_and_wait api mux push prepared.0 (main.mode_of flags.mux_mode)
          (Option.map main.config_of flags.auto_bit_rate) prepared.1)
    elim (wait mux stop s) [ ok done ↦ ok s | err e ↦ err MainError.not_finished | panic ↦ panic ]

  -- The program ends well only if its flags name exactly one output and some input, provided that the
  -- library's inputs begin with no chain.
  pub run_to_end_ok :
      (flags : Flags flags_api Level) (t : FfStream api.State mux.Mux)
      → ((inputs : api.State)
          → main.new_inputs (record { input_retry_interval = flags.retry_input_timeout_on_failure })
            ≡ some inputs
          → api.get_input_chains_count inputs ≡ 0)
      → run_to_end flags ≡ ok t
      → (length flags.outputs ≡ 1) × (flags.inputs ≢ [])
  unfolding run_to_end
  run_to_end_ok flags t fresh h =
      let ((s, cfg), prepared, h1) = >>=-eq-ok (prepare main flags) _ t h in
      let started =
        start_and_wait api mux push s (main.mode_of flags.mux_mode)
          (Option.map main.config_of flags.auto_bit_rate) cfg in
      let (u, ended, _) = >>=-eq-ok (assert_none started) _ t h1 in
      let (unused, some_input, one) =
        start_and_wait_guards api mux push s (main.mode_of flags.mux_mode)
          (Option.map main.config_of flags.auto_bit_rate) cfg (assert_none_ok started u ended) in
      let (s0, s1, made, added, e) = prepare_parts main flags s cfg prepared in
      let (inputs, new, e0) = new_stream_parts main flags s0 made in
      let e' = e ∙ add_templates_lem main flags s1 flags.outputs in
      let added' = subst (λ x. add_inputs api x flags.inputs ≡ ok s1) e0 added in
      let first = first_stream api {Mux = mux.Mux} flags.retry_input_timeout_on_failure inputs in
      let (none_yet, _) = add_inputs_rest api first s1 flags.inputs added' in
      let template = output_template flags.retry_output_timeout_on_failure in
      let templates : s.output_templates ≡ map template flags.outputs =
        ap (λ x. x.output_templates) e' ∙ ap (λ ts. ts ++ map template flags.outputs) none_yet in
      (
        sym (length-map template flags.outputs) ∙ sym (ap length templates) ∙ one,
        λ nothing.
            let same =
              no_inputs_added api first s1
                (subst (λ rs. add_inputs api first rs ≡ ok s1) nothing added') in
            let inputs_same : s.inputs ≡ inputs = ap (λ x. x.inputs) e' ∙ ap (λ x. x.inputs) same in
            let zero_count = fresh inputs new in
            let counted = ap api.get_input_chains_count inputs_same in omega arith,
      )
