-- ===== src/Stream/Start/Success.antt =====
-- ffstream.go: `Start` on a multiplexer whose calls succeed.
use ffstream.Base.{◌<◌, ◌≡◌, refl, ◌∙◌, true, Option, none, some, length, arith}
use ffstream.Transcoder.{TranscoderConfig}
use ffstream.Stream.{InputsApi, FfStream}
use ffstream.Stream.Outputs.{
  MuxApi, with_mux, after_call, switch_output_by_props, check_audio, check_video,
}
use ffstream.Stream.Outputs.Laws.{
  IsAudioComplete, IsVideoComplete, check_audio_iff, check_video_iff,
}
use ffstream.Stream.Start.{PushApi, connect_inputs, configure, set_up, start}
use ffstream.Stream.Start.Waiting.{wait_started, start_and_wait}

module _ (mux : MuxApi) where
  -- The multiplexers between the calls of `Start`, none of which fails.
  pub record IsWilling (mode : mux.Mode) (auto : Option mux.AutoBitRate)
      (props : TranscoderConfig mux.Device) : Type 0 where
    pub made : mux.Mux
    pub configured : mux.Mux
    pub switched : mux.Mux
    pub started : mux.Mux
    pub makes : mux.new_with_custom_data mode ≡ some made
    pub configures : mux.set_auto_bit_rate_video_config made auto ≡ (configured, true)
    pub switches : mux.switch_to_output_by_props configured props ≡ (switched, true)
    pub starts : mux.wait_for_start switched ≡ (started, true)

  switch_output_by_props_ok :
      {Inputs : Type 0} (s : FfStream Inputs mux.Mux) (m n : mux.Mux)
      (props : TranscoderConfig mux.Device)
      → s.stream_mux ≡ some m
      → check_audio props.audio_track_configs ≡ none
      → check_video props.video_track_configs ≡ none
      → mux.switch_to_output_by_props m props ≡ (n, true)
      → switch_output_by_props mux s props ≡ (with_mux mux s n, none)
  unfolding switch_output_by_props after_call
  switch_output_by_props_ok s m n props e audio video done = ground (arith, e, audio, video, done)

module _ (api : InputsApi) (mux : MuxApi) (push : PushApi api mux) where
  start_ok :
      (s : FfStream api.State mux.Mux) (mode : mux.Mode) (auto : Option mux.AutoBitRate)
      (props : TranscoderConfig mux.Device)
      → s.stream_mux ≡ none
      → 0 < api.get_input_chains_count s.inputs
      → length s.output_templates ≡ 1
      → start api mux push s mode auto props
        ≡ set_up api mux push s (mux.new_with_custom_data mode) auto props
  unfolding start
  start_ok s mode auto props unused some_input one = ground (arith, unused)

  -- A first start with some input, one template and complete first tracks succeeds if every call of
  -- the multiplexer does.
  pub start_and_wait_ok :
      (s : FfStream api.State mux.Mux) (mode : mux.Mode) (auto : Option mux.AutoBitRate)
      (props : TranscoderConfig mux.Device)
      → s.stream_mux ≡ none
      → 0 < api.get_input_chains_count s.inputs
      → length s.output_templates ≡ 1
      → IsAudioComplete props.audio_track_configs
      → IsVideoComplete props.video_track_configs
      → (calls : IsWilling mux mode auto props)
      → (t : FfStream api.State mux.Mux) × (start_and_wait api mux push s mode auto props
          ≡ (t, none))
        × (t.stream_mux ≡ some calls.started)
  unfolding start_and_wait set_up configure connect_inputs wait_started after_call
  start_and_wait_ok s mode auto props unused some_input one audio video calls =
      let connected =
        connect_inputs api mux push (with_mux mux s calls.configured) calls.configured in
      let e : start api mux push s mode auto props ≡ (with_mux mux connected calls.switched, none) =
        start_ok s mode auto props unused some_input one
        ∙ rw (calls.makes, calls.configures)
            (switch_output_by_props_ok mux connected calls.configured calls.switched props refl
              ((check_audio_iff props.audio_track_configs).1 audio)
              ((check_video_iff props.video_track_configs).1 video) calls.switches) in
      (with_mux mux connected calls.started, rw (e, calls.starts) refl, refl)
