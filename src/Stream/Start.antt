-- ===== src/Stream/Start.antt =====
-- ffstream.go: `Start` up to the first switch of the output: its guards and the set-up of the
-- multiplexer. What comes behind changes none of the stream's own fields: further outputs are created
-- for the auto-bitrate, the inputs served in the background and the multiplexer waited for.
pub mod MoreOutputs
pub mod Waiting
pub mod Schedules
pub mod WaitGroup
pub mod Requests
pub mod Watching
pub mod Success
use ffstream.Base.{
  ◌<◌, ◌≡◌, refl, sym, subst, Bool, true, false, Option, none, some, length, ◌==◌, if◌then◌else◌,
  arith,
}
use ffstream.Transcoder.{TranscoderConfig}
use ffstream.Stream.{
  InputsApi, FfStream, StreamError, already_used, no_inputs, one_output_template_required,
  mux_failed,
}
use ffstream.Stream.Outputs.{MuxApi, with_mux, after_call, switch_output_by_props}
use ffstream.Stream.Outputs.Laws.{IsAudioComplete, IsVideoComplete, switch_output_by_props_iff}

-- `AddPushPacketsTo` and `AddPushFramesTo` of the inputs.
pub record PushApi (api : InputsApi) (mux : MuxApi) : Type 0 where
  pub add_push_packets_to : api.State → mux.Mux → api.State
  pub add_push_frames_to : api.State → mux.Mux → api.State

module _ (api : InputsApi) (mux : MuxApi) (push : PushApi api mux) where
  unfoldable pub connect_inputs : FfStream api.State mux.Mux → mux.Mux → FfStream api.State mux.Mux
  connect_inputs s m = record s {
    inputs = push.add_push_frames_to (push.add_push_packets_to s.inputs m) m;
  }

  -- From `SetAutoBitRateVideoConfig` on, with what that call gives.
  unfoldable pub configure :
      FfStream api.State mux.Mux
      → mux.Mux × Bool
      → TranscoderConfig mux.Device
      → FfStream api.State mux.Mux × Option StreamError
  unfolding connect_inputs
  configure s (m, true) props =
      switch_output_by_props mux (connect_inputs (with_mux mux s m) m) props
  configure s (m, false) props = (with_mux mux s m, some mux_failed)

  -- The library's `NewWithCustomData` gives no multiplexer where it fails.
  unfoldable pub set_up :
      FfStream api.State mux.Mux
      → Option mux.Mux
      → Option mux.AutoBitRate
      → TranscoderConfig mux.Device
      → FfStream api.State mux.Mux × Option StreamError
  unfolding configure
  set_up s none auto props = (s, some mux_failed)
  set_up s (some m) auto props = configure s (mux.set_auto_bit_rate_video_config m auto) props

  unfoldable pub start :
      FfStream api.State mux.Mux
      → mux.Mode
      → Option mux.AutoBitRate
      → TranscoderConfig mux.Device
      → FfStream api.State mux.Mux × Option StreamError
  unfolding set_up
  start s mode auto props = elim s.stream_mux [
    | some m ↦ (s, some already_used)
    | none ↦
        if api.get_input_chains_count s.inputs == 0
        then (s, some no_inputs)
        else if length s.output_templates == 1
        then set_up s (mux.new_with_custom_data mode) auto props
        else (s, some (one_output_template_required (length s.output_templates)))
  ]

  -- What a set-up without an error has checked and left.
  pub record IsConfigured (props : TranscoderConfig mux.Device) (t : FfStream api.State mux.Mux)
      : Type 0 where
    pub audio : IsAudioComplete props.audio_track_configs
    pub video : IsVideoComplete props.video_track_configs
    pub used : (m : mux.Mux) × (t.stream_mux ≡ some m)

  start-used :
      (t : FfStream api.State mux.Mux) (m : mux.Mux) (mode : mux.Mode)
      (auto : Option mux.AutoBitRate) (props : TranscoderConfig mux.Device)
      → t.stream_mux ≡ some m
      → start t mode auto props ≡ (t, some already_used)
  unfolding start
  start-used t m mode auto props e = rw e refl

  switched :
      (s : FfStream api.State mux.Mux) (m : mux.Mux) (props : TranscoderConfig mux.Device)
      → s.stream_mux ≡ some m
      → (switch_output_by_props mux s props).1 ≡ none
      → (n : mux.Mux) × ((switch_output_by_props mux s props).0.stream_mux ≡ some n)
  unfolding switch_output_by_props after_call
  switched s m props e h = ((mux.switch_to_output_by_props m props).0, ground (arith, e))

  configure_ok :
      (s : FfStream api.State mux.Mux) (m : mux.Mux) (done : Bool)
      (props : TranscoderConfig mux.Device)
      → (configure s (m, done) props).1 ≡ none
      → IsConfigured props (configure s (m, done) props).0
  unfolding configure connect_inputs
  configure_ok s m false props h = absurd (cc)
  configure_ok s m true props h =
      let connected = connect_inputs (with_mux mux s m) m in
      let (audio, video, _) = (switch_output_by_props_iff mux connected m props refl).0 h in
      record { audio = audio; video = video; used = switched connected m props refl h }

  set_up_ok :
      (s : FfStream api.State mux.Mux) (made : Option mux.Mux) (auto : Option mux.AutoBitRate)
      (props : TranscoderConfig mux.Device)
      → (set_up s made auto props).1 ≡ none
      → IsConfigured props (set_up s made auto props).0
  unfolding set_up
  set_up_ok s none auto props h = absurd (cc)
  set_up_ok s (some m) auto props h =
      let called = mux.set_auto_bit_rate_video_config m auto in
      configure_ok s called.0 called.1 props h

  -- The guards of a start without an error, and that it is the set-up then.
  pub start_guards :
      (s : FfStream api.State mux.Mux) (mode : mux.Mode) (auto : Option mux.AutoBitRate)
      (props : TranscoderConfig mux.Device)
      → (start s mode auto props).1 ≡ none
      → (s.stream_mux ≡ none)
        × (0 < api.get_input_chains_count s.inputs)
        × (length s.output_templates ≡ 1)
        × (start s mode auto props ≡ set_up s (mux.new_with_custom_data mode) auto props)
  unfolding start
  start_guards s mode auto props h = ground arith

  -- A start that succeeds so far was the first one, on a stream with some input and exactly one
  -- output template, with a sample rate for the first audio track and a resolution for the first
  -- video track, unless they copy their codec. Every start after it is refused and changes nothing.
  pub start-start :
      (s : FfStream api.State mux.Mux) (mode : mux.Mode) (auto : Option mux.AutoBitRate)
      (props : TranscoderConfig mux.Device) (mode' : mux.Mode) (auto' : Option mux.AutoBitRate)
      (props' : TranscoderConfig mux.Device)
      → (start s mode auto props).1 ≡ none
      → let t = (start s mode auto props).0 in
        (s.stream_mux ≡ none)
        × (0 < api.get_input_chains_count s.inputs)
        × (length s.output_templates ≡ 1)
        × IsConfigured props t
        × (start t mode' auto' props' ≡ (t, some already_used))
  start-start s mode auto props mode' auto' props' h =
      let (unused, some_input, one, e) = start_guards s mode auto props h in
      let c : IsConfigured props (start s mode auto props).0 =
        subst (λ r. IsConfigured props r.0) (sym e)
          (set_up_ok s (mux.new_with_custom_data mode) auto props (subst (λ r. r.1 ≡ none) e h)) in
      (
        unused,
        some_input,
        one,
        c,
        start-used (start s mode auto props).0 c.used.0 mode' auto' props' c.used.1,
      )
