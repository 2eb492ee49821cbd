-- ===== src/Stream/Outputs/Laws.antt =====
-- ffstream.go: what is accepted for the outputs, and what is read back.
use ffstream.Base.{
  ℕ, ◌%◌, ◌^◌, ◌<◌, ◌≡◌, ◌≢◌, ◌↔◌, refl, true, none, some, List, [], ◌∷◌, eq_iff, arith, pos,
  Option-cases, inl, inr, ◌⊎◌,
}
use ffstream.Transcoder.{VideoTrackConfig, AudioTrackConfig, TranscoderConfig}
use ffstream.Stream.{FfStream}
use ffstream.Stream.Outputs.{
  MuxApi, IsMuxApi, name_copy, check_audio, check_video, u32_of_int, after_call,
  switch_output_by_props, get_fps_fraction, set_fps_fraction,
}

-- The conditions on an integer fraction.
abbrev pub IsIntegerFraction : ℕ → ℕ → Type 0
IsIntegerFraction num den = (den ≢ 0) × (num % den ≡ 0)

u32_of_int-pos : (n : ℕ) → n < 2 ^ 32 → u32_of_int (pos n) ≡ n
unfolding u32_of_int
u32_of_int-pos n h = omega arith

abbrev pub IsAudioComplete : List AudioTrackConfig → Type 0
IsAudioComplete [] = Unit {0}
IsAudioComplete (cfg ∷ cfgs) = (cfg.codec_name ≡ name_copy) ⊎ (cfg.sample_rate ≢ 0)

abbrev pub IsVideoComplete : {Device : Type 0} → List (VideoTrackConfig Device) → Type 0
IsVideoComplete [] = Unit {0}
IsVideoComplete (cfg ∷ cfgs) =
    (cfg.codec_name ≡ name_copy) ⊎ (cfg.resolution.width ≢ 0) ⊎ (cfg.resolution.height ≢ 0)

pub check_audio_iff :
    (cfgs : List AudioTrackConfig) → (check_audio cfgs ≡ none) ↔ IsAudioComplete cfgs
unfolding check_audio
check_audio_iff [] = (λ h. tt, λ h. refl)
check_audio_iff (cfg ∷ cfgs) = ground (arith, eq_iff cfg.codec_name name_copy)

pub check_video_iff :
    {Device : Type 0} (cfgs : List (VideoTrackConfig Device))
    → (check_video cfgs ≡ none) ↔ IsVideoComplete cfgs
unfolding check_video
check_video_iff [] = (λ h. tt, λ h. refl)
check_video_iff (cfg ∷ cfgs) = ground (arith, eq_iff cfg.codec_name name_copy)

module _ (mux : MuxApi) {Inputs : Type 0} (s : FfStream Inputs mux.Mux) where
  -- The frame-rate fraction is accepted exactly when the stream was started, the denominator is not
  -- 0 and it divides the numerator; otherwise the stream is left as it was.
  pub set_fps_fraction_iff :
      (num den : ℕ)
      → (((set_fps_fraction mux s num den).1 ≡ none)
          ↔ ((s.stream_mux ≢ none) × IsIntegerFraction num den))
        × (((set_fps_fraction mux s num den).1 ≡ none) ⊎ ((set_fps_fraction mux s num den).0 ≡ s))
  unfolding set_fps_fraction
  set_fps_fraction_iff num den = elim (Option-cases s.stream_mux) [
    | inl e ↦ ground (arith, e)
    | inr (m, e) ↦ ground (arith, e)
  ]

  -- Where it was accepted, the same two numbers are read back.
  pub get-set_fps_fraction :
      IsMuxApi mux
      → (num den : ℕ) → num < 2 ^ 32
      → den < 2 ^ 32
      → (set_fps_fraction mux s num den).1 ≡ none
      → get_fps_fraction mux (set_fps_fraction mux s num den).0 ≡ (num, den, none)
  unfolding set_fps_fraction get_fps_fraction
  get-set_fps_fraction lawful num den hn hd h = elim (Option-cases s.stream_mux) [
    | inl e ↦ absurd (ground (arith, e))
    | inr (m, e) ↦ ground (
      arith,
      e,
      lawful.get-set_fps_fraction m (pos num) (pos den),
      u32_of_int-pos num hn,
      u32_of_int-pos den hd,
    )
  ]

  -- On a started stream a switch of the output succeeds exactly when the first audio track has a
  -- sample rate and the first video track a resolution, unless they copy their codec, and the
  -- multiplexer makes the switch.
  pub switch_output_by_props_iff :
      (m : mux.Mux) (props : TranscoderConfig mux.Device)
      → s.stream_mux ≡ some m
      → ((switch_output_by_props mux s props).1 ≡ none) ↔ (
          IsAudioComplete props.audio_track_configs
          × IsVideoComplete props.video_track_configs
          × ((mux.switch_to_output_by_props m props).1 ≡ true))
  unfolding switch_output_by_props after_call
  switch_output_by_props_iff m props e =
      ground (
        arith,
        check_audio_iff props.audio_track_configs,
        check_video_iff props.video_track_configs,
      )
