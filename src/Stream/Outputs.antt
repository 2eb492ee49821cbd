-- ===== src/Stream/Outputs.antt =====
-- ffstream.go: `SwitchOutputByProps` and the frame-rate fraction, over the library's
-- multiplexer.
pub mod Laws
use ffstream.Base.{
  ℕ, zero, suc, ◌-◌, ◌%◌, ◌^◌, ◌≡◌, Bool, true, false, not, ◌&&◌, ◌||◌, Option, none, some, List,
  [], ◌∷◌, String, str_eq, length, ◌==◌, if◌then◌else◌, ℤ, pos, negsuc, u32, u64,
}
use ffstream.Transcoder.{Resolution, VideoTrackConfig, AudioTrackConfig, TranscoderConfig}
use ffstream.Stream.{
  InputsApi, FfStream, StreamError, not_started, already_used, no_inputs,
  one_output_template_required, sample_rate_required, resolution_required, den_is_zero,
  not_integer_fraction, mux_failed,
}

-- `streammux.StreamMux`. A call that may fail gives the multiplexer after it, and whether it did.
pub record MuxApi : Type 1 where
  pub Mux : Type 0
  pub Mode : Type 0
  pub AutoBitRate : Type 0
  pub Device : Type 0
  pub new_with_custom_data : Mode → Option Mux
  pub set_auto_bit_rate_video_config : Mux → Option AutoBitRate → Mux × Bool
  pub switch_to_output_by_props : Mux → TranscoderConfig Device → Mux × Bool
  pub wait_for_start : Mux → Mux × Bool
  pub get_fps_fraction : Mux → ℤ × ℤ
  pub set_fps_fraction : Mux → ℤ → ℤ → Mux

-- What is relied on: the fraction that was set is the one that is read.
pub record IsMuxApi (mux : MuxApi) : Type 0 where
  pub get-set_fps_fraction :
      (m : mux.Mux) (num den : ℤ)
      → mux.get_fps_fraction (mux.set_fps_fraction m num den) ≡ (num, den)

-- `codec.NameCopy`
abbrev pub name_copy : String
name_copy = "copy"

-- The checks of `SwitchOutputByProps` on the first audio and the first video track.
unfoldable pub check_audio : List AudioTrackConfig → Option StreamError
check_audio [] = none
check_audio (cfg ∷ cfgs) =
    if not (str_eq cfg.codec_name name_copy) && cfg.sample_rate == 0
    then some (sample_rate_required cfg.codec_name)
    else none

unfoldable pub check_video : {Device : Type 0} → List (VideoTrackConfig Device) → Option StreamError
check_video [] = none
check_video (cfg ∷ cfgs) =
    if not (str_eq cfg.codec_name name_copy)
      && cfg.resolution.width == 0
      && cfg.resolution.height == 0
    then some (resolution_required cfg.codec_name)
    else none

-- `uint32(z)` of an `int`
unfoldable pub u32_of_int : ℤ → ℕ
unfolding u32 u64
u32_of_int z = u32 (u64 z)

abbrev pub failed_unless : Bool → Option StreamError
failed_unless true = none
failed_unless false = some mux_failed

module _ (mux : MuxApi) {Inputs : Type 0} where
  abbrev pub with_mux : FfStream Inputs mux.Mux → mux.Mux → FfStream Inputs mux.Mux
  with_mux s m = record s { stream_mux = some m }

  -- What a call of the multiplexer leaves behind.
  unfoldable pub after_call :
      FfStream Inputs mux.Mux → mux.Mux × Bool → FfStream Inputs mux.Mux × Option StreamError
  after_call s (m, done) = (with_mux s m, failed_unless done)

  unfoldable pub switch_output_by_props :
      FfStream Inputs mux.Mux
      → TranscoderConfig mux.Device
      → FfStream Inputs mux.Mux × Option StreamError
  switch_output_by_props s props = elim s.stream_mux [
    | none ↦ (s, some not_started)
    | some m ↦ elim (check_audio props.audio_track_configs) [
      | some e ↦ (s, some e)
      | none ↦ elim (check_video props.video_track_configs) [
        | some e ↦ (s, some e)
        | none ↦ after_call s (mux.switch_to_output_by_props m props)
      ]
    ]
  ]

  unfoldable pub get_fps_fraction : FfStream Inputs mux.Mux → ℕ × ℕ × Option StreamError
  unfolding u32_of_int
  get_fps_fraction s = elim s.stream_mux [
    | none ↦ (0, 1, some not_started)
    | some m ↦ let (num, den) = mux.get_fps_fraction m in (u32_of_int num, u32_of_int den, none)
  ]

  -- The two tests of `SetFPSFraction`, and what is done if both pass.
  unfoldable pub set_fraction :
      FfStream Inputs mux.Mux → mux.Mux → ℕ → ℕ → FfStream Inputs mux.Mux × Option StreamError
  set_fraction s m num den =
      if den == 0
      then (s, some den_is_zero)
      else if num % den == 0
      then (with_mux s (mux.set_fps_fraction m (pos num) (pos den)), none)
      else (s, some (not_integer_fraction num den))

  unfoldable pub set_fps_fraction :
      FfStream Inputs mux.Mux → ℕ → ℕ → FfStream Inputs mux.Mux × Option StreamError
  unfolding set_fraction
  set_fps_fraction s num den = elim s.stream_mux [
    | none ↦ (s, some not_started)
    | some m ↦ set_fraction s m num den
  ]
