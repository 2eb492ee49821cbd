-- ===== src/Convert/Config/RoundTrip.antt =====
-- recoder_config.go: which configurations survive the way through a message.
use ffstream.Base.{
  ℕ, ◌^◌, ◌<◌, ◌≡◌, refl, ap, some, List, [], ◌∷◌, u32, IsInt64, i64-u64, u64-i64, arith,
}
use ffstream.Resource.{DictionaryItem}
use ffstream.Transcoder.{VideoTrackConfig, AudioTrackConfig, TranscoderConfig}
use ffstream.Convert.Config.{
  CustomOption, custom_options_from_grpc, custom_options_to_grpc, VideoCodecConfig,
  AudioCodecConfig, ConfigGrpc, Devices, input_ids, video_track_from_grpc, audio_track_from_grpc,
  transcoder_config_from_grpc, video_to_grpc, audio_to_grpc, transcoder_config_to_grpc,
}

options-from-to :
    (opts : List DictionaryItem) → custom_options_from_grpc (custom_options_to_grpc opts) ≡ opts
unfolding custom_options_from_grpc custom_options_to_grpc
options-from-to [] = refl
options-from-to (opt ∷ opts) = ap (◌∷◌ opt) (options-from-to opts)

options-to-from :
    (opts : List CustomOption) → custom_options_to_grpc (custom_options_from_grpc opts) ≡ opts
unfolding custom_options_from_grpc custom_options_to_grpc
options-to-from [] = refl
options-to-from (opt ∷ opts) = ap (◌∷◌ opt) (options-to-from opts)

u32_small : (n : ℕ) → n < 2 ^ 32 → u32 n ≡ n
unfolding u32
u32_small n h = omega arith

module _ {Device : Type 0} (devices : Devices Device) where
  -- A video track as `TranscoderConfigFromGRPC` makes it.
  pub record IsServedVideo (v : VideoTrackConfig Device) : Type 0 where
    pub inputs : v.input_track_ids ≡ input_ids
    pub outputs : v.output_track_ids ≡ 0 ∷ []
    pub period : IsInt64 v.averaging_period
    pub device :
        devices.from_string (devices.to_string v.hardware_device_type) ≡ v.hardware_device_type

  pub record IsServedAudio (a : AudioTrackConfig) : Type 0 where
    pub inputs : a.input_track_ids ≡ input_ids
    pub outputs : a.output_track_ids ≡ 1 ∷ []
    pub period : IsInt64 a.averaging_period
    pub rate : a.sample_rate < 2 ^ 32

  -- A configuration with one video and one audio track, with the track numbers that the program
  -- always uses, comes back from its message as it was, if the device type is read back from its
  -- name and the numbers fit their words.
  pub config-from-to :
      (v : VideoTrackConfig Device) (a : AudioTrackConfig)
      → IsServedVideo v
      → IsServedAudio a
      → let cfg : TranscoderConfig Device = record {
        video_track_configs = v ∷ [];
        audio_track_configs = a ∷ [];
      } in
        transcoder_config_from_grpc devices (transcoder_config_to_grpc devices cfg) ≡ cfg
  unfolding transcoder_config_from_grpc transcoder_config_to_grpc video_track_from_grpc
      audio_track_from_grpc video_to_grpc audio_to_grpc
  config-from-to v a hv ha = ground (
    arith,
    options-from-to v.custom_options,
    options-from-to a.custom_options,
    i64-u64 v.averaging_period hv.period,
    i64-u64 a.averaging_period ha.period,
    u32_small a.sample_rate ha.rate,
  )

  -- A message with both parts comes back from its configuration as it was, if the device type's
  -- name is kept and the numbers fit their words.
  pub config-to-from :
      (v : VideoCodecConfig) (a : AudioCodecConfig)
      → v.averaging_period < 2 ^ 64
      → a.averaging_period < 2 ^ 64
      → a.sample_rate < 2 ^ 32
      → devices.to_string (devices.from_string v.hardware_device_type) ≡ v.hardware_device_type
      → let req : ConfigGrpc = record { audio = some a; video = some v } in
        transcoder_config_to_grpc devices (transcoder_config_from_grpc devices req) ≡ req
  unfolding transcoder_config_from_grpc transcoder_config_to_grpc video_track_from_grpc
      audio_track_from_grpc video_to_grpc audio_to_grpc
  config-to-from v a pv pa r d = ground (
    arith,
    options-to-from v.custom_options,
    options-to-from a.custom_options,
    u64-i64 v.averaging_period pv,
    u64-i64 a.averaging_period pa,
    u32_small a.sample_rate r,
  )
