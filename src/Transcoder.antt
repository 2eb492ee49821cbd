-- ===== src/Transcoder.antt =====
-- The data of `streammuxtypes` that the program passes between its parts, with the fields it uses.
use ffstream.Base.{ℕ, String, List, ℤ}
use ffstream.Resource.{DictionaryItem}

-- `codec.Resolution`
pub record Resolution : Type 0 where
  pub width : ℕ
  pub height : ℕ

-- `OutputVideoTrackConfig`. `Device` is the library's `HardwareDeviceType`.
pub record VideoTrackConfig (Device : Type 0) : Type 0 where
  pub input_track_ids : List ℕ
  pub output_track_ids : List ℕ
  pub codec_name : String
  pub averaging_period : ℤ
  pub average_bit_rate : ℕ
  pub custom_options : List DictionaryItem
  pub hardware_device_type : Device
  pub hardware_device_name : String
  pub resolution : Resolution

-- `OutputAudioTrackConfig`
pub record AudioTrackConfig : Type 0 where
  pub input_track_ids : List ℕ
  pub output_track_ids : List ℕ
  pub codec_name : String
  pub averaging_period : ℤ
  pub average_bit_rate : ℕ
  pub custom_options : List DictionaryItem
  pub sample_rate : ℕ

-- `TranscoderConfig`, by its only field `Output`
pub record TranscoderConfig (Device : Type 0) : Type 0 where
  pub video_track_configs : List (VideoTrackConfig Device)
  pub audio_track_configs : List AudioTrackConfig
