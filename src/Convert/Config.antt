-- ===== src/Convert/Config.antt =====
-- goconv/recoder_config.go and custom_options.go: the transcoder's configuration as a message.
pub mod RoundTrip
use ffstream.Base.{
  ℕ, suc, ◌%◌, ◌^◌, ◌<◌, ◌≡◌, refl, ◌∙◌, ap, ap₂, sym, String, Option, none, some, List, [], ◌∷◌, ℤ,
  i64, u64, u32, IsInt64, i64-u64, u64-i64, arith,
}
use ffstream.Resource.{DictionaryItem}
use ffstream.Transcoder.{Resolution, VideoTrackConfig, AudioTrackConfig, TranscoderConfig}

-- The message `CustomOption`
pub record CustomOption : Type 0 where
  pub key : String
  pub value : String

-- `CustomOptionsFromGRPC`
unfoldable pub custom_options_from_grpc : List CustomOption → List DictionaryItem
custom_options_from_grpc [] = []
custom_options_from_grpc (opt ∷ opts) =
    record { key = opt.key; value = opt.value } ∷ custom_options_from_grpc opts

-- `CustomOptionsToGRPC`
unfoldable pub custom_options_to_grpc : List DictionaryItem → List CustomOption
custom_options_to_grpc [] = []
custom_options_to_grpc (opt ∷ opts) =
    record { key = opt.key; value = opt.value } ∷ custom_options_to_grpc opts

pub record VideoCodecConfig : Type 0 where
  pub codec_name : String
  pub averaging_period : ℕ
  pub average_bit_rate : ℕ
  pub custom_options : List CustomOption
  pub hardware_device_type : String
  pub hardware_device_name : String
  pub width : ℕ
  pub height : ℕ

pub record AudioCodecConfig : Type 0 where
  pub codec_name : String
  pub averaging_period : ℕ
  pub average_bit_rate : ℕ
  pub custom_options : List CustomOption
  pub sample_rate : ℕ

pub record ConfigGrpc : Type 0 where
  pub audio : Option AudioCodecConfig
  pub video : Option VideoCodecConfig

-- The getters of a message that is nil.
abbrev pub video_of : Option VideoCodecConfig → VideoCodecConfig
video_of (some v) = v
video_of none = record {
  codec_name = "";
  averaging_period = 0;
  average_bit_rate = 0;
  custom_options = [];
  hardware_device_type = "";
  hardware_device_name = "";
  width = 0;
  height = 0;
}

abbrev pub audio_of : Option AudioCodecConfig → AudioCodecConfig
audio_of (some a) = a
audio_of none = record {
  codec_name = "";
  averaging_period = 0;
  average_bit_rate = 0;
  custom_options = [];
  sample_rate = 0;
}

-- `HardwareDeviceTypeFromString` and the device type's `String`.
pub record Devices (Device : Type 0) : Type 0 where
  pub from_string : String → Device
  pub to_string : Device → String

abbrev pub input_ids : List ℕ
input_ids = 0 ∷ 1 ∷ 2 ∷ 3 ∷ 4 ∷ 5 ∷ 6 ∷ 7 ∷ []

module _ {Device : Type 0} (devices : Devices Device) where
  unfoldable pub video_track_from_grpc : VideoCodecConfig → VideoTrackConfig Device
  video_track_from_grpc video = record {
    input_track_ids = input_ids;
    output_track_ids = 0 ∷ [];
    codec_name = video.codec_name;
    averaging_period = i64 video.averaging_period;
    average_bit_rate = video.average_bit_rate;
    custom_options = custom_options_from_grpc video.custom_options;
    hardware_device_type = devices.from_string video.hardware_device_type;
    hardware_device_name = video.hardware_device_name;
    resolution = record { width = video.width; height = video.height };
  }

  unfoldable pub audio_track_from_grpc : AudioCodecConfig → AudioTrackConfig
  audio_track_from_grpc audio = record {
    input_track_ids = input_ids;
    output_track_ids = 1 ∷ [];
    codec_name = audio.codec_name;
    averaging_period = i64 audio.averaging_period;
    average_bit_rate = audio.average_bit_rate;
    custom_options = custom_options_from_grpc audio.custom_options;
    sample_rate = audio.sample_rate;
  }

  -- `TranscoderConfigFromGRPC`
  unfoldable pub transcoder_config_from_grpc : ConfigGrpc → TranscoderConfig Device
  transcoder_config_from_grpc req = record {
    video_track_configs = video_track_from_grpc (video_of req.video) ∷ [];
    audio_track_configs = audio_track_from_grpc (audio_of req.audio) ∷ [];
  }

  unfoldable pub video_to_grpc : List (VideoTrackConfig Device) → Option VideoCodecConfig
  video_to_grpc [] = none
  video_to_grpc (video ∷ videos) = some (record {
    codec_name = video.codec_name;
    averaging_period = u64 video.averaging_period;
    average_bit_rate = video.average_bit_rate;
    custom_options = custom_options_to_grpc video.custom_options;
    hardware_device_type = devices.to_string video.hardware_device_type;
    hardware_device_name = video.hardware_device_name;
    width = video.resolution.width;
    height = video.resolution.height;
  })

  unfoldable pub audio_to_grpc : List AudioTrackConfig → Option AudioCodecConfig
  audio_to_grpc [] = none
  audio_to_grpc (audio ∷ audios) = some (record {
    codec_name = audio.codec_name;
    averaging_period = u64 audio.averaging_period;
    average_bit_rate = audio.average_bit_rate;
    custom_options = custom_options_to_grpc audio.custom_options;
    sample_rate = u32 audio.sample_rate;
  })

  -- `TranscoderConfigToGRPC`
  unfoldable pub transcoder_config_to_grpc : TranscoderConfig Device → ConfigGrpc
  transcoder_config_to_grpc cfg = record {
    audio = audio_to_grpc cfg.audio_track_configs;
    video = video_to_grpc cfg.video_track_configs;
  }
