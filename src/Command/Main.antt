-- ===== src/Command/Main.antt =====
-- cmd/ffstream/main.go: from the flags to a stream that is started.
pub mod Laws
pub mod Preparation
pub mod Ending
pub mod Success
use ffstream.Base.{
  ℕ, String, str_eq, Bool, Option, none, some, List, [], ◌∷◌, ◌++◌, if◌then◌else◌, Result, ok, err,
  panic, ◌>>=◌, ℤ,
}
use mathlib.Core.Option
use ffstream.Resource.{DictionaryItem, Resource}
use ffstream.Transcoder.{Resolution, VideoTrackConfig, AudioTrackConfig, TranscoderConfig}
use ffstream.Command.Options.{convert_unknown_options}
use ffstream.Command.Templates.{SenderTemplate, output_template}
use ffstream.Command.Settings.{FlagsApi, AutoBitRateVideoConfig, Flags}
use ffstream.Sender.Output.{MuxMode}
use ffstream.Server.Transport.{Listening, get_listener}
use ffstream.Stream.{InputsApi, FfStream, StreamError}
use ffstream.Stream.Configuration.{Config, options_config, input_retry_interval_value}
use ffstream.Stream.Inputs.{add_inputs, add_output_template}
use ffstream.Stream.Outputs.{MuxApi}
use ffstream.Stream.Start.{PushApi, start}

-- How the program ends before it is started, other than by the errors of the stream.
pub data MainError : Type 0 where
  not_created : MainError
  no_listener : String → MainError
  stream_error : StreamError → MainError
  empty_key : String → MainError
  bad_resolution : String → MainError
  bad_sample_rate : String → MainError
  not_finished : MainError

-- What `main` uses of the libraries: `codec.LowLatencyOptions`, `Deduplicate`, `fmt.Sscanf` with the
-- formats of a resolution and of a number, `HardwareDeviceTypeFromString` with `none` for -1, the new
-- inputs, and the settings as the multiplexer takes them. `none` is an error. `listen` says whether a
-- listener comes about, its certificate included.
pub record MainApi (flags_api : FlagsApi) (api : InputsApi) (mux : MuxApi) : Type 0 where
  pub low_latency_options : String → List DictionaryItem
  pub deduplicate : List DictionaryItem → List DictionaryItem
  pub scan_resolution : String → Option Resolution
  pub scan_sample_rate : String → Option ℕ
  pub device_from_string : String → Option mux.Device
  pub no_device : mux.Device
  pub listen : Listening → Bool
  pub new_inputs : Config → Option api.State
  pub mode_of : MuxMode → mux.Mode
  pub config_of : AutoBitRateVideoConfig flags_api → mux.AutoBitRate

abbrev pub scanned_resolution : String → Option Resolution → Result MainError Resolution
scanned_resolution value none = err (bad_resolution value)
scanned_resolution value (some r) = ok r

abbrev pub scanned_rate : String → Option ℕ → Result MainError ℕ
scanned_rate value none = err (bad_sample_rate value)
scanned_rate value (some r) = ok r

abbrev pub lift_error : {A : Type 0} → Result StreamError A → Result MainError A
lift_error (ok a) = ok a
lift_error (err e) = err (stream_error e)
lift_error panic = panic

abbrev pub zero_resolution : Resolution
zero_resolution = record { width = 0; height = 0 }

module _ {flags_api : FlagsApi} {api : InputsApi} {mux : MuxApi}
    (main : MainApi flags_api api mux) where
  -- A round of the loop over the video options, and of that over the audio options.
  unfoldable pub next_resolution : Resolution → DictionaryItem → Result MainError Resolution
  next_resolution r item =
      if str_eq item.key ""
      then err (empty_key item.value)
      else if str_eq item.key "s"
      then scanned_resolution item.value (main.scan_resolution item.value)
      else ok r

  unfoldable pub next_rate : ℕ → DictionaryItem → Result MainError ℕ
  next_rate rate item =
      if str_eq item.key ""
      then err (empty_key item.value)
      else if str_eq item.key "ar"
      then scanned_rate item.value (main.scan_sample_rate item.value)
      else ok rate

  unfoldable pub resolution_of : Resolution → List DictionaryItem → Result MainError Resolution
  unfolding next_resolution
  resolution_of r [] = ok r
  resolution_of r (item ∷ items) = next_resolution r item >>= λ r'. resolution_of r' items

  unfoldable pub sample_rate_of : ℕ → List DictionaryItem → Result MainError ℕ
  unfolding next_rate
  sample_rate_of rate [] = ok rate
  sample_rate_of rate (item ∷ items) = next_rate rate item >>= λ rate'. sample_rate_of rate' items

  abbrev pub or_no_device : Option mux.Device → mux.Device
  or_no_device none = main.no_device
  or_no_device (some device) = device

  abbrev pub all_tracks : List ℕ
  all_tracks = 0 ∷ 1 ∷ 2 ∷ 3 ∷ 4 ∷ 5 ∷ 6 ∷ 7 ∷ []

  module _ {Level : Type 0} (flags : Flags flags_api Level) where
    unfoldable pub encoder_video_options : List DictionaryItem
    encoder_video_options = main.deduplicate (
        main.low_latency_options flags.video_encoder.codec
        ++ convert_unknown_options flags.video_encoder.options)

    -- The audio options that are read are deduplicated; those that are passed on are not.
    unfoldable pub transcoder_config : Resolution → ℕ → TranscoderConfig mux.Device
    unfolding encoder_video_options
    transcoder_config resolution sample_rate = record {
      video_track_configs =
          record {
            input_track_ids = all_tracks;
            output_track_ids = 0 ∷ [];
            codec_name = flags.video_encoder.codec;
            averaging_period = ℤ.pos 0;
            average_bit_rate = flags.video_encoder.bit_rate;
            custom_options = encoder_video_options;
            hardware_device_type = or_no_device (main.device_from_string flags.hw_accel_global);
            hardware_device_name = "";
            resolution = resolution;
          }
          ∷ [];
      audio_track_configs =
          record {
            input_track_ids = all_tracks;
            output_track_ids = 1 ∷ [];
            codec_name = flags.audio_encoder.codec;
            averaging_period = ℤ.pos 0;
            average_bit_rate = flags.audio_encoder.bit_rate;
            custom_options = convert_unknown_options flags.audio_encoder.options;
            sample_rate = sample_rate;
          }
          ∷ [];
    }

    unfoldable pub new_stream : Result MainError (FfStream api.State mux.Mux)
    unfolding options_config
    new_stream =
        let cfg =
          options_config (input_retry_interval_value flags.retry_input_timeout_on_failure ∷ []) in
        elim (main.new_inputs cfg) [
          | none ↦ err not_created
          | some inputs ↦ ok (record {
            config = cfg;
            inputs = inputs;
            inputs_info = [];
            output_templates = [];
            stream_mux = none;
          })
        ]

    -- The listener for the control server, which runs in the background.
    unfoldable pub listened : Result {0, 0} MainError Unit
    unfolding get_listener
    listened =
        if str_eq flags.listen_control_socket ""
        then ok tt
        else if main.listen (get_listener flags.listen_control_socket)
        then ok tt
        else err (no_listener flags.listen_control_socket)

    -- The loop over the outputs.
    unfoldable pub add_templates :
        FfStream api.State mux.Mux → List Resource → FfStream api.State mux.Mux
    unfolding add_output_template output_template
    add_templates s [] = s
    add_templates s (output ∷ outputs) =
        add_templates
          (add_output_template api s (output_template flags.retry_output_timeout_on_failure output))
          outputs

    -- Everything up to the call of `Start`: the stream and the configuration that it is given.
    unfoldable pub prepare :
        Result MainError (FfStream api.State mux.Mux × TranscoderConfig mux.Device)
    unfolding new_stream listened add_inputs resolution_of sample_rate_of encoder_video_options
        transcoder_config add_templates
    prepare = do
      s ← new_stream
      listening ← listened
      s' ← lift_error (add_inputs api s flags.inputs)
      resolution ← resolution_of zero_resolution encoder_video_options
      sample_rate ←
          sample_rate_of 0 (main.deduplicate (convert_unknown_options flags.audio_encoder.options))
      ok (add_templates s' flags.outputs, transcoder_config resolution sample_rate)
