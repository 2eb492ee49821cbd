-- ===== src/Tests/Apis.antt =====
-- Small libraries and streams for the tests.
use ffstream.Base.{
  String, Bool, true, none, some, List, [], ◌∷◌, refl, ℤ, pos, negsuc, snoc, length,
}
use ffstream.Resource.{Resource, resource}
use ffstream.Transcoder.{VideoTrackConfig, TranscoderConfig}
use ffstream.Stream.{InputsApi, IsInputsApi, FfStream}
use ffstream.Stream.Factory.{InputFactory}
use ffstream.Stream.Inputs.Laws.{IsValid}
use ffstream.Stream.Outputs.{MuxApi, IsMuxApi}

-- The chains alone.
abbrev pub inputs_api : InputsApi
inputs_api = record {
  State = List InputFactory;
  input_chains = λ s. s;
  add_factory = snoc;
  get_input_chains_count = length;
}

pub inputs_lawful : IsInputsApi inputs_api
inputs_lawful = record { chains-add_factory = λ s f. refl }

-- A multiplexer that holds the fraction alone, and switches to everything.
abbrev pub mux_api : MuxApi
mux_api = record {
  Mux = ℤ × ℤ;
  Mode = Bool;
  AutoBitRate = Bool;
  Device = String;
  new_with_custom_data = λ mode. some (pos 0, pos 1);
  set_auto_bit_rate_video_config = λ m cfg. (m, true);
  switch_to_output_by_props = λ m props. (m, true);
  wait_for_start = λ m. (m, true);
  get_fps_fraction = λ m. m;
  set_fps_fraction = λ m num den. (num, den);
}

pub mux_lawful : IsMuxApi mux_api
mux_lawful = record { get-set_fps_fraction = λ m num den. refl }

abbrev pub empty_stream : FfStream (List InputFactory) (ℤ × ℤ)
empty_stream = record {
  config = record { input_retry_interval = negsuc 0 };
  inputs = [];
  inputs_info = [];
  output_templates = [];
  stream_mux = none;
}

abbrev pub started : FfStream (List InputFactory) (ℤ × ℤ)
started = record empty_stream { stream_mux = some (pos 0, pos 1) }

pub empty-IsValid : IsValid inputs_api empty_stream
empty-IsValid = record { same_length = refl; priorities = λ p f h. absurd (cc) }

abbrev pub with_priority : String → Resource
with_priority value = resource "a.ts" (record { key = "fallback_priority"; value = value } ∷ [])

abbrev pub video_track : VideoTrackConfig String
video_track = record {
  input_track_ids = 0 ∷ [];
  output_track_ids = 0 ∷ [];
  codec_name = "libx264";
  averaging_period = pos 0;
  average_bit_rate = 1000;
  custom_options = [];
  hardware_device_type = "none";
  hardware_device_name = "";
  resolution = record { width = 1920; height = 1080 };
}

abbrev pub video_only : TranscoderConfig String
video_only = record { video_track_configs = video_track ∷ []; audio_track_configs = [] }
