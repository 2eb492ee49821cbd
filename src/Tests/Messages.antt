-- ===== src/Tests/Messages.antt =====
-- The conversions between the program's data and its messages, and the lists of options and groups.
use mathlib.Core.List.{Perm, Permᴰ}
use ffstream.Base.{ℕ, String, Option, none, some, List, [], ◌∷◌, ◌≡◌, refl, pos, negsuc, map, arith}
use ffstream.Resource.{DictionaryItem, Resource, resource, by_fallback_priority, seen}
use ffstream.Resource.Groups.{of_priority, occurs, IsAscending, by_fallback_priority_lem}
use ffstream.Command.Options.{convert_unknown_options, convert-arguments}
use ffstream.Command.Templates.{
  extend_mov_flags, extend_value, first_value, value_or_empty, first_value-extend_mov_flags,
}
use ffstream.Transcoder.{VideoTrackConfig, AudioTrackConfig, TranscoderConfig}
use ffstream.Stream.Configuration.{
  input_retry_interval_value, options_config, default_config, options_config-append,
}
use ffstream.Convert.Counters.{
  Item, SubSection, Section, NodeCounters, add_section, add_section_laws, get_stats, get_stats-perm,
}
use ffstream.Convert.Rates.{
  BitRates, bit_rates_to_grpc, bit_rates_from_grpc, bit_rates-from-to, TrackLatencies, Latencies,
  AreInt64, latencies_to_grpc, latencies_from_grpc, latencies-from-to,
}
use ffstream.Convert.Config.{
  VideoCodecConfig, AudioCodecConfig, Devices, input_ids, transcoder_config_from_grpc,
  transcoder_config_to_grpc,
}
use ffstream.Convert.Config.RoundTrip.{config-from-to, config-to-from}

abbrev items : List DictionaryItem
items = record { key = "crf"; value = "20" } ∷ record { key = "movflags"; value = "faststart" } ∷ []

convert-arguments_test :
    convert_unknown_options ("-crf" ∷ "20" ∷ "-movflags" ∷ "faststart" ∷ []) ≡ items
convert-arguments_test = convert-arguments items

first_value-extend_mov_flags_test :
    first_value "movflags" (extend_mov_flags items)
    ≡ some (extend_value (value_or_empty (first_value "movflags" items)))
first_value-extend_mov_flags_test = first_value-extend_mov_flags "movflags" items

abbrev sources : List Resource
sources =
    resource "b.ts" (record { key = "fallback_priority"; value = "2" } ∷ [])
    ∷ resource "a.ts" []
    ∷ []

by_fallback_priority_lem_example :
    (ps : List ℕ) × (by_fallback_priority sources ≡ map (λ p. of_priority p sources) ps)
    × IsAscending ps
    × ((q : ℕ) → seen ps q ≡ occurs q sources)
by_fallback_priority_lem_example = by_fallback_priority_lem sources

options_config-append_test :
    (options_config [] ≡ default_config)
    × ((options_config (
          input_retry_interval_value (pos 5)
          ∷ input_retry_interval_value (pos 7)
          ∷ [])).input_retry_interval
        ≡ pos 7)
options_config-append_test = options_config-append (input_retry_interval_value (pos 5) ∷ []) (pos 7)

abbrev section_of : ℕ → Option Section
section_of n =
    let item : Option Item = some (record { count = n; bytes = 188 }) in
    let sub : Option SubSection =
      some (record { unknown = none; other = none; video = item; audio = none }) in
    some (record { packets = sub; frames = none })

add_section_laws_test :
    (add_section (section_of 1) (section_of 2) ≡ add_section (section_of 2) (section_of 1))
    × (add_section (add_section (section_of 1) (section_of 2)) none
        ≡ add_section (section_of 1) (add_section (section_of 2) none))
    × (add_section (section_of 1) none ≡ section_of 1)
add_section_laws_test = add_section_laws (section_of 1) (section_of 2) none

abbrev counters : ℕ → NodeCounters
counters n = record {
  received = none;
  processed = section_of n;
  missed = none;
  generated = none;
  sent = section_of n;
}

swapped : Perm (counters 1 ∷ counters 2 ∷ []) (counters 2 ∷ counters 1 ∷ [])
swapped = ∣ Permᴰ.swap refl refl ∣₁

get_stats-perm_example :
    get_stats none (counters 1 ∷ counters 2 ∷ []) ≡ get_stats none (counters 2 ∷ counters 1 ∷ [])
get_stats-perm_example =
    get_stats-perm none (counters 1 ∷ counters 2 ∷ []) (counters 2 ∷ counters 1 ∷ []) swapped

abbrev bit_rates : BitRates
bit_rates = record {
  input = record { audio = 1; video = 2; other = 3 };
  encoded = record { audio = 4; video = 5; other = 6 };
  output = record { audio = 7; video = 8; other = 9 };
}

bit_rates-from-to_test : bit_rates_from_grpc (bit_rates_to_grpc (some bit_rates)) ≡ some bit_rates
bit_rates-from-to_test = bit_rates-from-to (some bit_rates)

abbrev pub track : TrackLatencies
track = record {
  pre_transcoding = negsuc 4;
  transcoding = pos 1;
  transcoded_pre_send = pos 2;
  sending = pos 3;
}

abbrev pub delays : Latencies
delays = record { audio = track; video = track }

pub track_fits : AreInt64 track
track_fits = record {
  pre_transcoding = omega arith;
  transcoding = omega arith;
  transcoded_pre_send = omega arith;
  sending = omega arith;
}

latencies-from-to_test : latencies_from_grpc (latencies_to_grpc (some delays)) ≡ some delays
latencies-from-to_test = latencies-from-to delays track_fits track_fits

-- Device types by their names.
abbrev devices : Devices String
devices = record { from_string = λ s. s; to_string = λ s. s }

abbrev video : VideoTrackConfig String
video = record {
  input_track_ids = input_ids;
  output_track_ids = 0 ∷ [];
  codec_name = "libx264";
  averaging_period = negsuc 0;
  average_bit_rate = 1000;
  custom_options = items;
  hardware_device_type = "cuda";
  hardware_device_name = "0";
  resolution = record { width = 1920; height = 1080 };
}

abbrev audio : AudioTrackConfig
audio = record {
  input_track_ids = input_ids;
  output_track_ids = 1 ∷ [];
  codec_name = "aac";
  averaging_period = pos 5;
  average_bit_rate = 128;
  custom_options = [];
  sample_rate = 48000;
}

abbrev configuration : TranscoderConfig String
configuration = record { video_track_configs = video ∷ []; audio_track_configs = audio ∷ [] }

config-from-to_example :
    transcoder_config_from_grpc devices (transcoder_config_to_grpc devices configuration)
    ≡ configuration
config-from-to_example =
    config-from-to devices video audio
      (record { inputs = refl; outputs = refl; period = omega arith; device = refl })
      (record { inputs = refl; outputs = refl; period = omega arith; rate = omega arith })

abbrev video_message : VideoCodecConfig
video_message = record {
  codec_name = "libx264";
  averaging_period = 5;
  average_bit_rate = 1000;
  custom_options = [];
  hardware_device_type = "cuda";
  hardware_device_name = "0";
  width = 1920;
  height = 1080;
}

abbrev audio_message : AudioCodecConfig
audio_message = record {
  codec_name = "aac";
  averaging_period = 5;
  average_bit_rate = 128;
  custom_options = [];
  sample_rate = 48000;
}

config-to-from_test :
    transcoder_config_to_grpc devices (
      transcoder_config_from_grpc devices
        (record { audio = some audio_message; video = some video_message }))
    ≡ record { audio = some audio_message; video = some video_message }
config-to-from_test =
    config-to-from devices video_message audio_message (omega arith) (omega arith) (omega arith)
      refl
