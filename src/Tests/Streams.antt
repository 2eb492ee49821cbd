-- ===== src/Tests/Streams.antt =====
-- The stream's inputs, its factories and its outputs, over small libraries.
use ffstream.Stream.Inputs.Overflow.{add_input_panics}
use ffstream.Stream.Outputs.{check_audio, check_video, after_call}
use ffstream.Base.{
  ◌<◌, false, ℕ, true, none, some, List, [], ◌∷◌, ◌≡◌, ◌↔◌, ◌≢◌, ◌⊎◌, refl, ℤ, pos, parse_uint,
  length, ok, panic, arith,
}
use ffstream.Resource.{resource, get_fallback_priority, priority_of, seen}
use ffstream.Resource.Groups.{of_priority}
use ffstream.Stream.{FfStream}
use ffstream.Stream.Factory.{
  InputFactory, new_input_factory, reset_indices, stream_index_assign, number_sources, is_first,
  source_index_of, find_index, find_key,
}
use ffstream.Stream.Factory.Assignment.{
  assigned, Assigns, key_of, reset_indices-IsReady, stream_index_assign_total,
}
use ffstream.Stream.Factory.Sources.{assigned-distinct, unknown_source-collides}
use ffstream.Stream.Inputs.{add_input, add_inputs}
use ffstream.Stream.Inputs.Laws.{IsValid, info_at, add_inputs_lem}
use ffstream.Stream.Outputs.{
  set_fps_fraction, get_fps_fraction, set_fraction, switch_output_by_props,
}
use ffstream.Stream.Outputs.Laws.{
  IsIntegerFraction, IsAudioComplete, IsVideoComplete, set_fps_fraction_iff, get-set_fps_fraction,
  switch_output_by_props_iff,
}
use ffstream.Stream.Start.{
  set_up, configure, connect_inputs, PushApi, IsConfigured, start, start-start,
}
use ffstream.Stream.{already_used}
use ffstream.Tests.Apis.{
  inputs_api, inputs_lawful, mux_api, mux_lawful, empty_stream, started, empty-IsValid,
  with_priority, video_only,
}

add_inputs_lem_example :
    (t : FfStream (List InputFactory) (ℤ × ℤ)) × (add_inputs inputs_api empty_stream
        (with_priority "1" ∷ with_priority "0" ∷ with_priority "1" ∷ [])
      ≡ ok t)
    × IsValid inputs_api t
    × ((q : ℕ)
        → info_at t.inputs_info q
          ≡ of_priority q (with_priority "1" ∷ with_priority "0" ∷ with_priority "1" ∷ []))
unfolding get_fallback_priority priority_of resource parse_uint info_at
add_inputs_lem_example =
    add_inputs_lem inputs_api inputs_lawful empty_stream
      (with_priority "1" ∷ with_priority "0" ∷ with_priority "1" ∷ []) empty-IsValid
      (omega arith, (omega arith, (omega arith, tt)))

add_input_panics_example :
    add_input inputs_api empty_stream (with_priority "9223372036854775808") ≡ panic
unfolding get_fallback_priority priority_of resource parse_uint
add_input_panics_example =
    add_input_panics inputs_api empty_stream (with_priority "9223372036854775808") empty-IsValid
      (omega arith) (omega arith)

-- A factory that was reset to the inputs 7 and 8.
abbrev factory : InputFactory
factory = reset_indices (new_input_factory 0) (7 ∷ 8 ∷ [])

stream_index_assign_total_example :
    (out : ℕ) × (f' : InputFactory) × (stream_index_assign factory (some 8) 0 ≡ ok (out, f'))
    × Assigns factory (key_of 8 0) out f'
stream_index_assign_total_example =
    stream_index_assign_total factory 8 0 (reset_indices-IsReady (new_input_factory 0) (7 ∷ 8 ∷ []))

assigned-distinct_example : key_of 7 0 ≡ key_of 7 0
unfolding reset_indices new_input_factory number_sources seen assigned is_first source_index_of
    find_index find_key
assigned-distinct_example =
    assigned-distinct factory (7 ∷ 8 ∷ []) (key_of 7 0) (key_of 7 0) {out = 0}
      (reset_indices-IsReady (new_input_factory 0) (7 ∷ 8 ∷ [])) refl refl refl refl refl

unknown_source-collides_test :
    (assigned factory (key_of 9 0) ≡ some 0) × (assigned factory (key_of 7 0) ≡ some 0)
unfolding reset_indices new_input_factory number_sources seen
unknown_source-collides_test = unknown_source-collides factory 7 (8 ∷ []) 9 refl refl refl

set_fps_fraction_iff_test :
    (((set_fps_fraction mux_api started 60 30).1 ≡ none)
      ↔ ((started.stream_mux ≢ none) × IsIntegerFraction 60 30))
    × (((set_fps_fraction mux_api started 60 30).1 ≡ none)
        ⊎ ((set_fps_fraction mux_api started 60 30).0 ≡ started))
set_fps_fraction_iff_test = set_fps_fraction_iff mux_api started 60 30

get-set_fps_fraction_test :
    get_fps_fraction mux_api (set_fps_fraction mux_api started 60 30).0 ≡ (60, 30, none)
unfolding set_fps_fraction set_fraction
get-set_fps_fraction_test =
    get-set_fps_fraction mux_api started mux_lawful 60 30 (omega arith) (omega arith) refl

switch_output_by_props_iff_test : ((switch_output_by_props mux_api started video_only).1 ≡ none) ↔ (
    IsAudioComplete video_only.audio_track_configs
    × IsVideoComplete video_only.video_track_configs
    × ((mux_api.switch_to_output_by_props (pos 0, pos 1) video_only).1 ≡ true))
switch_output_by_props_iff_test =
    switch_output_by_props_iff mux_api started (pos 0, pos 1) video_only refl

-- Inputs that push to any multiplexer.
abbrev push_api : PushApi inputs_api mux_api
push_api = record { add_push_packets_to = λ s m. s; add_push_frames_to = λ s m. s }

abbrev ready : FfStream (List InputFactory) (ℤ × ℤ)
ready = record empty_stream {
  inputs = new_input_factory 0 ∷ [];
  inputs_info = [] ∷ [];
  output_templates =
      record {
        url_template = "rtmp://host/app";
        options = [];
        retry_output_timeout_on_failure = pos 0;
      }
      ∷ [];
}

start-start_example :
    let t = (start inputs_api mux_api push_api ready true none video_only).0 in
    (ready.stream_mux ≡ none)
    × (0 < inputs_api.get_input_chains_count ready.inputs)
    × (length ready.output_templates ≡ 1)
    × IsConfigured inputs_api mux_api push_api video_only t
    × (start inputs_api mux_api push_api t false none video_only ≡ (t, some already_used))
unfolding start set_up configure connect_inputs switch_output_by_props after_call check_audio
    check_video
start-start_example =
    start-start inputs_api mux_api push_api ready true none video_only false none video_only refl
