-- ===== src/Tests/Monitors.antt =====
-- Monitoring, waiting and the end of the program.
use ffstream.Base.{
  ℕ, suc, ◌≡◌, ◌≢◌, refl, false, none, some, List, [], ◌∷◌, ℤ, pos, negsuc, ok, panic, length,
  if◌then◌else◌, ◌*◌, ◌/◌, ◌-◌, ◌^◌, parse_uint, i64, ap, sym, arith,
}
use mathlib.Core.Option.{some-injective}
use ffstream.Server.Transport.{get_dial_params}
use ffstream.Stream.Inputs.{add_input, append_info, add_chains, rounds_to, add_chain}
use ffstream.Command.Options.{convert_unknown_options}
use ffstream.Stream.Outputs.{switch_output_by_props, check_audio, check_video}
use ffstream.Resource.{resource, get_fallback_priority}
use ffstream.Command.Settings.{Flags}
use ffstream.Command.Main.Laws.{default_flags}
use ffstream.Command.Main.Ending.{run_to_end, run_to_end_ok}
use ffstream.Stream.{FfStream}
use ffstream.Stream.Factory.{InputFactory}
use ffstream.Stream.Start.{PushApi, start}
use ffstream.Stream.Start.Waiting.{StopApi}
use ffstream.Server.Pipelines.{
  NodesApi, MonitorsApi, IsMonitorsApi, MonitorRequest, monitor_node, opened-monitor_node,
}
use ffstream.Client.Pipelines.{canceled, client_wait_chan, after_wait, after_wait-client_wait_chan}
use ffstream.Client.{grpc_client}
use ffstream.Control.Monitor.{
  MonitorError, MonitorEvent, plaintext, print_events, new_stream as new_stream_line, packet_row,
  Line,
}
use ffstream.Control.Monitor.Durations.{
  avconv_duration, second, neg, avconv_duration_exact, avconv_duration_wraps,
}
use ffstream.Control.Monitor.Laws.{count, occurs, print_events-count}
use ffstream.Tests.Apis.{inputs_api, mux_api}
use ffstream.Tests.Clients.{grpc_api, here}
use ffstream.Tests.Programs.{flags_api, main_api}
use ffstream.Tests.Servers.{server}

-- 2 seconds in the units of MPEG.
avconv_duration_exact_test :
    avconv_duration {E = MonitorError} (pos 180_000) (some (record { n = pos 1; d = pos 90_000 }))
    ≡ ok (pos (second * 180_000 * 1 / 90_000))
avconv_duration_exact_test = avconv_duration_exact 180_000 0 89_999 (omega arith) (omega arith)

-- 3 hours in microseconds.
avconv_duration_wraps_example :
    avconv_duration {E = MonitorError}
      (pos 10_800_000_000)
      (some (record { n = pos 1; d = pos 1_000_000 }))
    ≡ ok (neg ((2 ^ 64 - second * 10_800_000_000) / 1_000_000))
avconv_duration_wraps_example =
    avconv_duration_wraps 10_800_000_000 999_999 (omega arith) (omega arith)

abbrev event : ℤ → MonitorEvent
event index = record {
  index = index;
  codec_id = 27;
  codec_type = pos 0;
  rational = some (record { n = pos 1; d = pos 90_000 });
  timestamp_ns = pos 5;
  packet =
      some (record { pts = pos 180_000; dts = pos 90_000; duration = pos 90; data_size = pos 1 });
  frames = [];
}

abbrev events : List MonitorEvent
events = event (pos 0) ∷ event (pos 1) ∷ event (pos 0) ∷ []

abbrev row : ℤ → Line
row index =
    packet_row (pos 5) index
      (record { pts = pos 180_000; dts = pos 90_000; duration = pos 90; data_size = pos 1 })
      (pos 2_000_000_000) (pos 1_000_000_000) (pos 1_000_000) (pos 0)

abbrev lines : List Line
lines =
    new_stream_line (pos 0) 27
    ∷ row (pos 0)
    ∷ new_stream_line (pos 1) 27
    ∷ row (pos 1)
    ∷ row (pos 0)
    ∷ []

print_events-count_example : count (pos 0) lines ≡ (if occurs (pos 0) events then 1 else 0)
unfolding print_events
print_events-count_example = print_events-count (λ ev. none) plaintext (pos 0) events lines refl

-- One node, and a world that is the number of open monitors.
abbrev nodes_api : NodesApi inputs_api
nodes_api = record {
  Node = ℕ;
  NodeGrpc = ℕ;
  get_inputs = λ s. some 7 ∷ none ∷ [];
  non_nil = λ nodes. 7 ∷ [];
  node_to_grpc = λ node. node;
}

abbrev monitors_api : MonitorsApi ℕ (Unit {0})
monitors_api = record {
  World = ℕ;
  Monitor = ℕ;
  find_node = λ id nodes. ok id;
  new = λ w node req. (suc w, some node);
  close = λ w m. w - 1;
  wrap_chan = λ w m. (w, panic);
}

monitors_lawful : IsMonitorsApi monitors_api (λ w. w)
monitors_lawful = record {
  opened-new = λ w w' node req m e. cc;
  opened-not_new = λ w w' node req e. absurd (cc);
  opened-wrap_chan = λ w m. refl;
  opened-close = λ w m. refl;
}

abbrev request : MonitorRequest (Unit {0})
request = record {
  node_id = 7;
  event_type = tt;
  include_packet_payload = false;
  include_frame_payload = false;
  do_decode = false;
}

opened-monitor_node_example :
    (monitor_node inputs_api nodes_api monitors_api 2 server request).0 ≡ 2
opened-monitor_node_example =
    opened-monitor_node inputs_api nodes_api monitors_api (λ w. w) 2 server request monitors_lawful

after_wait-client_wait_chan_test : after_wait (client_wait_chan grpc_api here 3) canceled ≡ 3
unfolding grpc_client get_dial_params
after_wait-client_wait_chan_test =
    after_wait-client_wait_chan grpc_api here 3 canceled (here, false) refl

-- A whole run with one input and one output that copy.
abbrev pub push_api : PushApi inputs_api mux_api
push_api = record { add_push_packets_to = λ s m. s; add_push_frames_to = λ s m. s }

abbrev pub stop_api : StopApi mux_api
stop_api = record { wait_for_stop = λ m. ok tt }

abbrev flags : Flags flags_api ℕ
flags = default_flags flags_api 4 (negsuc 0) (resource "in.ts" [] ∷ []) (resource "out.ts" [] ∷ [])

ended_test :
    (t : FfStream (List InputFactory) (ℤ × ℤ)) × (run_to_end main_api push_api stop_api flags
      ≡ ok t)
unfolding run_to_end resource get_fallback_priority parse_uint start add_input append_info
    add_chains rounds_to i64 add_chain convert_unknown_options switch_output_by_props check_audio
    check_video
ended_test = (_, refl)

run_to_end_ok_example : (length flags.outputs ≡ 1) × (flags.inputs ≢ [])
run_to_end_ok_example =
    run_to_end_ok main_api push_api stop_api flags ended_test.0
      (λ inputs e. ap length (sym (some-injective [] inputs e))) ended_test.1
