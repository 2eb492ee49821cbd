-- ===== src/Control/Monitor.antt =====
-- commands.go: the command `monitor`, and the durations that it prints.
pub mod Durations
pub mod Laws
use ffstream.Base.{
  ℕ, String, str_eq, Bool, true, false, not, ◌&&◌, Option, none, some, List, [], ◌∷◌, ◌++◌, Result,
  ok, err, panic, ◌>>=◌, ℤ, pos, negsuc, if◌then◌else◌, parse_uint, ◌==◌,
}
use ffstream.Control.Monitor.Durations.{TimeBase, avconv_duration}

-- `MonitorEventType`
pub data EventType : Type 0 where
  send : EventType
  receive : EventType
  kernel_output_send : EventType

pub data Format : Type 0 where
  plaintext : Format
  json : Format

-- How the command ends before it has read all events: `assertNoError` and `logger.Panicf`.
pub data MonitorError : Type 0 where
  bad_object_id : String → MonitorError
  unknown_event_type : String → MonitorError
  unknown_format : String → MonitorError
  not_monitored : MonitorError
  not_encoded : MonitorError

-- A packet, or a frame with the two fields that only frames have.
pub record Packet : Type 0 where
  pub pts : ℤ
  pub dts : ℤ
  pub duration : ℤ
  pub data_size : ℤ

pub record Frame : Type 0 where
  pub packet : Packet
  pub flags : ℕ
  pub pict_type : ℕ

-- `MonitorEvent`, with its stream. `rational` is what `RationalFromProtobuf` makes of the time base,
-- which is nil in the case `none`. An event without its stream, or whose stream is without codec
-- parameters, has no place here: on it the loop would panic.
pub record MonitorEvent : Type 0 where
  pub index : ℤ
  pub codec_id : ℕ
  pub codec_type : ℤ
  pub rational : Option TimeBase
  pub timestamp_ns : ℤ
  pub packet : Option Packet
  pub frames : List Frame

-- What is printed: the announcement of a stream, or a row with its numbers and the three durations.
pub data Line : Type 0 where
  new_stream : ℤ → ℕ → Line
  packet_row : ℤ → ℤ → Packet → ℤ → ℤ → ℤ → ℤ → Line
  frame_row : ℤ → ℤ → Frame → ℤ → ℤ → ℤ → ℤ → Line
  json_text : String → Line

abbrev pub Printed : Type 0
Printed = Result MonitorError (List Line)

-- The switch over the event type; `to_lower` is `strings.ToLower`.
unfoldable pub named_type : (String → String) → String → Result MonitorError EventType
named_type to_lower name =
    if str_eq (to_lower name) "send"
    then ok send
    else if str_eq (to_lower name) "receive"
    then ok receive
    else if str_eq (to_lower name) "kernel_output_send"
    then ok kernel_output_send
    else err (unknown_event_type name)

unfoldable pub event_type : (String → String) → List String → Result MonitorError EventType
unfolding named_type
event_type to_lower [] = ok send
event_type to_lower (name ∷ args) = named_type to_lower name

unfoldable pub format_of : String → Result MonitorError Format
format_of name =
    if str_eq name "plaintext"
    then ok plaintext
    else if str_eq name "json"
    then ok json
    else err (unknown_format name)

-- The row of a packet, if there is no frame, and those of the frames.
unfoldable pub packet_rows : MonitorEvent → Option Packet → List Frame → Printed
unfolding avconv_duration
packet_rows ev (some p) [] = do
  pts ← avconv_duration p.pts ev.rational
  dts ← avconv_duration p.dts ev.rational
  duration ← avconv_duration p.duration ev.rational
  ok (packet_row ev.timestamp_ns ev.index p pts dts duration ev.codec_type ∷ [])
packet_rows ev _ _ = ok []

unfoldable pub frame_rows : MonitorEvent → List Frame → Printed
unfolding avconv_duration
frame_rows ev [] = ok []
frame_rows ev (f ∷ fs) = do
  pts ← avconv_duration f.packet.pts ev.rational
  dts ← avconv_duration f.packet.dts ev.rational
  duration ← avconv_duration f.packet.duration ev.rational
  rest ← frame_rows ev fs
  ok (frame_row ev.timestamp_ns ev.index f pts dts duration ev.codec_type ∷ rest)

-- What is printed of an event by its format; `to_json` is the library's encoder.
unfoldable pub rows_of : (MonitorEvent → Option String) → Format → MonitorEvent → Printed
unfolding packet_rows frame_rows
rows_of to_json plaintext ev = do
  packets ← packet_rows ev ev.packet ev.frames
  frames ← frame_rows ev ev.frames
  ok (packets ++ frames)
rows_of to_json json ev = elim (to_json ev) [
  | none ↦ err not_encoded
  | some text ↦ ok (json_text text ∷ [])
]

abbrev pub same_index : ℤ → ℤ → Bool
same_index (pos a) (pos b) = a == b
same_index (negsuc a) (negsuc b) = a == b
same_index _ _ = false

-- `streamSeen`
abbrev pub seen : ℤ → List ℤ → Bool
seen index [] = false
seen index (i ∷ is) = if same_index i index then true else seen index is

abbrev pub announcement : List ℤ → MonitorEvent → List Line
announcement is ev = if seen ev.index is then [] else new_stream ev.index ev.codec_id ∷ []

abbrev pub note : List ℤ → ℤ → List ℤ
note is index = if seen index is then is else index ∷ is

-- The loop over the events; where it stops, the lines so far are lost to the result.
unfoldable pub print_events :
    (MonitorEvent → Option String) → Format → List ℤ → List MonitorEvent → Printed
unfolding rows_of
print_events to_json format is [] = ok []
print_events to_json format is (ev ∷ evs) = do
  rows ← rows_of to_json format ev
  rest ← print_events to_json format (note is ev.index) evs
  ok (announcement is ev ++ rows ++ rest)

-- The command up to the call of the client, which is given what this returns.
unfoldable pub monitor_request :
    (String → String) → String → List String → String → Result MonitorError (ℕ × EventType × Format)
unfolding event_type format_of
monitor_request to_lower id args format = elim (parse_uint 64 id) [
  | none ↦ err (bad_object_id id)
  | some obj_id ↦ do ev ← event_type to_lower args; f ← format_of format; ok (obj_id, ev, f)
]

-- The whole command; `events` are those that the channel of the client gives for a request.
unfoldable pub monitor_command :
    (String → String)
    → (MonitorEvent → Option String)
    → (ℕ → EventType → Option (List MonitorEvent))
    → String
    → List String
    → String
    → Printed
unfolding monitor_request print_events
monitor_command to_lower to_json events id args format = do
  request ← monitor_request to_lower id args format
  elim (events request.0 request.1) [
    | none ↦ err not_monitored
    | some evs ↦ print_events to_json request.2 [] evs
  ]
