-- ===== src/Control/Monitor/Laws.antt =====
-- commands.go: which streams `monitor` announces.
use ffstream.Base.{
  ℕ, ◌+◌, ◌≡◌, sym, ◌∙◌, ap, String, Bool, true, false, Bool-cases, inl, inr, Option, none, some,
  List, [], ◌∷◌, ◌++◌, ok, ℤ, pos, negsuc, if◌then◌else◌, arith, Option-cases, ok-injective,
  >>=-eq-ok,
}
use ffstream.Control.Monitor.Durations.{avconv_duration}
use ffstream.Control.Monitor.{
  Packet, Frame, MonitorEvent, Line, new_stream, packet_row, frame_row, json_text, Format,
  plaintext, json, packet_rows, frame_rows, rows_of, same_index, seen, announcement, note,
  print_events,
}

-- How often a stream is announced.
abbrev pub count : ℤ → List Line → ℕ
count i [] = 0
count i (new_stream j codec ∷ lines) = (if same_index j i then 1 else 0) + count i lines
count i (packet_row a b c d e f g ∷ lines) = count i lines
count i (frame_row a b c d e f g ∷ lines) = count i lines
count i (json_text t ∷ lines) = count i lines

-- Some event is of the stream.
abbrev pub occurs : ℤ → List MonitorEvent → Bool
occurs i [] = false
occurs i (ev ∷ evs) = if same_index ev.index i then true else occurs i evs

count-append : (i : ℤ) (xs ys : List Line) → count i (xs ++ ys) ≡ count i xs + count i ys
count-append i [] ys = omega arith
count-append i (new_stream j codec ∷ xs) ys = omega (arith, count-append i xs ys)
count-append i (packet_row a b c d e f g ∷ xs) ys = count-append i xs ys
count-append i (frame_row a b c d e f g ∷ xs) ys = count-append i xs ys
count-append i (json_text t ∷ xs) ys = count-append i xs ys

-- Rows announce nothing.
packet_rows_none :
    (i : ℤ) (ev : MonitorEvent) (p : Option Packet) (fs : List Frame) (lines : List Line)
    → packet_rows ev p fs ≡ ok lines
    → count i lines ≡ 0
unfolding packet_rows
packet_rows_none i ev (some p) [] lines h =
    let (pts, _, h') = >>=-eq-ok (avconv_duration p.pts ev.rational) _ lines h in
    let (dts, _, h'') = >>=-eq-ok (avconv_duration p.dts ev.rational) _ lines h' in
    let (dur, _, h''') = >>=-eq-ok (avconv_duration p.duration ev.rational) _ lines h'' in
    let e =
      ok-injective (packet_row ev.timestamp_ns ev.index p pts dts dur ev.codec_type ∷ []) lines
        h''' in
    sym (ap (count i) e)
packet_rows_none i ev (some p) (f ∷ fs) lines h = sym (ap (count i) (ok-injective [] lines h))
packet_rows_none i ev none fs lines h = sym (ap (count i) (ok-injective [] lines h))

frame_rows_none :
    (i : ℤ) (ev : MonitorEvent) (fs : List Frame) (lines : List Line)
    → frame_rows ev fs ≡ ok lines
    → count i lines ≡ 0
unfolding frame_rows
frame_rows_none i ev [] lines h = sym (ap (count i) (ok-injective [] lines h))
frame_rows_none i ev (f ∷ fs) lines h =
    let (pts, _, h') = >>=-eq-ok (avconv_duration f.packet.pts ev.rational) _ lines h in
    let (dts, _, h'') = >>=-eq-ok (avconv_duration f.packet.dts ev.rational) _ lines h' in
    let (dur, _, h3) = >>=-eq-ok (avconv_duration f.packet.duration ev.rational) _ lines h'' in
    let (rest, r, h4) = >>=-eq-ok (frame_rows ev fs) _ lines h3 in
    let e =
      ok-injective (frame_row ev.timestamp_ns ev.index f pts dts dur ev.codec_type ∷ rest) lines
        h4 in
    sym (ap (count i) e) ∙ frame_rows_none i ev fs rest r

rows_of_none :
    (to_json : MonitorEvent → Option String) (i : ℤ) (format : Format) (ev : MonitorEvent)
    (lines : List Line)
    → rows_of to_json format ev ≡ ok lines
    → count i lines ≡ 0
unfolding rows_of
rows_of_none to_json i plaintext ev lines h =
    let (packets, p, h') = >>=-eq-ok (packet_rows ev ev.packet ev.frames) _ lines h in
    let (frames, f, h'') = >>=-eq-ok (frame_rows ev ev.frames) _ lines h' in
    let a = packet_rows_none i ev ev.packet ev.frames packets p in
    let b = frame_rows_none i ev ev.frames frames f in
    let c = count-append i packets frames in
    sym (ap (count i) (ok-injective (packets ++ frames) lines h'')) ∙ omega arith
rows_of_none to_json i json ev lines h = elim (Option-cases (to_json ev)) [
  | inl e ↦ absurd (let h' = rw (e, rows_of) at h in cc)
  | inr (text, e) ↦
      let h' = rw (e, rows_of) at h in
      sym (ap (count i) (ok-injective (json_text text ∷ []) lines h'))
]

-- The announcement of an event, and what it adds to those that were made.
fresh : ℤ → List ℤ → List MonitorEvent → ℕ
fresh i is evs = if seen i is then 0 else if occurs i evs then 1 else 0

same_index_iff : (a b : ℤ) → same_index a b ≡ true → a ≡ b
same_index_iff (pos a) (pos b) h = ground arith
same_index_iff (pos a) (negsuc b) h = absurd (cc)
same_index_iff (negsuc a) (pos b) h = absurd (cc)
same_index_iff (negsuc a) (negsuc b) h = ground arith

fresh-step :
    (i : ℤ) (is : List ℤ) (ev : MonitorEvent) (evs : List MonitorEvent)
    → count i (announcement is ev) + fresh i (note is ev.index) evs ≡ fresh i is (ev ∷ evs)
unfolding fresh
fresh-step i is ev evs = elim (Bool-cases (same_index ev.index i)) [
  | inl same ↦ ground (arith, same, ap (λ k. seen k is) (same_index_iff ev.index i same))
  | inr other ↦ ground (arith, other)
]

none_left : (i : ℤ) (is : List ℤ) → 0 ≡ fresh i is []
unfolding fresh
none_left i is = ground arith

print_events-fresh :
    (to_json : MonitorEvent → Option String) (format : Format) (i : ℤ) (is : List ℤ)
    (evs : List MonitorEvent) (lines : List Line)
    → print_events to_json format is evs ≡ ok lines
    → count i lines ≡ fresh i is evs
unfolding print_events
print_events-fresh to_json format i is [] lines h =
    sym (ap (count i) (ok-injective [] lines h)) ∙ none_left i is
print_events-fresh to_json format i is (ev ∷ evs) lines h =
    let (rows, r, h') = >>=-eq-ok (rows_of to_json format ev) _ lines h in
    let (rest, p, h'') =
      >>=-eq-ok (print_events to_json format (note is ev.index) evs) _ lines h' in
    let a = rows_of_none to_json i format ev rows r in
    let b = print_events-fresh to_json format i (note is ev.index) evs rest p in
    let c = fresh-step i is ev evs in
    let d = count-append i (announcement is ev ++ rows) rest in
    let e = count-append i (announcement is ev) rows in
    sym (ap (count i) (ok-injective (announcement is ev ++ rows ++ rest) lines h'')) ∙ omega arith

-- When `monitor` has read all events without an error, it has announced every stream that some event is
-- of exactly once, and no other stream, whatever the format.
pub print_events-count :
    (to_json : MonitorEvent → Option String) (format : Format) (i : ℤ) (evs : List MonitorEvent)
    (lines : List Line)
    → print_events to_json format [] evs ≡ ok lines
    → count i lines ≡ (if occurs i evs then 1 else 0)
unfolding fresh
print_events-count to_json format i evs lines h = print_events-fresh to_json format i [] evs lines h
