-- ===== src/Tests/Senders.antt =====
-- The senders at concrete templates, keys and times.
use ffstream.Base.{
  ℕ, zero, suc, ◌+◌, ◌≡◌, refl, String, Bool, true, none, some, List, [], ◌∷◌, ◌++◌, map, ℤ, pos,
  ok, err, arith,
}
use ffstream.Stream.{FfStream}
use ffstream.Stream.Factory.{InputFactory}
use ffstream.Command.Templates.{SenderTemplate}
use ffstream.Sender.{SenderKey, get_url}
use ffstream.Sender.Url.{
  Piece, text, hole, audio_codec, audio_rate, video_height, render, key_value, get_url-render,
}
use ffstream.Sender.Output.{
  SenderApi, different_outputs_same_tracks_split_av, unable_to_set_send_buffer_size, SendingNode,
  opened, new_sender, buffer_size,
}
use ffstream.Sender.Output.Laws.{IsSender, new_sender_ok}
use ffstream.Sender.Retry.{kernel_open, failed, ends, ends-append, ends_in_time}
use ffstream.Tests.Apis.{mux_api, started}

abbrev pieces : List Piece
pieces =
    text "srt://host/"
    ∷ hole video_height
    ∷ text "p-"
    ∷ hole audio_codec
    ∷ text "-"
    ∷ hole audio_rate
    ∷ []

abbrev template : SenderTemplate
template = record {
  url_template = "srt://host/${v:0:height}p-${a:0:codec}-${a:0:rate}";
  options = [];
  retry_output_timeout_on_failure = pos 0;
}

abbrev key : SenderKey
key = record {
  audio_codec = "aac";
  audio_sample_rate = 48000;
  video_codec = "libx264";
  video_resolution = record { width = 1920; height = 1080 };
}

get_url_test : get_url (λ name. name) template key ≡ "srt://host/1080p-aac-48000"
unfolding get_url
get_url_test = refl

get_url-render_example :
    get_url (λ name. name) template key ≡ render (key_value (λ name. name) key) pieces
get_url-render_example =
    get_url-render (λ name. name) template key pieces refl (omega arith) (omega arith) (omega arith)

-- An output library that opens everything but a buffer.
abbrev sender_api : SenderApi mux_api
sender_api = record {
  World = ℕ;
  Kernel = String;
  Measurer = Bool;
  Handler = ℕ;
  mux_mode = λ m. different_outputs_same_tracks_split_av;
  auto_bit_rate_handler = λ m. some 5;
  find = λ handler resolution. some 3000000;
  best = λ handler. none;
  canonicalize = λ name. name;
  new_output_from_url = λ w url cfg. elim cfg.send_buffer_size [
    | zero ↦ (w + 1, ok url)
    | suc n ↦ (w + 1, err unable_to_set_send_buffer_size)
  ];
  unsafe_set_linger = λ w kernel on_off seconds. (w, true);
}

abbrev one_template : FfStream (List InputFactory) (ℤ × ℤ)
one_template = record started { output_templates = template ∷ [] }

abbrev node : SendingNode String Bool
node = opened (record { kernel = "srt://host/1080p-aac-48000"; filter = true })

new_sender_test : new_sender sender_api true 0 one_template key ≡ (2, ok node)
unfolding new_sender
new_sender_test = refl

new_sender_ok_example :
    (t : SenderTemplate) × (n : ℕ) × (one_template.output_templates ≡ t ∷ [])
    × (buffer_size sender_api one_template key.video_resolution ≡ ok n)
    × IsSender sender_api true one_template t (get_url (λ name. name) t key) n node
unfolding new_sender
new_sender_ok_example = new_sender_ok sender_api true 0 one_template key node refl

-- A timeout of a fifth of a second.
ends-append_example :
    ends (pos 200000000) none ((failed 5 ∷ []) ++ kernel_open ∷ map failed (7 ∷ 300000007 ∷ []))
    ≡ true
unfolding ends
ends-append_example = ends-append (pos 200000000) none (failed 5 ∷ []) 7 (300000007 ∷ [])

ends_in_time_example :
    ends
      (pos 200000000)
      none
      ([] ++ kernel_open ∷ map failed (0 ∷ 100000000 ∷ 250000000 ∷ 400000000 ∷ []))
    ≡ true
ends_in_time_example =
    ends_in_time 200000000 none [] 0 (100000000 ∷ 250000000 ∷ 400000000 ∷ []) (omega arith)
      (omega arith)
