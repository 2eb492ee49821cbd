-- ===== src/Command/Encoders.antt =====
-- cmd/ffstream/flag.go: the encoders that `-c`, `-c:v` and `-c:a` choose.
use ffstream.Base.{
  ℕ, ◌<◌, ◌≡◌, String, Bool, true, false, List, [], ◌∷◌, get_elem?, get_elem?_of_lt, length,
  length-append, str_eq, Result, ok, ◌>>=◌, must_find, if◌then◌else◌, arith, Bool-cases, inl, inr,
}
use ffstream.Flag.Value.{Readers, Wrapped, uint64, string}
use ffstream.Flag.Parser.{GenericOption, Parser, parse}
use ffstream.Flag.Parser.Update.{grouped}
use ffstream.Flag.Parser.Handles.{At, parse-At}
use ffstream.Command.Options.{index_safe}
use ffstream.Command.Resources.{Fatal}
use ffstream.Command.Flags.{
  encoder_both_flag, encoder_video_flag, encoder_audio_flag, bitrate_video_flag, bitrate_audio_flag,
}

pub record Encoder : Type 0 where
  pub codec : String
  pub bit_rate : ℕ
  pub options : List String

pub record Encoders : Type 0 where
  pub video_encoder : Encoder
  pub audio_encoder : Encoder

unfoldable pub zero_encoder : Encoder
zero_encoder = record { codec = ""; bit_rate = 0; options = [] }

-- The handles' `Value()`, by the type that the handle was made for.
unfoldable pub string_value : {Level : Type 0} → Wrapped Level → String
string_value (string s) = s
string_value _ = ""

unfoldable pub uint64_value : {Level : Type 0} → Wrapped Level → ℕ
uint64_value (uint64 n) = n
uint64_value _ = 0

module _ {Level : Type 0} where
  -- The first `if`, for both encoders alike.
  unfoldable pub encoder_both : GenericOption Level → Encoder
  unfolding string_value index_safe zero_encoder
  encoder_both opt =
      let v = string_value opt.wrapped in
      if str_eq v "" then zero_encoder else record {
        codec = v;
        bit_rate = 0;
        options = index_safe [] opt.collected_unknown_options 0;
      }

  -- The other two: the encoder so far is replaced if the flag was given.
  unfoldable pub encoder_own :
      GenericOption Level → GenericOption Level → Encoder → Result Fatal Encoder
  encoder_own opt bitrate before =
      let v = string_value opt.wrapped in
      let first = get_elem? opt.collected_unknown_options 0 in
      if str_eq v ""
      then ok before
      else must_find first >>= λ options.
          ok (record { codec = v; bit_rate = uint64_value bitrate.wrapped; options = options })

  unfoldable pub parse_encoders : Parser Level → Result Fatal Encoders
  parse_encoders p = do
    both ← must_find (get_elem? p.options encoder_both_flag)
    video ← must_find (get_elem? p.options encoder_video_flag)
    audio ← must_find (get_elem? p.options encoder_audio_flag)
    video_rate ← must_find (get_elem? p.options bitrate_video_flag)
    audio_rate ← must_find (get_elem? p.options bitrate_audio_flag)
    video_encoder ← encoder_own video video_rate (encoder_both both)
    audio_encoder ← encoder_own audio audio_rate (encoder_both both)
    ok (record { video_encoder = video_encoder; audio_encoder = audio_encoder })

abbrev IsBacked : {Level : Type 0} → Wrapped Level → List (List String) → Type 0
IsBacked (string s) groups = str_eq s "" ≡ false → 0 < length groups
IsBacked _ groups = Unit {0}

-- A collecting option that has a group once it holds a text.
abbrev pub IsEncoderOption : {Level : Type 0} → GenericOption Level → Type 0
IsEncoderOption opt =
    (opt.collect_unknown_options ≡ true) × IsBacked opt.wrapped opt.collected_unknown_options

IsBacked-of_pos :
    {Level : Type 0} (w : Wrapped Level) (groups : List (List String))
    → 0 < length groups
    → IsBacked w groups
IsBacked-of_pos (string s) groups h = λ e. h
IsBacked-of_pos _ groups h = tt

grouped_pos :
    (c : Bool) (groups : List (List String)) (next : List String)
    → c ≡ true
    → 0 < length (grouped c groups next)
grouped_pos true groups next e = omega (arith, length-append groups (next ∷ []))
grouped_pos false groups next e = absurd (cc)

first_group :
    {Level : Type 0} (w : Wrapped Level) (groups : List (List String))
    → IsBacked w groups
    → str_eq (string_value w) "" ≡ false
    → 0 < length groups
unfolding string_value
first_group (string s) groups b e = b e
first_group _ groups b e = absurd (cc)

encoder_own_total :
    {Level : Type 0} (opt bitrate : GenericOption Level) (before : Encoder)
    → IsEncoderOption opt
    → (e : Encoder) × (encoder_own opt bitrate before ≡ ok e)
unfolding encoder_own
encoder_own_total opt bitrate before (c, b) =
    elim (Bool-cases (str_eq (string_value opt.wrapped) "")) [
      | inl e ↦ (before, rw e)
      | inr e ↦
          let (options, f) =
            get_elem?_of_lt opt.collected_unknown_options 0
              (first_group opt.wrapped opt.collected_unknown_options b e) in
          (
            record {
              codec = string_value opt.wrapped;
              bit_rate = uint64_value bitrate.wrapped;
              options = options;
            },
            rw (e, f),
          )
    ]

abbrev pub IsAny : {Level : Type 0} → GenericOption Level → Type 0
IsAny opt = Unit {0}

-- The options that the encoders are read from are there, and those of one stream are backed.
pub record HasEncoderFlags {Level : Type 0} (p : Parser Level) : Type 0 where
  pub both : At IsAny p encoder_both_flag
  pub video : At IsEncoderOption p encoder_video_flag
  pub audio : At IsEncoderOption p encoder_audio_flag
  pub video_rate : At IsAny p bitrate_video_flag
  pub audio_rate : At IsAny p bitrate_audio_flag

parse_encoders_total :
    {Level : Type 0} (p : Parser Level)
    → HasEncoderFlags p
    → (e : Encoders) × (parse_encoders p ≡ ok e)
unfolding parse_encoders
parse_encoders_total p has =
    let (both, b, _) = has.both in
    let (video, v, vq) = has.video in
    let (audio, a, aq) = has.audio in
    let (video_rate, vr, _) = has.video_rate in
    let (audio_rate, ar, _) = has.audio_rate in
    let (video_encoder, ve) = encoder_own_total video video_rate (encoder_both both) vq in
    let (audio_encoder, ae) = encoder_own_total audio audio_rate (encoder_both both) aq in
    (
      record { video_encoder = video_encoder; audio_encoder = audio_encoder },
      rw (b, v, a, vr, ar) (rw (ve, ae)),
    )

-- After a parse of any arguments, `parseFlags` has the first group of an encoder's options wherever
-- it takes one: choosing the encoders never panics.
pub parse-parse_encoders :
    {Level : Type 0} (readers : Readers Level) (p : Parser Level) (args : List String)
    → HasEncoderFlags p
    → (e : Encoders) × (parse_encoders (parse readers p args).0 ≡ ok e)
parse-parse_encoders readers p args has = parse_encoders_total (parse readers p args).0 (record {
  both = any encoder_both_flag has.both;
  video = own encoder_video_flag has.video;
  audio = own encoder_audio_flag has.audio;
  video_rate = any bitrate_video_flag has.video_rate;
  audio_rate = any bitrate_audio_flag has.audio_rate;
})
  where
    any : (handle : ℕ) → At IsAny p handle → At IsAny (parse readers p args).0 handle
    any = λ handle. parse-At readers IsAny (λ opt next input v e q. tt) p args handle

    own :
        (handle : ℕ)
        → At IsEncoderOption p handle
        → At IsEncoderOption (parse readers p args).0 handle
    own = λ handle.
        parse-At readers IsEncoderOption
          (λ opt next input v e q. (
            q.0,
            IsBacked-of_pos v
                (grouped opt.collect_unknown_options opt.collected_unknown_options next)
                (grouped_pos opt.collect_unknown_options opt.collected_unknown_options next q.0),
          ))
          p args handle
