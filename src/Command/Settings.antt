-- ===== src/Command/Settings.antt =====
-- cmd/ffstream/flag.go: the flags that `parseFlags` gives, how it ends without them, and the
-- configuration of the auto-bitrate.
use ffstream.Base.{
  ℕ, String, Bool, true, false, Option, none, some, List, [], ◌∷◌, ℤ, u32, Result, ok, err, panic,
  ◌>>=◌, must_find, if◌then◌else◌,
}
use ffstream.Flag.Value.{Wrapped, bool, log_level, duration}
use ffstream.Flag.Parser.{ParseError}
use ffstream.Resource.{Resource}
use ffstream.Sender.Output.{MuxMode, undefined_mode, forbid}
use ffstream.Command.Resources.{Fatal, unknown_mux_mode, unknown_video_codec}
use ffstream.Command.Encoders.{Encoder}

-- What is printed before the program exits with 0.
pub data Info : Type 0 where
  build_info : Info
  demuxers_info : Info
  encoders_info : Info
  decoders_info : Info

-- How `parseFlags` ends without flags.
pub data Stop : Type 0 where
  not_parsed : ParseError → Stop
  exits : Info → Stop
  fatal : Fatal → Stop

-- The library's part: the names of the modes, the codecs, and the configuration of the auto-bitrate,
-- of which `Rest` is what the program leaves at the default. `none` is nil.
pub record FlagsApi : Type 1 where
  pub Codec : Type 0
  pub Rung : Type 0
  pub Rest : Type 0
  pub mux_mode_from_string : String → MuxMode
  pub codec_of : String → Option Codec
  pub default_config : Codec → List Rung × Rest
  pub max_height : List Rung → ℕ → List Rung
  pub min_height : List Rung → ℕ → List Rung
  pub best : List Rung → Option Rung
  pub worst : List Rung → Option Rung
  pub bit_rate_high : Rung → ℕ
  pub bit_rate_low : Rung → ℕ

-- `streammuxtypes.AutoBitRateVideoConfig`
pub record AutoBitRateVideoConfig (api : FlagsApi) : Type 0 where
  pub resolutions_and_bit_rates : List api.Rung
  pub auto_by_pass : Bool
  pub max_bit_rate : ℕ
  pub min_bit_rate : ℕ
  pub rest : api.Rest

pub record Flags (api : FlagsApi) (Level : Type 0) : Type 0 where
  pub hw_accel_global : String
  pub inputs : List Resource
  pub listen_control_socket : String
  pub listen_net_pprof : String
  pub logger_level : Option Level
  pub logstash_addr : String
  pub sentry_dsn : String
  pub log_file : String
  pub lock_timeout : ℤ
  pub insecure_debug : Bool
  pub remove_secrets_from_logs : Bool
  pub video_encoder : Encoder
  pub audio_encoder : Encoder
  pub mux_mode : MuxMode
  pub auto_bit_rate : Option (AutoBitRateVideoConfig api)
  pub retry_input_timeout_on_failure : ℤ
  pub retry_output_timeout_on_failure : ℤ
  pub outputs : List Resource

-- The handles' `Value()`, by the type that the handle was made for.
unfoldable pub bool_value : {Level : Type 0} → Wrapped Level → Bool
bool_value (bool b) = b
bool_value _ = false

unfoldable pub duration_value : {Level : Type 0} → Wrapped Level → ℤ
duration_value (duration d) = d
duration_value _ = ℤ.pos 0

unfoldable pub level_value : {Level : Type 0} → Wrapped Level → Option Level
level_value (log_level l) = some l
level_value _ = none

-- What is printed for the first of the four switches that is given.
unfoldable pub info_of : Bool → Bool → Bool → Bool → Option Info
info_of true _ _ _ = some build_info
info_of false true _ _ = some demuxers_info
info_of false false true _ = some encoders_info
info_of false false false true = some decoders_info
info_of false false false false = none

abbrev pub exit_with : Option Info → Result Stop (Unit {0})
exit_with none = ok tt
exit_with (some info) = err (exits info)

-- `fatal` ends the program.
abbrev pub or_fatal : {A : Type 0} → Result Fatal A → Result Stop A
or_fatal (ok a) = ok a
or_fatal (err e) = err (fatal e)
or_fatal panic = panic

abbrev pub fatal_unless : Bool → Fatal → Result Stop (Unit {0})
fatal_unless true e = ok tt
fatal_unless false e = err (fatal e)

abbrev pub checked_mode : String → MuxMode → Result Stop MuxMode
checked_mode name undefined_mode = err (fatal (unknown_mux_mode name))
checked_mode name mode = ok mode

unfoldable pub is_forbid : MuxMode → Bool
is_forbid forbid = true
is_forbid _ = false

module _ (api : FlagsApi) where
  abbrev known_codec : String → Option api.Codec → Result Stop api.Codec
  known_codec name none = err (fatal (unknown_video_codec name))
  known_codec name (some c) = ok c

  -- One rung alone is kept where there is one output for all.
  unfoldable pub rungs_of : MuxMode → List api.Rung → Result Stop (List api.Rung)
  unfolding is_forbid
  rungs_of mode rungs =
      if is_forbid mode then (must_find (api.best rungs) >>= λ rung. ok (rung ∷ [])) else ok rungs

  -- The end of `parseFlags`: a configuration without a rung is a panic, since `Best` gives nil.
  unfoldable pub auto_bit_rate_config :
      String → MuxMode → ℕ → ℕ → Bool → Result Stop (AutoBitRateVideoConfig api)
  unfolding rungs_of u32
  auto_bit_rate_config codec mode top bottom bypass = do
    c ← known_codec codec (api.codec_of codec)
    let (all, rest) = api.default_config c
    let between = api.min_height (api.max_height all (u32 top)) (u32 bottom)
    rungs ← rungs_of mode between
    highest ← must_find (api.best rungs)
    lowest ← must_find (api.worst rungs)
    ok (record {
      resolutions_and_bit_rates = rungs;
      auto_by_pass = bypass;
      max_bit_rate = api.bit_rate_high highest;
      min_bit_rate = api.bit_rate_low lowest;
      rest = rest;
    })
