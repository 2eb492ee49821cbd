-- ===== src/Command/Flags.antt =====
-- cmd/ffstream/flag.go: the options that `parseFlags` registers, in its order.
use ffstream.Base.{ℕ, String, Bool, true, false, List, [], ◌∷◌, ℤ, pos}
use ffstream.Flag.Value.{
  Wrapped, uint64, string, strings_as_separate_flags, bool, log_level, duration,
}
use ffstream.Flag.Parser.{Parser, new_parser, add_parameter, add_flag}

pub data Registration (Level : Type 0) : Type 0 where
  parameter : String → Bool → Wrapped Level → Registration Level
  flag : String → Bool → Registration Level

module _ {Level : Type 0} where
  unfoldable pub register : Parser Level → List (Registration Level) → Parser Level
  unfolding add_parameter add_flag
  register p [] = p
  register p (parameter name collect v ∷ rest) = register (add_parameter p name collect v).0 rest
  register p (flag name collect ∷ rest) = register (add_flag p name collect).0 rest

-- `time.Minute`, in nanoseconds
abbrev minute : ℕ
minute = 60_000_000_000

-- The calls of `AddParameter` and `AddFlag`. `info` is the logger's `LevelInfo`, and `retry` is
-- `ffstream.DefaultConfig().InputRetryInterval`.
unfoldable pub registrations : {Level : Type 0} → Level → ℤ → List (Registration Level)
registrations info retry =
    parameter "hwaccel" false (string "none")
    ∷ parameter "i" true (strings_as_separate_flags [])
    ∷ parameter "c" true (string "copy")
    ∷ parameter "c:v" true (string "")
    ∷ parameter "c:a" true (string "")
    ∷ parameter "b:v" true (uint64 0)
    ∷ parameter "b:a" true (uint64 0)
    ∷ parameter "listen_control" false (string "")
    ∷ parameter "listen_net_pprof" false (string "")
    ∷ parameter "v" false (log_level info)
    ∷ parameter "logstash_addr" false (string "")
    ∷ parameter "sentry_dsn" false (string "")
    ∷ parameter "log_file" false (string "")
    ∷ parameter "lock_timeout" false (duration (pos minute))
    ∷ parameter "insecure_debug" false (bool false)
    ∷ parameter "remove_secrets_from_logs" false (bool false)
    ∷ parameter "filter" false (strings_as_separate_flags [])
    ∷ parameter "filter_complex" false (strings_as_separate_flags [])
    ∷ parameter "map" false (strings_as_separate_flags [])
    ∷ parameter "mux_mode" false (string "forbid")
    ∷ parameter "auto_bitrate" false (bool false)
    ∷ parameter "auto_bitrate_max_height" false (uint64 1080)
    ∷ parameter "auto_bitrate_min_height" false (uint64 480)
    ∷ parameter "auto_bitrate_auto_bypass" false (bool true)
    ∷ parameter "retry_input_timeout_on_failure" false (duration retry)
    ∷ parameter "retry_output_timeout_on_failure" false (duration (pos 0))
    ∷ flag "version" false
    ∷ flag "demuxers" false
    ∷ flag "encoders" false
    ∷ flag "decoders" false
    ∷ []

unfoldable pub flags_parser : {Level : Type 0} → Level → ℤ → Parser Level
unfolding register registrations new_parser
flags_parser info retry = register new_parser (registrations info retry)

-- The handles, as positions.
abbrev pub inputs_flag : ℕ
inputs_flag = 1

abbrev pub encoder_both_flag : ℕ
encoder_both_flag = 2

abbrev pub encoder_video_flag : ℕ
encoder_video_flag = 3

abbrev pub encoder_audio_flag : ℕ
encoder_audio_flag = 4

abbrev pub bitrate_video_flag : ℕ
bitrate_video_flag = 5

abbrev pub bitrate_audio_flag : ℕ
bitrate_audio_flag = 6
