-- ===== src/Stream/Start/MoreOutputs.antt =====
-- ffstream.go: the outputs that `Start` creates for the auto-bitrate. A round of the loop writes the
-- shared `senderKey` and starts a goroutine, which reads the key when it runs, and not its argument.
-- How long its call takes and how `Start` waits for it is left to WaitGroup.
use ffstream.Base.{ℕ, suc, ◌≡◌, Bool, true, false, Option, none, some, List, [], ◌∷◌, snoc}
use ffstream.Transcoder.{Resolution}
use ffstream.Sender.{SenderKey}
use ffstream.Sender.Output.{
  MuxMode, different_outputs_same_tracks, different_outputs_same_tracks_split_av,
}
use ffstream.Stream.Outputs.{name_copy}

abbrev pub no_resolution : Resolution
no_resolution = record { width = 0; height = 0 }

-- What a goroutine of the loop gives to `GetOrCreateOutput`, by the mode of the multiplexer.
unfoldable pub output_key : MuxMode → SenderKey → Option SenderKey
output_key different_outputs_same_tracks key = some key
output_key different_outputs_same_tracks_split_av key = some (record {
  audio_codec = "";
  audio_sample_rate = 0;
  video_codec = key.video_codec;
  video_resolution = key.video_resolution;
})
output_key _ key = none

-- The same for the output that passes its input by.
unfoldable pub bypass_key : MuxMode → SenderKey → Option SenderKey
bypass_key different_outputs_same_tracks key = some (record {
  audio_codec = key.audio_codec;
  audio_sample_rate = key.audio_sample_rate;
  video_codec = name_copy;
  video_resolution = no_resolution;
})
bypass_key different_outputs_same_tracks_split_av key = some (record {
  audio_codec = "";
  audio_sample_rate = 0;
  video_codec = name_copy;
  video_resolution = no_resolution;
})
bypass_key _ key = none

-- The shared key, the rounds that are left, how many goroutines of the loop have not run yet, whether
-- the one for the bypass has not, and what the multiplexer was asked for.
pub record Creation : Type 0 where
  pub sender_key : SenderKey
  pub rounds : List Resolution
  pub waiting : ℕ
  pub auto_by_pass : Bool
  pub requests : List SenderKey

unfoldable pub ask : List SenderKey → Option SenderKey → List SenderKey
ask keys none = keys
ask keys (some key) = snoc keys key

abbrev pub with_resolution : SenderKey → Resolution → SenderKey
with_resolution key r = record key { video_resolution = r }

abbrev pub at : SenderKey → List Resolution → ℕ → Bool → List SenderKey → Creation
at key rs n b keys = record {
  sender_key = key;
  rounds = rs;
  waiting = n;
  auto_by_pass = b;
  requests = keys;
}

abbrev pub creation : SenderKey → List Resolution → Bool → Creation
creation key outputs auto_by_pass = at key outputs 0 auto_by_pass []

-- A round of the loop, a goroutine of it, and the one for the bypass, which comes behind the loop.
pub data Step (mode : MuxMode) : Creation → Creation → Type 0 where
  round :
      (key : SenderKey) (r : Resolution) (rs : List Resolution) (n : ℕ) (b : Bool)
      (keys : List SenderKey)
      → Step mode (at key (r ∷ rs) n b keys) (at (with_resolution key r) rs (suc n) b keys)
  create :
      (key : SenderKey) (rs : List Resolution) (n : ℕ) (b : Bool) (keys : List SenderKey)
      → Step mode (at key rs (suc n) b keys) (at key rs n b (ask keys (output_key mode key)))
  bypass :
      (key : SenderKey) (n : ℕ) (keys : List SenderKey)
      → Step mode (at key [] n true keys) (at key [] n false (ask keys (bypass_key mode key)))

-- So many steps, in any order.
pub data Steps (mode : MuxMode) : ℕ → Creation → Creation → Type 0 where
  done : (c : Creation) → Steps mode 0 c c
  more :
      (n : ℕ) (c c' c'' : Creation)
      → Step mode c c'
      → Steps mode n c' c''
      → Steps mode (suc n) c c''

-- Where `wg.Wait` returns.
pub record IsFinished (c : Creation) : Type 0 where
  pub no_round : c.rounds ≡ []
  pub none_waiting : c.waiting ≡ 0
  pub no_bypass : c.auto_by_pass ≡ false
