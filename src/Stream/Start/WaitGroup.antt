-- ===== src/Stream/Start/WaitGroup.antt =====
-- ffstream.go: how `Start` waits for the goroutines that create its outputs. `wg.Add` comes before each
-- of them is started, `wg.Done` when it returns, after its call of `GetOrCreateOutput`, which may take
-- any time; `Start` goes on from `wg.Wait` once the counter is 0.
pub mod Laws
use ffstream.Base.{
  ℕ, zero, suc, ◌+◌, ◌≡◌, ◌⊎◌, inl, inr, refl, Bool, true, false, Option, none, some, List, [], ◌∷◌,
  length, if◌then◌else◌, length-append, arith,
}
use ffstream.Transcoder.{Resolution}
use ffstream.Sender.{SenderKey}
use ffstream.Sender.Output.{MuxMode}
use ffstream.Stream.Start.MoreOutputs.{
  Creation, with_resolution, at, creation, output_key, bypass_key, ask, IsFinished,
}

-- Where `Start` is: in the loop, at `wg.Wait`, or behind it. `sync.WaitGroup` panics where its counter
-- would be negative.
pub data Phase : Type 0 where
  looping : Phase
  waiting : Phase
  passed : Phase
  panicked : Phase

-- The creation of outputs with the counter of the wait group and the number of goroutines that have
-- called `GetOrCreateOutput` and have not returned.
pub record Group : Type 0 where
  pub created : Creation
  pub phase : Phase
  pub counter : ℕ
  pub running : ℕ

abbrev pub group : Creation → Phase → ℕ → ℕ → Group
group c p g k = record { created = c; phase = p; counter = g; running = k }

abbrev pub group_start : SenderKey → List Resolution → Bool → Group
group_start key outputs auto_by_pass = group (creation key outputs auto_by_pass) looping 0 0

-- A round of the loop, the end of the loop, which adds the goroutine for the bypass, the begin of a
-- goroutine of the loop or of that for the bypass, the return of one of them, and `wg.Wait`.
pub data GroupMove (mode : MuxMode) : Group → Group → Type 0 where
  add_round :
      (key : SenderKey) (r : Resolution) (rs : List Resolution) (n : ℕ) (b : Bool)
      (keys : List SenderKey) (g k : ℕ)
      → GroupMove mode
          (group (at key (r ∷ rs) n b keys) looping g k)
          (group (at (with_resolution key r) rs (suc n) b keys) looping (suc g) k)
  add_bypass :
      (key : SenderKey) (n : ℕ) (b : Bool) (keys : List SenderKey) (g k : ℕ)
      → GroupMove mode
          (group (at key [] n b keys) looping g k)
          (group (at key [] n b keys) waiting (g + (if b then 1 else 0)) k)
  begin_output :
      (key : SenderKey) (rs : List Resolution) (n : ℕ) (b : Bool) (keys : List SenderKey)
      (p : Phase) (g k : ℕ)
      → GroupMove mode
          (group (at key rs (suc n) b keys) p g k)
          (group (at key rs n b (ask keys (output_key mode key))) p g (suc k))
  begin_bypass :
      (key : SenderKey) (n : ℕ) (keys : List SenderKey) (g k : ℕ)
      → GroupMove mode
          (group (at key [] n true keys) waiting g k)
          (group (at key [] n false (ask keys (bypass_key mode key))) waiting g (suc k))
  returned :
      (c : Creation) (p : Phase) (g k : ℕ)
      → GroupMove mode (group c p (suc g) (suc k)) (group c p g k)
  done_below_zero :
      (c : Creation) (p : Phase) (k : ℕ)
      → GroupMove mode (group c p 0 (suc k)) (group c panicked 0 k)
  waited : (c : Creation) (k : ℕ) → GroupMove mode (group c waiting 0 k) (group c passed 0 k)

-- Any number of moves, in any order.
pub data GroupMoves (mode : MuxMode) : Group → Group → Type 0 where
  group_unmoved : (x : Group) → GroupMoves mode x x
  group_moved : (x y z : Group) → GroupMoves mode x y → GroupMove mode y z → GroupMoves mode x z
