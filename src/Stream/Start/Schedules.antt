-- ===== src/Stream/Start/Schedules.antt =====
-- ffstream.go: the orders in which the goroutines of `Start` may run.
use ffstream.Base.{
  ℕ, zero, suc, ◌+◌, ◌*◌, ◌≡◌, refl, subst, Bool, false, List, [], ◌∷◌, snoc, length, All,
  All-append, length-append, arith,
}
use ffstream.Transcoder.{Resolution}
use ffstream.Sender.{SenderKey}
use ffstream.Sender.Output.{MuxMode, different_outputs_same_tracks}
use ffstream.Stream.Start.MoreOutputs.{
  Creation, with_resolution, at, creation, output_key, ask, round, create, Steps, done, more,
  IsFinished,
}

module _ (mode : MuxMode) where
  -- The goroutines that wait ask for the key as it stands.
  unfoldable asked : SenderKey → ℕ → List SenderKey → List SenderKey
  asked key zero keys = keys
  asked key (suc n) keys = asked key n (ask keys (output_key mode key))

  rounds_first :
      (key : SenderKey) (rs : List Resolution) (r : Resolution) (n : ℕ) (b : Bool)
      (keys : List SenderKey) (k m w : ℕ) (c : Creation)
      → w ≡ suc (length rs) + n
      → m ≡ suc (length rs) + k
      → Steps mode k (at (with_resolution key r) [] w b keys) c
      → Steps mode m (at key (snoc rs r) n b keys) c
  rounds_first key rs r n b keys k zero w c e f steps = absurd (omega arith)
  rounds_first key [] r n b keys k (suc m) w c e f steps =
      let e' : w ≡ suc n = omega arith in
      let f' : k ≡ m = omega arith in
      more m _ _ c (round key r [] n b keys) (
        subst (λ x. Steps mode m (at (with_resolution key r) [] x b keys) c) e'
          (subst (λ x. Steps mode x (at (with_resolution key r) [] w b keys) c) f' steps))
  rounds_first key (q ∷ rs) r n b keys k (suc m) w c e f steps =
      more m _ _ c (round key q (snoc rs r) n b keys) (
        rounds_first (with_resolution key q) rs r (suc n) b keys k m w c (omega arith) (omega arith)
          steps)

  goroutines_then :
      (key : SenderKey) (n : ℕ) (keys : List SenderKey)
      → Steps mode n (at key [] n false keys) (at key [] 0 false (asked key n keys))
  unfolding asked
  goroutines_then key zero keys = done _
  goroutines_then key (suc n) keys =
      more n _ _ _ (create key [] n false keys)
        (goroutines_then key n (ask keys (output_key mode key)))

asked_lem :
    (key : SenderKey) (n : ℕ) (keys : List SenderKey)
    → All (λ k. k ≡ key) keys
    → All (λ k. k ≡ key) (asked different_outputs_same_tracks key n keys)
      × (length (asked different_outputs_same_tracks key n keys) ≡ n + length keys)
unfolding asked ask output_key
asked_lem key zero keys h = (h, omega arith)
asked_lem key (suc n) keys h =
    let (all, e) =
      asked_lem key n (snoc keys key) (All-append (λ k. k ≡ key) keys (key ∷ []) h (refl, tt)) in
    let e' = length-append keys (key ∷ []) in (all, omega arith)

-- Where each resolution is to have an output of its own, there is an order in which the goroutines,
-- which share the key, all ask for the last resolution, and none for any other.
pub late_goroutines :
    (key : SenderKey) (outputs : List Resolution) (last : Resolution)
    → (c : Creation) × Steps different_outputs_same_tracks
        (length (snoc outputs last) * 2)
        (creation key (snoc outputs last) false)
        c
      × IsFinished c
      × All (λ k. k ≡ with_resolution key last) c.requests
      × (length c.requests ≡ length (snoc outputs last))
late_goroutines key outputs last =
    let mode = different_outputs_same_tracks in
    let key' = with_resolution key last in
    let n = suc (length outputs) in
    let (all, e) = asked_lem key' n [] tt in
    let e' = length-append outputs (last ∷ []) in
    (
      at key' [] 0 false (asked mode key' n []),
      rounds_first mode key outputs last 0 false [] n (length (snoc outputs last) * 2) n _
          (omega arith) (omega arith) (goroutines_then mode key' n []),
      record { no_round = refl; none_waiting = refl; no_bypass = refl },
      all,
      omega arith,
    )
