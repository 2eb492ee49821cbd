-- ===== src/Stream/Start/WaitGroup/Laws.antt =====
-- ffstream.go: what is true when `Start` goes on behind `wg.Wait`.
use ffstream.Base.{
  ℕ, zero, suc, ◌+◌, ◌≡◌, ◌⊎◌, inl, inr, refl, ap, ◌∙◌, Bool, true, false, List, [], ◌∷◌, length,
  if◌then◌else◌, length-append, arith,
}
use ffstream.Transcoder.{Resolution}
use ffstream.Sender.{SenderKey}
use ffstream.Sender.Output.{
  MuxMode, undefined_mode, forbid, same_output_same_tracks, same_output_different_tracks,
  different_outputs_same_tracks, different_outputs_same_tracks_split_av, unknown_mode,
}
use ffstream.Stream.Start.MoreOutputs.{at, output_key, bypass_key, ask, IsFinished}
use ffstream.Stream.Start.WaitGroup.{
  Phase, looping, waiting, passed, panicked, Group, group, group_start, GroupMove, add_round,
  add_bypass, begin_output, begin_bypass, returned, done_below_zero, waited, GroupMoves,
  group_unmoved, group_moved,
}

-- The modes in which each output has a multiplexer's output of its own.
abbrev pub has_outputs : MuxMode → Bool
has_outputs different_outputs_same_tracks = true
has_outputs different_outputs_same_tracks_split_av = true
has_outputs _ = false

-- A Boolean as a number.
abbrev pub one_if : Bool → ℕ
one_if b = if b then 1 else 0

length-ask_output :
    (mode : MuxMode) (keys : List SenderKey) (key : SenderKey)
    → length (ask keys (output_key mode key)) ≡ length keys + one_if (has_outputs mode)
unfolding ask output_key
length-ask_output undefined_mode keys key = omega arith
length-ask_output forbid keys key = omega arith
length-ask_output same_output_same_tracks keys key = omega arith
length-ask_output same_output_different_tracks keys key = omega arith
length-ask_output (unknown_mode n) keys key = omega arith
length-ask_output different_outputs_same_tracks keys key = length-append keys (_ ∷ [])
length-ask_output different_outputs_same_tracks_split_av keys key = length-append keys (_ ∷ [])

length-ask_bypass :
    (mode : MuxMode) (keys : List SenderKey) (key : SenderKey)
    → length (ask keys (bypass_key mode key)) ≡ length keys + one_if (has_outputs mode)
unfolding ask bypass_key
length-ask_bypass undefined_mode keys key = omega arith
length-ask_bypass forbid keys key = omega arith
length-ask_bypass same_output_same_tracks keys key = omega arith
length-ask_bypass same_output_different_tracks keys key = omega arith
length-ask_bypass (unknown_mode n) keys key = omega arith
length-ask_bypass different_outputs_same_tracks keys key = length-append keys (_ ∷ [])
length-ask_bypass different_outputs_same_tracks_split_av keys key = length-append keys (_ ∷ [])

module _ (mode : MuxMode) where
  -- What is true in each phase of the wait group.
  Counts : Phase → List Resolution → ℕ → Bool → ℕ → ℕ → Type 0
  Counts looping rs n b g k = g ≡ n + k
  Counts waiting rs n b g k = (rs ≡ []) × (g ≡ n + k + one_if b)
  Counts passed rs n b g k = (rs ≡ []) × (n ≡ 0) × (b ≡ false) × (k ≡ 0)
  Counts panicked rs n b g k = ⊥

  -- The goroutines that have not begun, of so many, and those that have, which have asked once each.
  record IsCounted (total : ℕ) (x : Group) : Type 0 where
    counts :
        Counts x.phase x.created.rounds x.created.waiting x.created.auto_by_pass x.counter x.running
    asked :
        (begun : ℕ) × (begun
            + x.created.waiting
            + length x.created.rounds
            + one_if x.created.auto_by_pass
          ≡ total)
        × (length x.created.requests ≡ (if has_outputs mode then begun else 0))

  begin-Counts :
      (rs : List Resolution) (n : ℕ) (b : Bool) (p : Phase) (g k : ℕ)
      → Counts p rs (suc n) b g k
      → Counts p rs n b g (suc k)
  unfolding Counts
  begin-Counts rs n b looping g k c = omega arith
  begin-Counts rs n b waiting g k (none_left, c) = (none_left, omega arith)
  begin-Counts rs n b passed g k (none_left, c, d, e) = absurd (omega arith)
  begin-Counts rs n b panicked g k c = c

  return-Counts :
      (rs : List Resolution) (n : ℕ) (b : Bool) (p : Phase) (g k : ℕ)
      → Counts p rs n b (suc g) (suc k)
      → Counts p rs n b g k
  unfolding Counts
  return-Counts rs n b looping g k c = omega arith
  return-Counts rs n b waiting g k (none_left, c) = (none_left, omega arith)
  return-Counts rs n b passed g k (none_left, c, d, e) = absurd (omega arith)
  return-Counts rs n b panicked g k c = c

  never_below_zero :
      (rs : List Resolution) (n : ℕ) (b : Bool) (p : Phase) (k : ℕ) → Counts p rs n b 0 (suc k) → ⊥
  unfolding Counts
  never_below_zero rs n b looping k c = omega arith
  never_below_zero rs n b waiting k (none_left, c) = omega arith
  never_below_zero rs n b passed k (none_left, c, d, e) = omega arith
  never_below_zero rs n b panicked k c = c

  one_if-zero : (b : Bool) → one_if b ≡ 0 → b ≡ false
  one_if-zero true e = absurd (omega arith)
  one_if-zero false e = refl

  move-IsCounted :
      (total : ℕ) (x y : Group) → GroupMove mode x y → IsCounted total x → IsCounted total y
  unfolding Counts
  move-IsCounted total _ _ (add_round key r rs n b keys g k) h =
      let c = h.counts in
      let (begun, e, asked) = h.asked in
      record { counts = omega arith; asked = (begun, omega arith, asked) }
  move-IsCounted total _ _ (add_bypass key n b keys g k) h =
      let c = h.counts in record { counts = (refl, omega arith); asked = h.asked }
  move-IsCounted total _ _ (begin_output key rs n b keys p g k) h =
      let (begun, e, asked) = h.asked in
      let l = length-ask_output mode keys key in
      record {
        counts = begin-Counts rs n b p g k h.counts;
        asked = (suc begun, omega arith, ground arith);
      }
  move-IsCounted total _ _ (begin_bypass key n keys g k) h =
      let (begun, e, asked) = h.asked in
      let l = length-ask_bypass mode keys key in
      let c = h.counts.1 in
      record { counts = (refl, omega arith); asked = (suc begun, omega arith, ground arith) }
  move-IsCounted total _ _ (returned c p g k) h = record {
    counts = return-Counts c.rounds c.waiting c.auto_by_pass p g k h.counts;
    asked = h.asked;
  }
  move-IsCounted total _ _ (done_below_zero c p k) h =
      absurd (never_below_zero c.rounds c.waiting c.auto_by_pass p k h.counts)
  move-IsCounted total _ _ (waited c k) h =
      let (none_left, e) = h.counts in
      record {
        counts = (none_left, omega arith, one_if-zero c.auto_by_pass (omega arith), omega arith);
        asked = h.asked;
      }

  moves-IsCounted :
      (total : ℕ) (x y : Group) → GroupMoves mode x y → IsCounted total x → IsCounted total y
  moves-IsCounted total _ _ (group_unmoved x) h = h
  moves-IsCounted total _ _ (group_moved x y z moves move) h =
      move-IsCounted total y z move (moves-IsCounted total x y moves h)

  -- `Start` is behind `wg.Wait`: there is no round left, every goroutine has begun and returned, and
  -- where each output has one of the multiplexer there was a call for each.
  pub HasWaited : ℕ → Group → Type 0
  HasWaited total x =
      (x.phase ≡ passed)
      × IsFinished x.created
      × (x.running ≡ 0)
      × (length x.created.requests ≡ (if has_outputs mode then total else 0))

  -- `Start` is at `wg.Wait` or in front of it, and not stuck.
  pub GoesOn : Group → Type 0
  GoesOn x = ((x.phase ≡ looping) ⊎ (x.phase ≡ waiting)) × ((y : Group) × GroupMove mode x y)

  wait_or_move :
      (key : SenderKey) (rs : List Resolution) (n : ℕ) (b : Bool) (keys : List SenderKey)
      (p : Phase) (g k total : ℕ)
      → IsCounted total (group (at key rs n b keys) p g k)
      → HasWaited total (group (at key rs n b keys) p g k)
        ⊎ GoesOn (group (at key rs n b keys) p g k)
  unfolding Counts HasWaited GoesOn
  wait_or_move key (r ∷ rs) n b keys looping g k total h =
      inr (inl refl, (_, add_round key r rs n b keys g k))
  wait_or_move key [] n b keys looping g k total h =
      inr (inl refl, (_, add_bypass key n b keys g k))
  wait_or_move key (r ∷ rs) n b keys waiting g k total h = absurd (let e = h.counts.0 in cc)
  wait_or_move key [] (suc n) b keys waiting g k total h =
      inr (inr refl, (_, begin_output key [] n b keys waiting g k))
  wait_or_move key [] zero true keys waiting g k total h =
      inr (inr refl, (_, begin_bypass key 0 keys g k))
  wait_or_move key [] zero false keys waiting (suc g) (suc k) total h =
      inr (inr refl, (_, returned (at key [] 0 false keys) waiting g k))
  wait_or_move key [] zero false keys waiting zero (suc k) total h =
      absurd (let e = h.counts.1 in omega arith)
  wait_or_move key [] zero false keys waiting (suc g) zero total h =
      absurd (let e = h.counts.1 in omega arith)
  wait_or_move key [] zero false keys waiting zero zero total h =
      inr (inr refl, (_, waited (at key [] 0 false keys) 0))
  wait_or_move key rs n b keys passed g k total h =
      let (no_round, none_waiting, no_bypass, none_running) = h.counts in
      let (begun, e, asked) = h.asked in
      let l = ap length no_round in
      let z = ap one_if no_bypass in
      let all : begun ≡ total = omega arith in
      inl (
        refl,
        record { no_round = no_round; none_waiting = none_waiting; no_bypass = no_bypass },
        none_running,
        asked ∙ ap (λ m. if has_outputs mode then m else 0) all,
      )
  wait_or_move key rs n b keys panicked g k total h = absurd h.counts

  -- Whatever the order in which the goroutines begin and return, `Start` goes on behind `wg.Wait` only
  -- when all of them, one for each resolution and the one for the bypass, have returned, and in the modes
  -- of different outputs each has asked the multiplexer once. Until then some move is possible, and the
  -- counter of the wait group is never below 0.
  pub wait_group_lem :
      (key : SenderKey) (outputs : List Resolution) (auto_by_pass : Bool) (x : Group)
      → GroupMoves mode (group_start key outputs auto_by_pass) x
      → HasWaited (length outputs + one_if auto_by_pass) x ⊎ GoesOn x
  unfolding Counts
  wait_group_lem key outputs b x moves =
      let c = x.created in
      wait_or_move c.sender_key c.rounds c.waiting c.auto_by_pass c.requests x.phase x.counter
        x.running (length outputs + one_if b)
        (moves-IsCounted (length outputs + one_if b) (group_start key outputs b) x moves
          (record { counts = refl; asked = (0, omega arith, ground arith) }))
