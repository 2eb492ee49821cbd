-- ===== src/Stream/Start/Requests.antt =====
-- ffstream.go: what the goroutines of `Start` ask the multiplexer for.
use mathlib.Core.Option.{some-injective}
use ffstream.Base.{
  ℕ, suc, ◌≡◌, ◌⊎◌, inl, inr, refl, sym, ◌∙◌, ap, Bool, Option, none, some, List, [], ◌∷◌, All,
  All-append, get_elem?, subst, arith,
}
use ffstream.Transcoder.{Resolution}
use ffstream.Sender.{SenderKey}
use ffstream.Sender.Output.{
  MuxMode, undefined_mode, forbid, same_output_same_tracks, same_output_different_tracks,
  different_outputs_same_tracks, different_outputs_same_tracks_split_av, unknown_mode,
}
use ffstream.Stream.Outputs.{name_copy}
use ffstream.Stream.Start.MoreOutputs.{
  Creation, no_resolution, creation, output_key, bypass_key, ask, Step, round, create, bypass,
  Steps, done, more,
}

output_key_lem :
    (mode : MuxMode) (key k : SenderKey)
    → output_key mode key ≡ some k
    → (k.video_codec ≡ key.video_codec) × (k.video_resolution ≡ key.video_resolution)
unfolding output_key
output_key_lem different_outputs_same_tracks key k e =
    let i = some-injective _ k e in
    (ap (λ x. x.video_codec) (sym i), ap (λ x. x.video_resolution) (sym i))
output_key_lem different_outputs_same_tracks_split_av key k e =
    let i = some-injective _ k e in
    (ap (λ x. x.video_codec) (sym i), ap (λ x. x.video_resolution) (sym i))
output_key_lem undefined_mode key k e = absurd (cc)
output_key_lem forbid key k e = absurd (cc)
output_key_lem same_output_same_tracks key k e = absurd (cc)
output_key_lem same_output_different_tracks key k e = absurd (cc)
output_key_lem (unknown_mode m) key k e = absurd (cc)

bypass_key_lem :
    (mode : MuxMode) (key k : SenderKey)
    → bypass_key mode key ≡ some k
    → (k.video_codec ≡ name_copy) × (k.video_resolution ≡ no_resolution)
unfolding bypass_key
bypass_key_lem different_outputs_same_tracks key k e =
    let i = some-injective _ k e in
    (ap (λ x. x.video_codec) (sym i), ap (λ x. x.video_resolution) (sym i))
bypass_key_lem different_outputs_same_tracks_split_av key k e =
    let i = some-injective _ k e in
    (ap (λ x. x.video_codec) (sym i), ap (λ x. x.video_resolution) (sym i))
bypass_key_lem undefined_mode key k e = absurd (cc)
bypass_key_lem forbid key k e = absurd (cc)
bypass_key_lem same_output_same_tracks key k e = absurd (cc)
bypass_key_lem same_output_different_tracks key k e = absurd (cc)
bypass_key_lem (unknown_mode m) key k e = absurd (cc)

module _ (first : SenderKey) (P : Resolution → Type 0) where
  -- A key for one of the resolutions, or for the bypass.
  pub IsWanted : SenderKey → Type 0
  IsWanted key =
      ((key.video_codec ≡ first.video_codec) × P key.video_resolution)
      ⊎ ((key.video_codec ≡ name_copy) × (key.video_resolution ≡ no_resolution))

  record IsSound (c : Creation) : Type 0 where
    codec : c.sender_key.video_codec ≡ first.video_codec
    rest : All P c.rounds
    current : (c.waiting ≡ 0) ⊎ P c.sender_key.video_resolution
    wanted : All IsWanted c.requests

module _ (mode : MuxMode) (first : SenderKey) (P : Resolution → Type 0) where
  All-ask :
      (keys : List SenderKey) (key : Option SenderKey)
      → All (IsWanted first P) keys
      → ((k : SenderKey) → key ≡ some k → IsWanted first P k)
      → All (IsWanted first P) (ask keys key)
  unfolding ask
  All-ask keys none h w = h
  All-ask keys (some k) h w = All-append (IsWanted first P) keys (k ∷ []) h (w k refl, tt)

  Step-IsSound : (c c' : Creation) → Step mode c c' → IsSound first P c → IsSound first P c'
  unfolding IsWanted
  Step-IsSound _ _ (round key r rs n b keys) h = record {
    codec = h.codec;
    rest = h.rest.1;
    current = inr h.rest.0;
    wanted = h.wanted;
  }
  Step-IsSound _ _ (create key rs n b keys) h = elim h.current [
    | inl e ↦ absurd (omega arith)
    | inr p ↦ record {
      codec = h.codec;
      rest = h.rest;
      current = inr p;
      wanted = All-ask keys (output_key mode key) h.wanted (λ k e.
          let (codec, resolution) = output_key_lem mode key k e in
          inl (codec ∙ h.codec, subst P (sym resolution) p));
    }
  ]
  Step-IsSound _ _ (bypass key n keys) h = record {
    codec = h.codec;
    rest = tt;
    current = h.current;
    wanted = All-ask keys (bypass_key mode key) h.wanted (λ k e. inr (bypass_key_lem mode key k e));
  }

  steps-IsSound :
      (n : ℕ) (c c' : Creation) → Steps mode n c c' → IsSound first P c → IsSound first P c'
  steps-IsSound _ _ _ (done c) h = h
  steps-IsSound _ _ _ (more n c c' c'' step steps) h =
      steps-IsSound n c' c'' steps (Step-IsSound c c' step h)

All-own :
    (xs : List Resolution) (P : Resolution → Type 0)
    → ((i : ℕ) (r : Resolution) → get_elem? xs i ≡ some r → P r)
    → All P xs
All-own [] P h = tt
All-own (x ∷ xs) P h = (h 0 x refl, All-own xs P (λ i. h (suc i)))

-- Is one of the resolutions.
pub IsAmong : List Resolution → Resolution → Type 0
IsAmong outputs r = (i : ℕ) × (get_elem? outputs i ≡ some r)

-- Whatever the order of the rounds and the goroutines, the multiplexer is asked for nothing but
-- outputs of the given video codec and one of the resolutions, and for one that copies its video.
pub steps-IsWanted :
    (mode : MuxMode) (key : SenderKey) (outputs : List Resolution) (auto_by_pass : Bool) (n : ℕ)
    (c : Creation)
    → Steps mode n (creation key outputs auto_by_pass) c
    → All (IsWanted key (IsAmong outputs)) c.requests
unfolding IsAmong
steps-IsWanted mode key outputs b n c steps =
    let P = IsAmong outputs in
    (steps-IsSound mode key P n (creation key outputs b) c steps (record {
      codec = refl;
      rest = All-own outputs P (λ i r e. (i, e));
      current = inl refl;
      wanted = tt;
    })).wanted
