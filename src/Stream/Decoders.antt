-- ===== src/Stream/Decoders.antt =====
-- pkg/ffstream/decoder_factory.go: the reset of the decoder factory.
use ffstream.Base.{Bool, true, false, List, [], ◌∷◌, ◌≡◌, refl, ℤ}

-- `Reset` of an audio normalizer and of the library's factory, which change the state that they share;
-- `false` is an error.
pub record DecodersApi : Type 1 where
  pub World : Type 0
  pub Normalizer : Type 0
  pub Naive : Type 0
  pub reset_normalizer : World → Normalizer → World × Bool
  pub reset_naive : World → Naive → World × Bool

-- The errors that `errors.Join` puts together: of an input's normalizer, or of the factory.
pub data ResetError : Type 0 where
  normalizer_failed : ℤ → ResetError
  naive_failed : ResetError

module _ (api : DecodersApi) where
  -- The map of normalizers, in the order of the loop.
  pub record DecoderFactory : Type 0 where
    pub naive : api.Naive
    pub audio_normalize : List (ℤ × api.Normalizer)

  unfoldable pub new_decoder_factory : api.Naive → DecoderFactory
  new_decoder_factory naive = record { naive = naive; audio_normalize = [] }

  abbrev pub error_if : ResetError → Bool → List ResetError → List ResetError
  error_if e true es = es
  error_if e false es = e ∷ es

  abbrev pub last_reset : api.World × Bool → api.World × List ResetError
  last_reset (w, done) = (w, error_if naive_failed done [])

  unfoldable pub reset_from :
      api.World → List (ℤ × api.Normalizer) → api.Naive → api.World × List ResetError
  reset_from w [] naive = last_reset (api.reset_naive w naive)
  reset_from w ((num, an) ∷ rest) naive =
      let (w', done) = api.reset_normalizer w an in
      let (w'', errs) = reset_from w' rest naive in
      (w'', error_if (normalizer_failed num) done errs)

  -- `Reset`; no error is the empty list.
  unfoldable pub reset_decoders : api.World → DecoderFactory → api.World × List ResetError
  unfolding reset_from
  reset_decoders w f = reset_from w f.audio_normalize f.naive

  -- The state after all resets, none of which an error keeps from the others.
  all_reset : api.World → List (ℤ × api.Normalizer) → api.World
  all_reset w [] = w
  all_reset w ((num, an) ∷ rest) = all_reset (api.reset_normalizer w an).0 rest

  -- Every normalizer and the factory behind them are reset, whichever of them fail.
  reset-all_reset :
      (w : api.World) (ans : List (ℤ × api.Normalizer)) (naive : api.Naive)
      → (reset_from w ans naive).0 ≡ (api.reset_naive (all_reset w ans) naive).0
  unfolding reset_from all_reset
  reset-all_reset w [] naive = refl
  reset-all_reset w ((num, an) ∷ rest) naive =
      reset-all_reset (api.reset_normalizer w an).0 rest naive
