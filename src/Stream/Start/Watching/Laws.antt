-- ===== src/Stream/Start/Watching/Laws.antt =====
-- ffstream.go: how the goroutine that watches for errors ends.
use ffstream.Base.{
  ◌≡◌, ◌⊎◌, inl, inr, refl, sym, ◌∙◌, Option-cases, subst, ap, Bool, true, false, Bool-cases,
  Option, none, some, List, [], ◌∷◌, snoc, get_elem?,
}
use mathlib.Core.Option.{some-injective}
use ffstream.Stream.Cancellation.{CancelApi, IsCancelApi, last_done}
use ffstream.Stream.Start.Watching.{
  ErrorApi, Reason, context_done, channel_closed, reason_of, logged, Watch, watching, watch_start,
  cancelled, Move, send, close, cancel_other, on_done, on_error, on_closed, Moves, unmoved, moved,
}

first-snoc :
    {A : Type 0} (xs : List A) (x y : A)
    → get_elem? xs 0 ≡ some x
    → get_elem? (snoc xs y) 0 ≡ some x
first-snoc [] x y h = absurd (cc)
first-snoc (z ∷ xs) x y h = h

module _ (contexts : CancelApi) (errors : ErrorApi) where
  -- What is true of a return: its context is done, and an error that is logged is the first one sent,
  -- neither a cancellation nor the end of the input.
  IsReturn : contexts.World → contexts.Ctx → List errors.Error → Reason errors → Type 0
  IsReturn w ctx sent r =
      (contexts.is_done w ctx ≡ true)
      × ((e : errors.Error)
          → logged errors r ≡ some e
          → (get_elem? sent 0 ≡ some e)
            × (errors.is_canceled e ≡ false)
            × (errors.is_eof e ≡ false))

  record IsSound (ctx : contexts.Ctx) (c : Watch contexts errors) : Type 0 where
    unread : c.returned ≡ none → c.sent ≡ c.err_ch
    ended : (r : Reason errors) → c.returned ≡ some r → IsReturn c.world ctx c.sent r

  logged-reason_of :
      (e x : errors.Error)
      → logged errors (reason_of errors e) ≡ some x
      → (e ≡ x) × (errors.is_canceled x ≡ false) × (errors.is_eof x ≡ false)
  unfolding logged reason_of
  logged-reason_of e x h = elim (Bool-cases (errors.is_canceled e)) [
    | inl c ↦ absurd (let h' = rw (c, reason_of) at h in cc)
    | inr c ↦ elim (Bool-cases (errors.is_eof e)) [
      | inl f ↦ absurd (let h' = rw (c, f, reason_of) at h in cc)
      | inr f ↦
          let h' : some e ≡ some x = rw (c, f, reason_of) at h in
          let same = some-injective e x h' in
          (
            same,
            subst (λ y. errors.is_canceled y ≡ false) same c,
            subst (λ y. errors.is_eof y ≡ false) same f,
          )
    ]
  ]

  module _ (ctx : contexts.Ctx) (others : List contexts.Ctx) where
    -- What the watching goroutine is at: it goes on and has nothing to return for, it goes on and has a
    -- move by which it returns, or it has returned. No two of these are true at once.
    pub IsWaiting : Watch contexts errors → Type 0
    IsWaiting c =
        (c.returned ≡ none)
        × (contexts.is_done c.world ctx ≡ false)
        × (c.is_closed ≡ false)
        × (c.err_ch ≡ [])

    pub CanReturn : Watch contexts errors → Type 0
    CanReturn c =
        (c.returned ≡ none)
        × (c' : Watch contexts errors) × (r : Reason errors) × Move contexts errors ctx others c c'
        × (c'.returned ≡ some r)

    pub HasReturned : Watch contexts errors → Type 0
    HasReturned c =
        (r : Reason errors) × (c.returned ≡ some r)
        × (contexts.is_done c.world ctx ≡ true)
        × ((logged errors r ≡ none)
            ⊎ ((e : errors.Error) × (logged errors r ≡ some e)
                × (get_elem? c.sent 0 ≡ some e)
                × (errors.is_canceled e ≡ false)
                × (errors.is_eof e ≡ false)))

  -- A return that logs nothing.
  silent :
      (w : contexts.World) (ctx : contexts.Ctx) (sent : List errors.Error) (r : Reason errors)
      → contexts.is_done w ctx ≡ true
      → logged errors r ≡ none
      → (r' : Reason errors) → some r ≡ some r'
      → IsReturn w ctx sent r'
  unfolding IsReturn
  silent w ctx sent r done quiet r' e =
      let same = some-injective r r' e in (done, λ x h. absurd (cc))

  module _ (lawful : IsCancelApi contexts) (ctx : contexts.Ctx) (others : List contexts.Ctx) where
    step-IsSound :
        (c c' : Watch contexts errors)
        → Move contexts errors ctx others c c'
        → IsSound ctx c
        → IsSound ctx c'
    unfolding IsReturn cancelled logged
    step-IsSound _ _ (send w es sent r e room) h = record {
      unread = λ waiting. ap (λ xs. snoc xs e) (h.unread waiting);
      ended = λ reason eq.
          let (done, first) = h.ended reason eq in
          (done, λ x l. let (f, own, own') = first x l in (first-snoc sent x e f, own, own'));
    }
    step-IsSound _ _ (close w es sent r) h = record { unread = h.unread; ended = h.ended }
    step-IsSound _ _ (cancel_other w es sent b r c) h = record {
      unread = h.unread;
      ended = λ reason eq.
          let (done, first) = h.ended reason eq in (lawful.is_done_again w ctx c done, first);
    }
    step-IsSound _ _ (on_done w es sent b d) h = record {
      unread = λ waiting. absurd (cc);
      ended =
          silent (cancelled contexts errors ctx others w) ctx sent context_done
            (last_done contexts lawful w ctx others) refl;
    }
    step-IsSound _ _ (on_closed w sent) h = record {
      unread = λ waiting. absurd (cc);
      ended =
          silent (cancelled contexts errors ctx others w) ctx sent channel_closed
            (last_done contexts lawful w ctx others) refl;
    }
    step-IsSound _ _ (on_error w e es sent b) h = record {
      unread = λ waiting. absurd (cc);
      ended = λ reason eq. (
        last_done contexts lawful w ctx others,
        λ x l.
            let same = some-injective (reason_of errors e) reason eq in
            let (first, own, own') =
              logged-reason_of e x (subst (λ r. logged errors r ≡ some x) (sym same) l) in
            (ap (λ xs. get_elem? xs 0) (h.unread refl) ∙ ap some first, own, own'),
      );
    }

    reached-IsSound :
        (c c' : Watch contexts errors)
        → Moves contexts errors ctx others c c'
        → IsSound ctx c
        → IsSound ctx c'
    reached-IsSound _ _ (unmoved c) h = h
    reached-IsSound _ _ (moved c c' c'' moves move) h =
        step-IsSound c' c'' move (reached-IsSound c c' moves h)

    wait_or_return :
        (w : contexts.World) (es sent : List errors.Error) (b : Bool)
        → let c = watching contexts errors w es sent b none in
          IsWaiting ctx others c ⊎ CanReturn ctx others c ⊎ HasReturned ctx others c
    unfolding IsWaiting CanReturn
    wait_or_return w (e ∷ es) sent b =
        inr (inl (refl, _, reason_of errors e, on_error w e es sent b, refl))
    wait_or_return w [] sent true = inr (inl (refl, _, channel_closed, on_closed w sent, refl))
    wait_or_return w [] sent false = elim (Bool-cases (contexts.is_done w ctx)) [
      | inl d ↦ inr (inl (refl, _, context_done, on_done w [] sent false d, refl))
      | inr d ↦ inl (refl, d, refl, refl)
    ]

    returned :
        (c : Watch contexts errors) (r : Reason errors)
        → c.returned ≡ some r
        → IsSound ctx c
        → HasReturned ctx others c
    unfolding HasReturned IsReturn
    returned c r e h =
        let (done, first) = h.ended r e in
        elim (Option-cases (logged errors r)) [
          | inl quiet ↦ (r, e, done, inl quiet)
          | inr (x, l) ↦ let (f, own, own') = first x l in (r, e, done, inr (x, l, f, own, own'))
        ]

    at_state :
        (w : contexts.World) (es sent : List errors.Error) (b : Bool) (r : Option (Reason errors))
        → IsSound ctx (watching contexts errors w es sent b r)
        → let c = watching contexts errors w es sent b r in
          IsWaiting ctx others c ⊎ CanReturn ctx others c ⊎ HasReturned ctx others c
    at_state w es sent b none h = wait_or_return w es sent b
    at_state w es sent b (some r) h =
        inr (inr (returned (watching contexts errors w es sent b (some r)) r refl h))

    -- Whatever the goroutines do after a start, in whatever order, and whoever cancels contexts, the
    -- watching one has returned, or it has not and can return, or it has not, the context goes on, the
    -- channel is open and no error is in it. Once it has returned the context is done, and it has
    -- logged no error but the first one that was sent, and only if that is neither a cancellation nor
    -- the end of an input.
    pub watch_lem :
        (w : contexts.World) (c : Watch contexts errors)
        → Moves contexts errors ctx others (watch_start contexts errors w) c
        → IsWaiting ctx others c ⊎ CanReturn ctx others c ⊎ HasReturned ctx others c
    watch_lem w c moves =
        let sound =
          reached-IsSound (watch_start contexts errors w) c moves
            (record { unread = λ waiting. refl; ended = λ r e. absurd (cc) }) in
        at_state c.world c.err_ch c.sent c.is_closed c.returned sound
