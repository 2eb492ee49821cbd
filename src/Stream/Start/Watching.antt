-- ===== src/Stream/Start/Watching.antt =====
-- ffstream.go: the two goroutines that `Start` leaves behind. One serves the inputs, sends the errors
-- of their nodes to a channel and closes it at its end; the other waits for the first of them, or for
-- the end of the context, and cancels the stream.
pub mod Laws
use ffstream.Base.{
  ℕ, ◌<◌, ◌≡◌, ◌⊎◌, inl, inr, refl, sym, ◌∙◌, Option-cases, subst, ap, Bool, true, false,
  Bool-cases, Option, none, some, List, [], ◌∷◌, snoc, length, get_elem?, if◌then◌else◌,
}
use mathlib.Core.Option.{some-injective}
use ffstream.Stream.Cancellation.{CancelApi, IsCancelApi, cancel_func_of, last_done}

-- `node.Error`, and what `errors.Is` finds of it.
pub record ErrorApi : Type 1 where
  pub Error : Type 0
  pub is_canceled : Error → Bool
  pub is_eof : Error → Bool

-- The capacity of the channel.
abbrev pub channel_capacity : ℕ
channel_capacity = 100

module _ (errors : ErrorApi) where
  -- Why the watching goroutine returned.
  pub data Reason : Type 0 where
    context_done : Reason
    channel_closed : Reason
    was_canceled : errors.Error → Reason
    at_eof : errors.Error → Reason
    failed : errors.Error → Reason

  unfoldable pub reason_of : errors.Error → Reason
  reason_of e =
      if errors.is_canceled e
      then was_canceled e
      else if errors.is_eof e
      then at_eof e
      else failed e

  -- What is logged as an error.
  unfoldable pub logged : Reason → Option errors.Error
  logged (failed e) = some e
  logged _ = none

module _ (contexts : CancelApi) (errors : ErrorApi) where
  -- The contexts, the channel, what was ever sent to it, whether it is closed, and what the watching
  -- goroutine has returned for.
  pub record Watch : Type 0 where
    pub world : contexts.World
    pub err_ch : List errors.Error
    pub sent : List errors.Error
    pub is_closed : Bool
    pub returned : Option (Reason errors)

  abbrev pub watching :
      contexts.World → List errors.Error → List errors.Error → Bool → Option (Reason errors) → Watch
  watching w es sent closed r = record {
    world = w;
    err_ch = es;
    sent = sent;
    is_closed = closed;
    returned = r;
  }

  -- Where both goroutines have been started.
  abbrev pub watch_start : contexts.World → Watch
  watch_start w = watching w [] [] false none

  module _ (ctx : contexts.Ctx) (others : List contexts.Ctx) where
    -- The deferred `s.cancelFunc()`.
    unfoldable pub cancelled : contexts.World → contexts.World
    unfolding cancel_func_of
    cancelled = cancel_func_of contexts ctx others

    -- A move of either goroutine, or of somebody else who cancels a context.
    pub data Move : Watch → Watch → Type 0 where
      send :
          (w : contexts.World) (es sent : List errors.Error) (r : Option (Reason errors))
          (e : errors.Error)
          → length es < channel_capacity
          → Move (watching w es sent false r) (watching w (snoc es e) (snoc sent e) false r)
      close :
          (w : contexts.World) (es sent : List errors.Error) (r : Option (Reason errors))
          → Move (watching w es sent false r) (watching w es sent true r)
      cancel_other :
          (w : contexts.World) (es sent : List errors.Error) (b : Bool) (r : Option (Reason errors))
          (c : contexts.Ctx)
          → Move (watching w es sent b r) (watching (contexts.cancel c w) es sent b r)
      on_done :
          (w : contexts.World) (es sent : List errors.Error) (b : Bool)
          → contexts.is_done w ctx ≡ true
          → Move (watching w es sent b none) (watching (cancelled w) es sent b (some context_done))
      on_error :
          (w : contexts.World) (e : errors.Error) (es sent : List errors.Error) (b : Bool)
          → Move
              (watching w (e ∷ es) sent b none)
              (watching (cancelled w) es sent b (some (reason_of errors e)))
      on_closed :
          (w : contexts.World) (sent : List errors.Error)
          → Move
              (watching w [] sent true none)
              (watching (cancelled w) [] sent true (some channel_closed))

    -- Any number of moves, in any order.
    pub data Moves : Watch → Watch → Type 0 where
      unmoved : (c : Watch) → Moves c c
      moved : (c c' c'' : Watch) → Moves c c' → Move c' c'' → Moves c c''
