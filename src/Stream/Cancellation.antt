-- ===== src/Stream/Cancellation.antt =====
-- pkg/ffstream/ffstream.go: the cancel function of the stream, to which each start adds its own.
use ffstream.Base.{◌≡◌, Bool, true, Option, none, some, List, [], ◌∷◌, All}

-- `context.WithCancel`: a context, whether it is done, and its cancel function, which changes the
-- state that all contexts are in.
pub record CancelApi : Type 1 where
  pub World : Type 0
  pub Ctx : Type 0
  pub is_done : World → Ctx → Bool
  pub cancel : Ctx → World → World

-- What is relied on: a cancelled context is done, and no cancel function takes that back.
pub record IsCancelApi (contexts : CancelApi) : Type 0 where
  pub is_done-cancel :
      (w : contexts.World) (c : contexts.Ctx) → contexts.is_done (contexts.cancel c w) c ≡ true
  pub is_done_again :
      (w : contexts.World) (c d : contexts.Ctx)
      → contexts.is_done w c ≡ true
      → contexts.is_done (contexts.cancel d w) c ≡ true

module _ (contexts : CancelApi) where
  abbrev pub CancelFunc : Type 0
  CancelFunc = contexts.World → contexts.World

  -- `addCancelFnLocked`: the new function is called before the old one.
  unfoldable pub add_cancel_fn_locked : Option CancelFunc → CancelFunc → CancelFunc
  add_cancel_fn_locked none cancel_fn = cancel_fn
  add_cancel_fn_locked (some old_cancel_fn) cancel_fn = λ w. old_cancel_fn (cancel_fn w)

  -- The function after one start more, and those before it, the last one first.
  unfoldable pub cancel_func_of : contexts.Ctx → List contexts.Ctx → CancelFunc
  unfolding add_cancel_fn_locked
  cancel_func_of c [] = add_cancel_fn_locked none (contexts.cancel c)
  cancel_func_of c (d ∷ ds) = add_cancel_fn_locked (some (cancel_func_of d ds)) (contexts.cancel c)

module _ (contexts : CancelApi) (lawful : IsCancelApi contexts) where
  stays_done :
      (w : contexts.World) (e d : contexts.Ctx) (ds : List contexts.Ctx)
      → contexts.is_done w e ≡ true
      → contexts.is_done (cancel_func_of contexts d ds w) e ≡ true
  unfolding cancel_func_of
  stays_done w e d [] h = lawful.is_done_again w e d h
  stays_done w e d (d' ∷ ds) h =
      stays_done (contexts.cancel d w) e d' ds (lawful.is_done_again w e d h)

  -- The stream's cancel function ends the context of the last start.
  pub last_done :
      (w : contexts.World) (c : contexts.Ctx) (cs : List contexts.Ctx)
      → contexts.is_done (cancel_func_of contexts c cs w) c ≡ true
  unfolding cancel_func_of
  last_done w c [] = lawful.is_done-cancel w c
  last_done w c (d ∷ ds) = stays_done (contexts.cancel c w) c d ds (lawful.is_done-cancel w c)

  -- It ends the contexts of the starts before as well.
  each_done :
      (w : contexts.World) (c : contexts.Ctx) (cs : List contexts.Ctx)
      → All (λ d. contexts.is_done (cancel_func_of contexts c cs w) d ≡ true) cs
  unfolding cancel_func_of
  each_done w c [] = tt
  each_done w c (d ∷ ds) =
      (last_done (contexts.cancel c w) d ds, each_done (contexts.cancel c w) d ds)
