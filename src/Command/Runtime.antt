-- ===== src/Command/Runtime.antt =====
-- cmd/ffstream/runtime.go: the set-up of the process, and the function that ends it.
use ffstream.Base.{String, str_eq, ◌≡◌, true, List, [], ◌∷◌, if◌then◌else◌}
use ffstream.Command.Settings.{FlagsApi, Flags}
use ffstream.Stream.Cancellation.{CancelApi, IsCancelApi, CancelFunc}

-- What is called of the libraries: the server of pprof and metrics in the background, the log of
-- astiav, a new context, and the flush of the logs.
pub record RuntimeApi (contexts : CancelApi) (Level : Type 0) : Type 0 where
  pub go_listen_and_serve : String → contexts.World → contexts.World
  pub set_log_level : Level → contexts.World → contexts.World
  pub set_log_callback : contexts.World → contexts.World
  pub with_cancel : contexts.World → contexts.Ctx × contexts.World
  pub flush : contexts.World → contexts.World

-- What is relied on: to flush the logs takes no end of a context back.
pub record IsRuntimeApi (contexts : CancelApi) {Level : Type 0}
    (runtime : RuntimeApi contexts Level) : Type 0 where
  pub is_done-flush :
      (w : contexts.World) (c : contexts.Ctx)
      → contexts.is_done w c ≡ true
      → contexts.is_done (runtime.flush w) c ≡ true

module _ (contexts : CancelApi) {Level : Type 0} (runtime : RuntimeApi contexts Level) where
  -- The loop over `closeFuncs`, from the last one to the first.
  unfoldable pub close_each : List (CancelFunc contexts) → CancelFunc contexts
  close_each [] w = w
  close_each (close ∷ closes) w = close (close_each closes w)

  -- The function that `initRuntime` returns; the flush is deferred.
  unfoldable pub end_runtime : List (CancelFunc contexts) → contexts.Ctx → CancelFunc contexts
  unfolding close_each
  end_runtime close_funcs ctx w = runtime.flush (close_each close_funcs (contexts.cancel ctx w))

  -- `initRuntime`, at the level that the log has. Nothing is ever added to `closeFuncs`.
  unfoldable pub init_runtime :
      {flags_api : FlagsApi}
      → Flags flags_api Level
      → Level
      → contexts.World
      → contexts.World × contexts.Ctx × CancelFunc contexts
  unfolding end_runtime
  init_runtime flags level w =
      let served =
        if str_eq flags.listen_net_pprof ""
        then w
        else runtime.go_listen_and_serve flags.listen_net_pprof w in
      let (ctx, w') =
        runtime.with_cancel (runtime.set_log_callback (runtime.set_log_level level served)) in
      (w', ctx, end_runtime [] ctx)

  -- The function that is returned ends the context that is returned.
  end-init_runtime :
      {flags_api : FlagsApi} (flags : Flags flags_api Level) (level : Level) (w w' : contexts.World)
      → IsCancelApi contexts
      → IsRuntimeApi contexts runtime
      → let (_, ctx, cancel_func) = init_runtime flags level w in
        contexts.is_done (cancel_func w') ctx ≡ true
  unfolding init_runtime end_runtime close_each
  end-init_runtime flags level w w' lawful flushed =
      let ctx = (init_runtime flags level w).1 in
      flushed.is_done-flush (contexts.cancel ctx w') ctx (lawful.is_done-cancel w' ctx)
