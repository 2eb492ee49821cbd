-- ===== src/Command/Context/Laws.antt =====
-- context.go: which filters the log has, and which flags contradict each other.
use ffstream.Base.{
  String, str_eq, Bool, true, false, not, ◌&&◌, ◌≢◌, ◌⊎◌, ◌↔◌, inl, inr, ◌≡◌, refl, ◌∙◌, sym, subst,
  Result-cases, ok-injective, List, [], ◌∷◌, ◌++◌, Result, ok, panic, Bool-cases, eq_iff, arith,
}
use ffstream.Command.Settings.{FlagsApi, Flags}
use ffstream.Command.Context.{
  Hook, log_level_filter, struct_field_secrets_filter, secret_values_filter,
  remove_insecure_debug_filter, error_monitor_hook, ContextApi, Context, ContextError,
  log_pre_hooks, log_hooks, sentry_hook, context_of, get_context,
}

-- The hook is one of them.
pub Has : Hook → List Hook → Type 0
Has h [] = ⊥
Has h (k ∷ ks) = (h ≡ k) ⊎ Has h ks

Has-append : (h : Hook) (hs ks : List Hook) → Has h hs → Has h (hs ++ ks)
unfolding Has
Has-append h [] ks p = absurd p
Has-append h (k ∷ hs) ks (inl e) = inl e
Has-append h (k ∷ hs) ks (inr p) = inr (Has-append h hs ks p)

Has-append_right : (h : Hook) (hs ks : List Hook) → Has h ks → Has h (hs ++ ks)
unfolding Has
Has-append_right h [] ks p = p
Has-append_right h (k ∷ hs) ks p = inr (Has-append_right h hs ks p)

-- The filters as the flags want them.
pub record IsFiltered (remove insecure : Bool) (dsn : String) (ctx : Context) : Type 0 where
  pub levels : Has log_level_filter ctx.pre_hooks
  pub consistent : remove ≡ true → insecure ≡ false
  pub fields : remove ≡ true → Has struct_field_secrets_filter ctx.pre_hooks
  pub values : remove ≡ true → Has secret_values_filter ctx.pre_hooks
  pub debug : insecure ≡ false → Has remove_insecure_debug_filter ctx.hooks
  pub secret : ctx.is_secret ≡ not insecure
  pub monitored : dsn ≢ "" → Has error_monitor_hook ctx.pre_hooks

pre_hooks_level : (remove : Bool) → Has log_level_filter (log_pre_hooks remove)
unfolding Has log_pre_hooks
pre_hooks_level remove = inl refl

pre_hooks_secrets :
    (remove : Bool)
    → remove ≡ true
    → Has struct_field_secrets_filter (log_pre_hooks remove)
      × Has secret_values_filter (log_pre_hooks remove)
unfolding Has log_pre_hooks
pre_hooks_secrets true e = (inr (inl refl), inr (inr (inl refl)))
pre_hooks_secrets false e = absurd (cc)

hooks_debug :
    (insecure : Bool) → insecure ≡ false → Has remove_insecure_debug_filter (log_hooks insecure)
unfolding Has log_hooks
hooks_debug true e = absurd (cc)
hooks_debug false e = inl refl

module _ (api : ContextApi) where
  sentry_hook-ne-panic : (dsn : String) → sentry_hook api dsn ≢ panic
  sentry_hook-ne-panic dsn e = ground arith

  sentry_hook_ok :
      (dsn : String) (monitors : List Hook)
      → sentry_hook api dsn ≡ ok monitors
      → dsn ≢ ""
      → Has error_monitor_hook monitors
  unfolding Has
  sentry_hook_ok dsn monitors e n = elim (Bool-cases (str_eq dsn "")) [
    | inl empty ↦ absurd (n ((eq_iff dsn "").0 empty))
    | inr full ↦ elim (Bool-cases (api.new_sentry_client dsn)) [
      | inl made ↦
          let hooks = error_monitor_hook ∷ [] in
          let e' : ◌≡◌ {A = Result ContextError (List Hook)} (ok hooks) (ok monitors) =
            let f = rw full at e in rw made at f in
          subst (Has error_monitor_hook) (ok-injective hooks monitors e') (inl refl)
      | inr failed ↦ absurd (ground arith)
    ]
  ]

  module _ {flags_api : FlagsApi} {Level : Type 0} (flags : Flags flags_api Level) where
    context_of-IsFiltered :
        (monitors : List Hook)
        → (flags.sentry_dsn ≢ "" → Has error_monitor_hook monitors)
        → (flags.remove_secrets_from_logs && flags.insecure_debug) ≡ false
        → IsFiltered flags.remove_secrets_from_logs flags.insecure_debug flags.sentry_dsn
            (context_of api flags monitors)
    unfolding context_of
    context_of-IsFiltered monitors h e =
        let pre = log_pre_hooks flags.remove_secrets_from_logs in
        record {
          levels =
              Has-append log_level_filter pre monitors
                (pre_hooks_level flags.remove_secrets_from_logs);
          consistent = λ r. ground arith;
          fields = λ r.
              Has-append struct_field_secrets_filter pre monitors
                (pre_hooks_secrets flags.remove_secrets_from_logs r).0;
          values = λ r.
              Has-append secret_values_filter pre monitors
                (pre_hooks_secrets flags.remove_secrets_from_logs r).1;
          debug = hooks_debug flags.insecure_debug;
          secret = refl;
          monitored = λ n. Has-append_right error_monitor_hook pre monitors (h n);
        }

    -- The set-up of the log panics exactly if secrets are to be removed and to be shown as well.
    get_context_panic_iff :
        (get_context api flags ≡ panic)
        ↔ ((flags.remove_secrets_from_logs ≡ true) × (flags.insecure_debug ≡ true))
    unfolding get_context
    get_context_panic_iff = (
      λ e. (
        ground (arith, sentry_hook-ne-panic flags.sentry_dsn),
        ground (arith, sentry_hook-ne-panic flags.sentry_dsn),
      ),
      λ both. ground arith,
    )

    -- A log that is set up filters by level. It filters the secrets of fields and of values if they are to
    -- be removed, in which case debugging is not insecure. It leaves out insecure messages and keeps values
    -- secret unless debugging is insecure, and it reports to Sentry if there is a DSN.
    pub get_context-IsFiltered :
        (ctx : Context)
        → get_context api flags ≡ ok ctx
        → IsFiltered flags.remove_secrets_from_logs flags.insecure_debug flags.sentry_dsn ctx
    unfolding get_context
    get_context-IsFiltered ctx p =
        elim (Bool-cases (flags.remove_secrets_from_logs && flags.insecure_debug)) [
          | inl both ↦ absurd (let p' = rw both at p in cc)
          | inr fine ↦ elim (Result-cases (sentry_hook api flags.sentry_dsn)) [
            | inl (monitors, e) ↦
                let made : get_context api flags ≡ ok (context_of api flags monitors) =
                  rw fine (rw e refl) in
                subst
                  (IsFiltered flags.remove_secrets_from_logs flags.insecure_debug flags.sentry_dsn)
                  (ok-injective (context_of api flags monitors) ctx (sym made ∙ p))
                  (context_of-IsFiltered monitors (sentry_hook_ok flags.sentry_dsn monitors e) fine)
            | inr (inl (failure, e)) ↦ absurd (let p' = rw fine at p in let p'' = rw e at p' in cc)
            | inr (inr e) ↦ absurd (sentry_hook-ne-panic flags.sentry_dsn e)
          ]
        ]
