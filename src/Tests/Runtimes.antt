-- ===== src/Tests/Runtimes.antt =====
-- The set-up of a process that serves pprof.
use ffstream.Base.{ℕ, ◌≡◌, refl, false, [], ◌∷◌, List}
use ffstream.Stream.Cancellation.{CancelApi}
use ffstream.Command.Runtime.{RuntimeApi, end_runtime}

-- The state is what was done, the last first.
abbrev traces : CancelApi
traces = record { World = List ℕ; Ctx = ℕ; is_done = λ w c. false; cancel = λ c w. c ∷ w }

abbrev runtime_api : RuntimeApi traces ℕ
runtime_api = record {
  go_listen_and_serve = λ addr w. 10 ∷ w;
  set_log_level = λ level w. 11 ∷ w;
  set_log_callback = λ w. 12 ∷ w;
  with_cancel = λ w. (5, 13 ∷ w);
  flush = λ w. 14 ∷ w;
}

-- Cancelled, closed from the last to the first, and flushed.
end_runtime_test :
    end_runtime traces runtime_api ((λ w. 1 ∷ w) ∷ (λ w. 2 ∷ w) ∷ []) 5 [] ≡ 14 ∷ 1 ∷ 2 ∷ 5 ∷ []
unfolding end_runtime
end_runtime_test = refl
