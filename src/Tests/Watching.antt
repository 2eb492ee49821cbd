-- ===== src/Tests/Watching.antt =====
-- A start whose inputs end, and one whose node fails.
use ffstream.Base.{ℕ, ◌||◌, ◌≡◌, ◌⊎◌, refl, Bool, true, false, some, none, [], ◌∷◌, arith, ◌==◌}
use ffstream.Stream.Cancellation.{CancelApi, IsCancelApi}
use ffstream.Stream.Start.Watching.{
  ErrorApi, at_eof, failed, reason_of, Watch, watching, watch_start, cancelled, send, close,
  on_error, Moves, unmoved, moved,
}
use ffstream.Stream.Start.Watching.Laws.{IsWaiting, CanReturn, HasReturned, watch_lem}

-- Contexts by number, none of which ends another.
abbrev contexts_api : CancelApi
contexts_api = record {
  World = ℕ → Bool;
  Ctx = ℕ;
  is_done = λ w c. w c;
  cancel = λ c w d. (d == c) || w d;
}

abbrev none_done : ℕ → Bool
none_done c = false

contexts_lawful : IsCancelApi contexts_api
contexts_lawful = record {
  is_done-cancel = λ w c. ground arith;
  is_done_again = λ w c d h. ground arith;
}

-- The errors 0 and 1 are a cancellation and the end of an input.
abbrev errors_api : ErrorApi
errors_api = record { Error = ℕ; is_canceled = λ e. e == 0; is_eof = λ e. e == 1 }

reason_of-eof : reason_of errors_api 1 ≡ at_eof 1
unfolding reason_of
reason_of-eof = refl

reason_of-failed : reason_of errors_api 7 ≡ failed 7
unfolding reason_of
reason_of-failed = refl

-- A node fails, the watching goroutine ends, and the other one closes the channel.
abbrev after_failure : Watch contexts_api errors_api
after_failure =
    watching contexts_api errors_api (cancelled contexts_api errors_api 3 [] none_done) [] (7 ∷ [])
      true (some (reason_of errors_api 7))

failure-Moves :
    Moves contexts_api errors_api 3 [] (watch_start contexts_api errors_api none_done) after_failure
failure-Moves =
    moved _ _ _
      (moved _ _ _
        (moved _ _ _ (unmoved (watch_start contexts_api errors_api none_done))
          (send none_done [] [] none 7 (omega arith)))
        (on_error none_done 7 [] (7 ∷ []) false))
      (close (cancelled contexts_api errors_api 3 [] none_done) [] (7 ∷ [])
        (some (reason_of errors_api 7)))

watch_lem_example :
    IsWaiting contexts_api errors_api 3 [] after_failure
    ⊎ CanReturn contexts_api errors_api 3 [] after_failure
    ⊎ HasReturned contexts_api errors_api 3 [] after_failure
watch_lem_example =
    watch_lem contexts_api errors_api contexts_lawful 3 [] none_done after_failure failure-Moves
