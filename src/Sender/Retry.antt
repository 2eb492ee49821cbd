-- ===== src/Sender/Retry.antt =====
-- sender_factory.go: how long `newOutputWithRetry` goes on. Times are nanoseconds of the process's
-- monotonic clock, below 2^63, so that the difference of two of them is exact.
use ffstream.Base.{
  ℕ, ◌+◌, ◌-◌, ◌*◌, ◌≤◌, ◌<◌, ◌≡◌, refl, Bool, true, false, ◌||◌, ◌⊎◌, Option, none, some, List, [],
  ◌∷◌, ◌++◌, map, length, ltb, if◌then◌else◌, ℤ, pos, negsuc, arith, Bool-cases, inl, inr,
}

-- What the library's `Retryable` reports: that the kernel is open, or an error at some time.
pub data Event : Type 0 where
  kernel_open : Event
  failed : ℕ → Event

-- `now.Sub(errorsStartedAt) > retryTimeout`
unfoldable pub exceeds : ℕ → ℤ → Bool
exceeds elapsed (pos timeout) = ltb timeout elapsed
exceeds elapsed (negsuc timeout) = true

abbrev pub or_now : Option ℕ → ℕ → ℕ
or_now none now = now
or_now (some started) now = started

-- The callback on an error: the new `errorsStartedAt`, and whether the library is told to retry.
-- It sleeps for a tenth of a second before it says so.
unfoldable pub on_error : ℤ → Option ℕ → ℕ → Option ℕ × Bool
unfolding exceeds
on_error timeout errors_started_at now =
    let started = or_now errors_started_at now in
    (some started, if exceeds (now - started) timeout then false else true)

-- The callback on a kernel that opens.
unfoldable pub on_kernel_open : Option ℕ → Option ℕ
on_kernel_open errors_started_at = none

abbrev pub sleep : ℕ
sleep = 100000000

-- Whether the retries end in the course of these events.
unfoldable pub ends : ℤ → Option ℕ → List Event → Bool
unfolding on_error on_kernel_open
ends timeout started [] = false
ends timeout started (kernel_open ∷ events) = ends timeout (on_kernel_open started) events
ends timeout started (failed now ∷ events) =
    let (started', retry) = on_error timeout started now in
    let rest = ends timeout started' events in if retry then rest else true

-- Whether one of the times is later than the timeout allows.
abbrev pub any_late : ℤ → ℕ → List ℕ → Bool
any_late timeout started [] = false
any_late timeout started (now ∷ times) =
    exceeds (now - started) timeout || any_late timeout started times

ends-failed :
    (timeout : ℤ) (started : ℕ) (times : List ℕ)
    → ends timeout (some started) (map failed times) ≡ any_late timeout started times
unfolding ends on_error
ends-failed timeout started [] = refl
ends-failed timeout started (now ∷ times) = elim (Bool-cases (exceeds (now - started) timeout)) [
  | inl e ↦ rw e refl
  | inr e ↦ rw e (ends-failed timeout started times)
]

-- Whatever went before, once the output has opened again the retries end exactly at an error that
-- comes more than the timeout after the first error since then, unless they had ended before.
pub ends-append :
    (timeout : ℤ) (started : Option ℕ) (before : List Event) (first : ℕ) (times : List ℕ)
    → ends timeout started (before ++ kernel_open ∷ map failed (first ∷ times))
      ≡ (ends timeout started before || any_late timeout first (first ∷ times))
unfolding ends on_error on_kernel_open
ends-append timeout started [] first times = elim (Bool-cases (exceeds (first - first) timeout)) [
  | inl e ↦ rw e refl
  | inr e ↦ rw e (ends-failed timeout first times)
]
ends-append timeout started (kernel_open ∷ before) first times =
    ends-append timeout none before first times
ends-append timeout started (failed now ∷ before) first times =
    elim (Bool-cases (exceeds (now - or_now started now) timeout)) [
      | inl e ↦ rw e refl
      | inr e ↦ rw e (ends-append timeout (some (or_now started now)) before first times)
    ]

-- Errors that come one after another, each at least the sleep after the one before.
abbrev pub AreSpaced : ℕ → List ℕ → Type 0
AreSpaced previous [] = Unit {0}
AreSpaced previous (now ∷ times) = (previous + sleep ≤ now) × AreSpaced now times

late_in_time :
    (timeout started previous : ℕ) (times : List ℕ)
    → started ≤ previous
    → AreSpaced previous times
    → timeout < (previous - started) + sleep * length times
    → (timeout < previous - started) ⊎ (any_late (pos timeout) started times ≡ true)
unfolding exceeds
late_in_time timeout started previous [] le h l = inl (omega arith)
late_in_time timeout started previous (now ∷ times) le (gap, h) l =
    elim (late_in_time timeout started now times (omega arith) h (omega arith)) [
      | inl late ↦ inr (ground arith)
      | inr later ↦ inr (rw later (ground arith))
    ]

-- The retries end: whatever went before, once the output has opened for the last time, it is enough
-- that the tenths of a second that are slept between the errors behind it exceed the timeout.
pub ends_in_time :
    (timeout : ℕ) (started : Option ℕ) (before : List Event) (first : ℕ) (times : List ℕ)
    → AreSpaced first times
    → timeout < sleep * length times
    → ends (pos timeout) started (before ++ kernel_open ∷ map failed (first ∷ times)) ≡ true
ends_in_time timeout started before first times h l =
    rw (ends-append (pos timeout) started before first times)
      (elim (late_in_time timeout first first times (omega arith) h (omega arith)) [
        | inl late ↦ absurd (omega arith)
        | inr late ↦ rw late (ground arith)
      ])
