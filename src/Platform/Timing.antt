-- ===== src/Platform/Timing.antt =====
-- src/zippylog/platform.cpp, `Timer`: what it tells after it was started.
use zippylog.Prelude.{
  ℕ, ◌+◌, ◌-◌, ◌*◌, ◌<◌, ◌≡◌, refl, Bool, true, false, leb, ◌==◌, done, arith, Bool-cases, inl, inr,
}
use zippylog.Platform.{
  Moment, Timer, new_timer, initialize, reset, nanoseconds, arm, start, is_signaled,
}

-- A timer that has signaled runs.
unfoldable pub IsSound : Timer → Type 0
IsSound t = t.signaled ≡ true → t.running ≡ true

-- The timer runs, and expires at the moment.
unfoldable pub IsArmed : ℕ → Timer → Type 0
IsArmed due t = (t.running ≡ true) × (t.signaled ≡ false) × (t.due ≡ due)

-- Each call of the system succeeds.
unfoldable pub IsUp : Moment → Type 0
IsUp m = (m.creates ≡ true) × (m.sets ≡ true) × (m.reads ≡ true)

pub new_timer-IsSound : (us : ℕ) → IsSound (new_timer us)
unfolding IsSound
new_timer-IsSound us h = cc

pub nanoseconds_eq : (us : ℕ) → nanoseconds us ≡ us * 1000
unfolding nanoseconds
nanoseconds_eq us = omega arith

pub start-IsArmed :
    (m : Moment) (us : ℕ) (t : Timer)
    → IsUp m
    → 0 < us
    → IsSound t
    → ((start m us t).0 ≡ done true) × IsArmed (m.now + us * 1000) (start m us t).1
unfolding IsUp IsSound IsArmed start initialize reset arm
start-IsArmed m us t u h s = ground (arith, u.0, u.1, nanoseconds_eq us)

pub start-IsSound : (m : Moment) (us : ℕ) (t : Timer) → IsSound t → IsSound (start m us t).1
unfolding IsSound start initialize reset arm
start-IsSound m us t s = ground arith

pub is_signaled-IsSound : (m : Moment) (t : Timer) → IsSound t → IsSound (is_signaled m t).1
unfolding IsSound is_signaled
is_signaled-IsSound m t s = ground arith

pub IsArmed-IsSound : (due : ℕ) (t : Timer) → IsArmed due t → IsSound t
unfolding IsArmed IsSound
IsArmed-IsSound due t h k = h.0

-- A timer that is armed signals from the moment on at which it expires.
pub armed-is_signaled :
    (m : Moment) (due : ℕ) (t : Timer)
    → IsUp m
    → IsArmed due t
    → (is_signaled m t).0 ≡ done (leb due m.now)
unfolding IsUp IsArmed is_signaled
armed-is_signaled m due t u h = ground (arith, u.2, h.0, h.1, h.2)

-- Where the system answers, the timer tells whether it has expired.
pub signaled-done : (m : Moment) (t : Timer) → IsUp m → (b : Bool) × ((is_signaled m t).0 ≡ done b)
unfolding IsUp is_signaled
signaled-done m t u = elim (Bool-cases t.signaled) [
  | inl s ↦ (true, rw s refl)
  | inr s ↦ elim (Bool-cases t.running) [
    | inl r ↦ elim (Bool-cases (t.due - m.now == 0)) [
      | inl e ↦ (true, rw (s, r, u.2, e) refl)
      | inr e ↦ (false, rw (s, r, u.2, e) refl)
    ]
    | inr r ↦ (false, rw (s, r) refl)
  ]
]
