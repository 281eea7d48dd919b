-- ===== src/Platform.antt =====
-- src/zippylog/platform.cpp: `Timer`, as it is built where the system has POSIX timers.
pub mod Timing
pub mod Directories
use zippylog.Prelude.{
  ℕ, ◌+◌, ◌-◌, ◌*◌, ◌/◌, ◌%◌, Bool, true, false, not, ltb, ◌==◌, if◌then◌else◌, Outcome, done,
  throws, faults,
}

-- What the system answers while an operation works on a timer: the monotonic clock in nanoseconds,
-- and if `timer_create`, `timer_settime` and `timer_gettime` succeed.
pub record Moment : Type 0 where
  pub now : ℕ
  pub creates : Bool
  pub sets : Bool
  pub reads : Bool

-- `due` is the system's part of the timer: the moment at which it expires, and 0 while it is not
-- armed.
pub record Timer : Type 0 where
  pub signaled : Bool
  pub running : Bool
  pub initialized : Bool
  pub microseconds : ℕ
  pub due : ℕ

abbrev pub new_timer : ℕ → Timer
new_timer us = record {
  signaled = false;
  running = false;
  initialized = false;
  microseconds = us;
  due = 0;
}

-- What an operation gives, and the timer that it leaves, also where it throws.
abbrev pub Timed : Type 0 → Type 0
Timed A = Outcome A × Timer

unfoldable pub initialize : Moment → Timer → Timed Unit
initialize m t =
    if m.creates
    then (done tt, record t { initialized = true; signaled = false; running = false; due = 0 })
    else (throws "could not create timer", t)

unfoldable pub reset : Moment → Timer → Bool × Timer
reset m t =
    let off = record t { signaled = false } in
    if off.running
    then if m.sets then (true, record off { running = false; due = 0 }) else (false, off)
    else (false, off)

-- `it_value` holds the seconds and the nanoseconds.
unfoldable pub nanoseconds : ℕ → ℕ
nanoseconds us = us / 1000000 * 1000000000 + us % 1000000 * 1000

-- `Start` behind the initialisation and the reset.
unfoldable pub arm : Moment → ℕ → Timer → Bool × Timer
unfolding nanoseconds
arm m us t =
    let set = record t { microseconds = if ltb 0 us then us else t.microseconds } in
    if m.sets
    then (true, record set { running = true; due = m.now + nanoseconds set.microseconds })
    else (false, set)

abbrev restarted : Moment → ℕ → Bool × Timer → Bool × Timer
restarted m us (true, t) = arm m us t
restarted m us (false, t) = (false, t)

abbrev started : Moment → ℕ → Timed Unit → Timed Bool
started m us (done tt, t) =
    let r = if t.running then restarted m us (reset m t) else arm m us t in (done r.0, r.1)
started m us (throws e, t) = (throws e, t)
started m us (faults, t) = (faults, t)

unfoldable pub start : Moment → ℕ → Timer → Timed Bool
unfolding initialize reset arm
start m us t = started m us (if t.initialized then (done tt, t) else initialize m t)

-- `Signaled`; what `timer_gettime` gives is the time that is left.
unfoldable pub is_signaled : Moment → Timer → Timed Bool
is_signaled m t =
    if t.signaled
    then (done true, t)
    else if not t.running
    then (done false, t)
    else if not m.reads
    then (throws "could not obtain timer result", t)
    else if t.due - m.now == 0
    then (done true, record t { signaled = true })
    else (done false, t)
