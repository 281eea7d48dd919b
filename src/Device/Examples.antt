-- ===== src/Device/Examples.antt =====
-- Tests of the model of src/zippylog/device/device.cpp on concrete inputs, and its theorem at such inputs.
use zippylog.Prelude.{
  ℕ, ◌+◌, ◌<◌, ◌≡◌, refl, Bool, true, false, [], ◌∷◌, ◌++◌, ltb, Outcome, done, throws, arith,
}
use zippylog.Device.{
  Hook, on_first_run, on_run_start, on_run_finish, Device, async_exec_start, pump_until, run,
  run_async, stop_async,
}
use zippylog.Device.Running.{Succeeds, expected, async_exec_start-finishes_twice}

abbrev hooks : Hook → ℕ → Outcome (Unit {0}) × ℕ
hooks h w = (done tt, w + 1)

abbrev signaled : ℕ → Bool
signaled w = ltb 2 w

hooks-Succeeds : Succeeds hooks
unfolding Succeeds
hooks-Succeeds h w = refl

abbrev device : Device ℕ
device = record {
  running = false;
  has_ran = false;
  thread = false;
  async_wait = false;
  waits = 0;
  trace = [];
  world = 0;
}

not_yet : (i : ℕ) → i < 3 → signaled (0 + i) ≡ false
not_yet i h = ground arith

async_exec_start-finishes_twice_example :
    let ended = async_exec_start hooks signaled 5 device in
    (ended.0 ≡ done tt)
    × (ended.1.trace ≡ [] ++ expected false 2 ++ on_run_finish ∷ [])
    × (ended.1.running ≡ false)
async_exec_start-finishes_twice_example =
    async_exec_start-finishes_twice hooks signaled 2 5 device hooks-Succeeds not_yet refl
      (omega arith)

in_order :
    expected false 2 ≡ on_first_run ∷ on_run_start ∷ Hook.pump ∷ Hook.pump ∷ on_run_finish ∷ []
unfolding expected
in_order = refl

-- The hooks are called that often.
called : (async_exec_start hooks signaled 5 device).1.world ≡ 6
unfolding async_exec_start run pump_until
called = refl

-- A device that runs cannot be started again, and one that does not run cannot be stopped.
started_twice :
    (run_async hooks signaled (run_async hooks signaled device).1).0
    ≡ throws "device is already running asynchronously"
unfolding run_async
started_twice = refl

stopped : (stop_async true device).0 ≡ throws "device is not running asynchronously"
unfolding stop_async
stopped = refl

-- Where `OnRunStart` throws, the thread ends without the signal that `RunAsync` waits for.
abbrev failing : Hook → ℕ → Outcome (Unit {0}) × ℕ
failing on_run_start w = (throws "could not start", w)
failing _ w = (done tt, w)

never_signaled :
    ((async_exec_start failing signaled 5 device).0 ≡ done tt)
    × ((async_exec_start failing signaled 5 device).1.async_wait ≡ false)
unfolding async_exec_start run
never_signaled = (refl, refl)
