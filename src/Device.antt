-- ===== src/Device.antt =====
-- src/zippylog/device/device.cpp: `Device`, the loop that all devices run in, with its asynchronous start and
-- stop, and `PumpResult`. Threads are the system's.
pub mod Running
mod Examples
use Prim.Native.String.{String}
use zippylog.Prelude.{
  ℕ, zero, suc, ◌+◌, Bool, true, false, not, List, [], ◌∷◌, ◌++◌, if◌then◌else◌, Outcome, done,
  throws, faults,
}

-- `MakeWorkDone` and `MakeNoWorkDone` make the same.
pub record PumpResult : Type 0 where
  pub is_error : Bool

abbrev pub make_error : PumpResult
make_error = record { is_error = true }

abbrev pub make_work_done : PumpResult
make_work_done = record { is_error = false }

abbrev pub make_no_work_done : PumpResult
make_no_work_done = record { is_error = false }

-- The functions that a kind of device defines; the result of `Pump` is ignored.
pub data Hook : Type 0 where
  on_first_run : Hook
  on_run_start : Hook
  pump : Hook
  on_run_finish : Hook

-- `waits` counts the times that the semaphore was looked at, `trace` the calls of the hooks, in order;
-- `thread` tells if there is one, and `async_wait` if the start of a run was signaled.
pub record Device (W : Type 0) : Type 0 where
  pub running : Bool
  pub has_ran : Bool
  pub thread : Bool
  pub async_wait : Bool
  pub waits : ℕ
  pub trace : List Hook
  pub world : W

abbrev pub Ran : Type 0 → Type 0
Ran W = Outcome (Unit {0}) × Device W

abbrev pub run_then : {W : Type 0} → (Device W → Ran W) → Ran W → Ran W
run_then f (done tt, d) = f d
run_then f (throws e, d) = (throws e, d)
run_then f (faults, d) = (faults, d)

abbrev pub waited : {W : Type 0} → Device W → Device W
waited d = record d { waits = d.waits + 1 }

-- What the hooks do to the rest of the device, and if the semaphore is signaled when it is looked at for
-- the n-th time.
module _ {W : Type 0} (hooks : Hook → W → Outcome (Unit {0}) × W) (signaled : ℕ → Bool) where
  abbrev pub call : Hook → Device W → Ran W
  call h d = let r = hooks h d.world in (r.0, record d { trace = d.trace ++ h ∷ []; world = r.1 })

  -- The loop, in at most so many rounds.
  unfoldable pub pump_until : ℕ → Device W → Ran W
  pump_until zero d = (faults, d)
  pump_until (suc fuel) d =
      if signaled d.waits
      then (done tt, waited d)
      else run_then (pump_until fuel) (call Hook.pump (waited d))

  -- `OnFirstRun`, for what `has_ran` is.
  abbrev pub first_run : Bool → Device W → Ran W
  first_run true d = (done tt, d)
  first_run false d = call on_first_run d

  abbrev pub started : Device W → Device W
  started d = record d { running = true; has_ran = true; async_wait = true }

  abbrev pub finished : Device W → Ran W
  finished d = (done tt, record d { running = false })

  unfoldable pub run : ℕ → Device W → Ran W
  unfolding pump_until
  run fuel d =
      if signaled d.waits
      then (done tt, waited d)
      else run_then finished (
          run_then (call on_run_finish) (
            run_then (λ u. pump_until fuel (started u))
              (run_then (call on_run_start) (first_run d.has_ran (waited d)))))

  -- The handlers of `Run`, as that for `std::exception`, and of the second `OnRunFinish`: an exception is
  -- forgotten.
  abbrev pub caught : Ran W → Ran W
  caught (done tt, d) = (done tt, d)
  caught (throws e, d) = (done tt, record d { running = false })
  caught (faults, d) = (faults, d)

  abbrev pub forgotten : Ran W → Ran W
  forgotten (done tt, d) = (done tt, d)
  forgotten (throws e, d) = (done tt, d)
  forgotten (faults, d) = (faults, d)

  -- The function that the thread runs.
  unfoldable pub async_exec_start : ℕ → Device W → Ran W
  unfolding run
  async_exec_start fuel d =
      run_then finished (run_then (λ u. forgotten (call on_run_finish u)) (caught (run fuel d)))

  -- Up to the wait for the thread to signal that it has started.
  unfoldable pub run_async : Device W → Ran W
  run_async d =
      if signaled d.waits
      then (done tt, waited d)
      else if d.thread
      then (throws "device is already running asynchronously", waited d)
      else (done tt, record (waited d) { async_wait = false; thread = true })

-- `is_alive` is what the thread tells; one that has ended is not deleted.
unfoldable pub stop_async : {W : Type 0} → Bool → Device W → Ran W
stop_async is_alive d =
    if not d.thread
    then (throws "device is not running asynchronously", d)
    else (done tt, record d { thread = if is_alive then false else d.thread; running = false })
