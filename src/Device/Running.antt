-- ===== src/Device/Running.antt =====
-- src/zippylog/device/device.cpp, `Run` and `AsyncExecStart`: the order in which the hooks are called.
use mathlib.Core.List.{append_assoc, append-nil}
use zippylog.Prelude.{
  ℕ, zero, suc, ◌+◌, ◌<◌, ◌≡◌, refl, sym, ap, ◌∙◌, Bool, true, false, List, [], ◌∷◌, ◌++◌,
  replicate, Outcome, done, throws, faults, arith,
}
use zippylog.Device.{
  Hook, on_first_run, on_run_start, on_run_finish, Device, Ran, run_then, waited, call, pump_until,
  first_run, started, finished, run, caught, forgotten, async_exec_start,
}

-- No hook throws.
unfoldable pub Succeeds : {W : Type 0} → (Hook → W → Outcome (Unit {0}) × W) → Type 0
Succeeds {W} hooks = (h : Hook) (w : W) → (hooks h w).0 ≡ done tt

abbrev first_hooks : Bool → List Hook
first_hooks true = []
first_hooks false = on_first_run ∷ []

-- The hooks of a run with a number of pumps.
unfoldable pub expected : Bool → ℕ → List Hook
expected has_ran n =
    first_hooks has_ran ++ on_run_start ∷ replicate n Hook.pump ++ on_run_finish ∷ []

module _ {W : Type 0} (hooks : Hook → W → Outcome (Unit {0}) × W) (signaled : ℕ → Bool) where
  -- The call ends well, with the trace longer by some hooks, and a number of looks at the semaphore.
  data Runs (d : Device W) (hs : List Hook) (n : ℕ) (r : Ran W) : Type 0 where
    runs : r.0 ≡ done tt → r.1.trace ≡ d.trace ++ hs → r.1.waits ≡ d.waits + n → Runs d hs n r

  call-Runs :
      (h : Hook) (d : Device W) → Succeeds hooks → Runs d (h ∷ []) 0 (call hooks signaled h d)
  unfolding Succeeds
  call-Runs h d s = runs (s h d.world) refl (omega arith)

  then-Runs :
      (d : Device W) (hs ks : List Hook) (m n total : ℕ) (r : Ran W) (f : Device W → Ran W)
      → total ≡ m + n
      → Runs d hs m r
      → Runs r.1 ks n (f r.1)
      → Runs d (hs ++ ks) total (run_then f r)
  then-Runs d hs ks m n total (done a, u) f e (runs o t w) (runs p v x) =
      runs p (v ∙ ap (λ l. l ++ ks) t ∙ append_assoc d.trace hs ks) (omega (arith, e, w, x))
  then-Runs d hs ks m n total (throws x, u) f e (runs o t w) k = cc
  then-Runs d hs ks m n total (faults, u) f e (runs o t w) k = cc

  waited-Runs :
      (d : Device W) (hs : List Hook) (n : ℕ) (r : Ran W)
      → Runs (waited d) hs n r
      → Runs d hs (suc n) r
  waited-Runs d hs n r (runs o t w) = runs o t (omega (arith, w))

  at_start : (b w : ℕ) → b ≡ w → w + 0 ≡ b
  at_start b w e = omega (arith, e)

  one_later : (w i : ℕ) → w + suc i ≡ w + 1 + i
  one_later w i = omega arith

  -- The loop: a pump for each look at the semaphore before the one that finds it signaled.
  pump_until-Runs :
      (n fuel w : ℕ) (d : Device W)
      → Succeeds hooks
      → d.waits ≡ w
      → ((i : ℕ) → i < n → signaled (w + i) ≡ false)
      → signaled (w + n) ≡ true
      → n < fuel
      → Runs d (replicate n Hook.pump) (suc n) (pump_until hooks signaled fuel d)
  unfolding pump_until
  pump_until-Runs n zero w d s e q t f = absurd (omega arith)
  pump_until-Runs zero (suc fuel) w d s e q t f =
      rw (ap signaled (sym (at_start d.waits w e)) ∙ t, pump_until)
        (runs refl (sym (append-nil d.trace)) (omega arith))
  pump_until-Runs (suc n) (suc fuel) w d s e q t f =
      (let called = call hooks signaled Hook.pump (waited d) in
        rw (ap signaled (sym (at_start d.waits w e)) ∙ q 0 (omega arith), pump_until)
          (waited-Runs d (Hook.pump ∷ replicate n Hook.pump) (suc n) _ (
            then-Runs (waited d) (Hook.pump ∷ []) (replicate n Hook.pump) 0 (suc n) (suc n) called
              (pump_until hooks signaled fuel) (omega arith) (call-Runs Hook.pump (waited d) s)
              (pump_until-Runs n fuel (w + 1) called.1 s (omega (arith, e))
                (λ i h. ap signaled (sym (one_later w i)) ∙ q (suc i) (omega arith))
                (ap signaled (sym (one_later w n)) ∙ t) (omega arith)))))

  first-Runs :
      (b : Bool) (d : Device W)
      → Succeeds hooks
      → Runs d (first_hooks b) 0 (first_run hooks signaled b d)
  first-Runs true d s = runs refl (sym (append-nil d.trace)) (omega arith)
  first-Runs false d s = call-Runs on_first_run d s

  finished-Runs :
      (d : Device W) (hs : List Hook) (n : ℕ) (r : Ran W)
      → Runs d hs n r
      → Runs d hs n (run_then (finished hooks signaled) r)
  finished-Runs d hs n (done a, u) (runs o t w) = runs o t w
  finished-Runs d hs n (throws x, u) (runs o t w) = cc
  finished-Runs d hs n (faults, u) (runs o t w) = cc

  started-Runs :
      (d : Device W) (hs : List Hook) (n : ℕ) (r : Ran W)
      → Runs (started hooks signaled d) hs n r
      → Runs d hs n r
  started-Runs d hs n r (runs o t w) = runs o t w

  relisted :
      (d : Device W) (hs ks : List Hook) (n : ℕ) (r : Ran W)
      → hs ≡ ks
      → Runs d hs n r
      → Runs d ks n r
  relisted d hs ks n r e (runs o t w) = runs o (t ∙ ap (λ l. d.trace ++ l) e) w

  looked :
      (d : Device W) (hs : List Hook) (r : Ran W) → Runs (waited d) hs 0 r → r.1.waits ≡ d.waits + 1
  looked d hs r (runs o t w) = omega (arith, w)

  -- Up to the loop.
  led_in : (d : Device W) → Ran W
  led_in d =
      run_then (call hooks signaled on_run_start) (first_run hooks signaled d.has_ran (waited d))

  led_in-Runs :
      (d : Device W)
      → Succeeds hooks
      → Runs (waited d) (first_hooks d.has_ran ++ on_run_start ∷ []) 0 (led_in d)
  unfolding led_in
  led_in-Runs d s =
      (let one = first_run hooks signaled d.has_ran (waited d) in
        then-Runs (waited d) (first_hooks d.has_ran) (on_run_start ∷ []) 0 0 0 one
          (call hooks signaled on_run_start) refl (first-Runs d.has_ran (waited d) s)
          (call-Runs on_run_start one.1 s))

  in_order :
      (b : Bool) (n : ℕ)
      → ((first_hooks b ++ on_run_start ∷ []) ++ replicate n Hook.pump) ++ on_run_finish ∷ []
        ≡ expected b n
  unfolding expected
  in_order b n = simp append_assoc

  run-Runs :
      (n fuel : ℕ) (d : Device W)
      → Succeeds hooks
      → ((i : ℕ) → i < suc n → signaled (d.waits + i) ≡ false)
      → signaled (d.waits + suc n) ≡ true
      → n < fuel
      → Runs d (expected d.has_ran n) (suc (suc n)) (run hooks signaled fuel d)
  unfolding run led_in
  run-Runs n fuel d s q t f =
      (let two = led_in d in
        let hs = first_hooks d.has_ran ++ on_run_start ∷ [] in
        let ps = replicate n Hook.pump in
        let three = run_then (λ v. pump_until hooks signaled fuel (started hooks signaled v)) two in
        rw (ap signaled (sym (at_start d.waits d.waits refl)) ∙ q 0 (omega arith), run)
          (waited-Runs d (expected d.has_ran n) (suc n) _ (
            finished-Runs (waited d) (expected d.has_ran n) (suc n) _ (
              relisted (waited d) ((hs ++ ps) ++ on_run_finish ∷ []) (expected d.has_ran n) (suc n)
                _ (in_order d.has_ran n)
                (then-Runs (waited d) (hs ++ ps) (on_run_finish ∷ []) (suc n) 0 (suc n) three
                  (call hooks signaled on_run_finish) (omega arith)
                  (then-Runs (waited d) hs ps 0 (suc n) (suc n) two
                    (λ v. pump_until hooks signaled fuel (started hooks signaled v)) (omega arith)
                    (led_in-Runs d s)
                    (started-Runs two.1 ps (suc n) _ (
                      pump_until-Runs n fuel (d.waits + 1) (started hooks signaled two.1) s
                        (looked d hs two (led_in-Runs d s))
                        (λ i h. ap signaled (sym (one_later d.waits i)) ∙ q (suc i) (omega arith))
                        (ap signaled (sym (one_later d.waits n)) ∙ t) f)))
                  (call-Runs on_run_finish three.1 s))))))

  not_running :
      (r : Ran W)
      → r.0 ≡ done tt
      → run_then (finished hooks signaled) (forgotten hooks signaled r)
        ≡ (done tt, record r.1 { running = false })
  not_running (done a, u) e = refl
  not_running (throws x, u) e = cc
  not_running (faults, u) e = cc

  again_finished :
      (d : Device W) (hs : List Hook) (n : ℕ) (r : Ran W)
      → Succeeds hooks
      → Runs d hs n r
      → let ended = run_then (finished hooks signaled) (
          run_then
            (λ u. forgotten hooks signaled (call hooks signaled on_run_finish u))
            (caught hooks signaled r)) in
        (ended.0 ≡ done tt)
        × (ended.1.trace ≡ d.trace ++ hs ++ on_run_finish ∷ [])
        × (ended.1.running ≡ false)
  unfolding Succeeds
  again_finished d hs n (done a, u) s (runs o t w) =
      (let e = not_running (call hooks signaled on_run_finish u) (s on_run_finish u.world) in
        (
          ap (λ r. r.0) e,
          ap (λ r. r.1.trace) e ∙ ap (λ l. l ++ on_run_finish ∷ []) t,
          ap (λ r. r.1.running) e,
        ))
  again_finished d hs n (throws x, u) s (runs o t w) = cc
  again_finished d hs n (faults, u) s (runs o t w) = cc

  -- Where no hook throws and the semaphore is found signaled only after `n` rounds, the thread's function
  -- ends well on any more fuel, with the device not running, and has called the hooks in this order:
  -- `OnFirstRun`, unless the device has run before, `OnRunStart`, `Pump` `n` times, and `OnRunFinish`
  -- twice.
  pub async_exec_start-finishes_twice :
      (n fuel : ℕ) (d : Device W)
      → Succeeds hooks
      → ((i : ℕ) → i < suc n → signaled (d.waits + i) ≡ false)
      → signaled (d.waits + suc n) ≡ true
      → n < fuel
      → let ended = async_exec_start hooks signaled fuel d in
        (ended.0 ≡ done tt)
        × (ended.1.trace ≡ d.trace ++ expected d.has_ran n ++ on_run_finish ∷ [])
        × (ended.1.running ≡ false)
  unfolding async_exec_start
  async_exec_start-finishes_twice n fuel d s q t f =
      again_finished d (expected d.has_ran n) (suc (suc n)) (run hooks signaled fuel d) s
        (run-Runs n fuel d s q t f)
