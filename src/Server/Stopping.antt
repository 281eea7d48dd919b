-- ===== src/Server/Stopping.antt =====
-- src/zippylog/device/server.cpp, `CheckDevices` and `Shutdown`: all devices run, or none is left.
use zippylog.Prelude.{
  ◌≡◌, refl, inl, inr, ◌⊎◌, true, false, Bool-cases, Option, none, some, List, [], ◌∷◌, Outcome,
  done, throws, faults,
}
use zippylog.Device.{stop_async}
use zippylog.Server.Children.{
  Child, Devices, stop_child, stopped_then, stop_each, stop_all, stop_present, shutdown, is_up,
  all_up, check_devices,
}

-- A device that `RunAsync` has given a thread.
pub data IsStarted : Option Child → Type 0 where
  started : (c : Child) → c.thread ≡ true → IsStarted (some c)

pub data AllStarted : List (Option Child) → Type 0 where
  none_left : AllStarted []
  one_more :
      {c : Option Child} {cs : List (Option Child)}
      → IsStarted c
      → AllStarted cs
      → AllStarted (c ∷ cs)

pub data IsStartedOrNone : Option Child → Type 0 where
  absent : IsStartedOrNone none
  present : {c : Option Child} → IsStarted c → IsStartedOrNone c

-- What `Start` makes, and `Shutdown` leaves.
pub record AreStarted (d : Devices) : Type 0 where
  pub request_processors : AllStarted d.request_processors
  pub persisted_state_reactors : AllStarted d.persisted_state_reactors
  pub store_watcher : IsStartedOrNone d.store_watcher
  pub store_writer : IsStartedOrNone d.store_writer

abbrev pub none_left_of : Devices
none_left_of = record {
  active = true;
  request_processors = [];
  persisted_state_reactors = [];
  store_watcher = none;
  store_writer = none;
}

stop_child-stops : (c : Option Child) → IsStarted c → stop_child c ≡ (done tt, none)
unfolding stop_async
stop_child-stops none s = elim s [ ]
stop_child-stops (some c) (started _ t) = rw t refl

stop_each-stops : (cs : List (Option Child)) → AllStarted cs → (stop_each cs).0 ≡ done tt
unfolding stop_each
stop_each-stops [] s = refl
stop_each-stops (c ∷ cs) (one_more s t) =
    rw (stop_child-stops c s, stop_each) (stop_each-stops cs t)

cleared :
    (r : Outcome (Unit {0}) × List (Option Child))
    → r.0 ≡ done tt
    → stopped_then r (λ ds. ds) (λ ds. (done tt, [])) ≡ (done tt, [])
cleared (done a, ds) e = refl
cleared (throws x, ds) e = cc
cleared (faults, ds) e = cc

stop_all-stops : (cs : List (Option Child)) → AllStarted cs → stop_all cs ≡ (done tt, [])
stop_all-stops cs s = cleared (stop_each cs) (stop_each-stops cs s)

stop_present-stops : (c : Option Child) → IsStartedOrNone c → stop_present c ≡ (done tt, none)
stop_present-stops none s = refl
stop_present-stops (some c) (present s) = stop_child-stops (some c) s

shutdown-stops : (d : Devices) → AreStarted d → shutdown d ≡ (done tt, none_left_of)
unfolding shutdown
shutdown-stops d s =
    rw
      (
        stop_all-stops d.request_processors s.request_processors,
        stop_all-stops d.persisted_state_reactors s.persisted_state_reactors,
        stop_present-stops d.store_watcher s.store_watcher,
        stop_present-stops d.store_writer s.store_writer,
        shutdown,
      )
      refl

pub data IsRunning : Option Child → Type 0 where
  runs : {c : Child} → c.running ≡ true → IsRunning (some c)

pub data EachRuns : List (Option Child) → Type 0 where
  no_more : EachRuns []
  with_next :
      {c : Option Child} {cs : List (Option Child)} → IsRunning c → EachRuns cs → EachRuns (c ∷ cs)

-- Every device is there and runs.
pub data AllRun (d : Devices) : Type 0 where
  all_run :
      IsRunning d.store_writer
      → IsRunning d.store_watcher
      → EachRuns d.request_processors
      → EachRuns d.persisted_state_reactors
      → AllRun d

up_of : (c : Option Child) → IsRunning c → is_up c ≡ true
up_of none r = elim r [ ]
up_of (some c) (runs e) = e

of_up : (c : Option Child) → is_up c ≡ true → IsRunning c
of_up none e = cc
of_up (some c) e = runs e

each_up : (cs : List (Option Child)) → EachRuns cs → all_up cs ≡ some true
unfolding all_up
each_up [] r = refl
each_up (none ∷ cs) (with_next r rs) = elim r [ ]
each_up (some c ∷ cs) (with_next (runs e) rs) = rw (e, all_up) (each_up cs rs)

-- What the loops find: all run, or the first that does not.
found :
    (cs : List (Option Child))
    → AllStarted cs
    → (EachRuns cs × (all_up cs ≡ some true)) ⊎ (all_up cs ≡ some false)
unfolding all_up
found [] s = inl (no_more, refl)
found (none ∷ cs) (one_more s ss) = elim s [ ]
found (some c ∷ cs) (one_more s ss) = elim (Bool-cases c.running) [
  | inl e ↦ elim (found cs ss) [
    | inl (rs, u) ↦ inl (with_next (runs e) rs, rw (e, all_up) u)
    | inr u ↦ inr (rw (e, all_up) u)
  ]
  | inr e ↦ inr (rw (e, all_up) refl)
]

-- Where every device has a thread, the check leaves the server as it is if all devices are there and run;
-- else it signals the semaphore, stops every device and leaves none. It never throws then, and reads
-- no null pointer.
pub check_devices-all_or_none :
    (d : Devices)
    → AreStarted d
    → (AllRun d × (check_devices d ≡ (done tt, d)))
      ⊎ ((¬ AllRun d) × (check_devices d ≡ (done tt, none_left_of)))
unfolding check_devices
check_devices-all_or_none d s =
    (let down = shutdown-stops d s in
      elim (Bool-cases (is_up d.store_writer)) [
        | inr e ↦ inr (
          λ r. elim r [ all_run w a p q ↦ cc (e, up_of d.store_writer w) ],
          rw (e, check_devices) down,
        )
        | inl e ↦ elim (Bool-cases (is_up d.store_watcher)) [
          | inr f ↦ inr (
            λ r. elim r [ all_run w a p q ↦ cc (f, up_of d.store_watcher a) ],
            rw (e, f, check_devices) down,
          )
          | inl f ↦ elim (found d.request_processors s.request_processors) [
            | inr g ↦ inr (
              λ r. elim r [ all_run w a p q ↦ cc (g, each_up d.request_processors p) ],
              rw (e, f, g, check_devices) down,
            )
            | inl (ps, g) ↦ elim (found d.persisted_state_reactors s.persisted_state_reactors) [
              | inr h ↦ inr (
                λ r. elim r [ all_run w a p q ↦ cc (h, each_up d.persisted_state_reactors q) ],
                rw (e, f, g, h, check_devices) down,
              )
              | inl (qs, h) ↦ inl (
                all_run (of_up d.store_writer e) (of_up d.store_watcher f) ps qs,
                rw (e, f, g, h, check_devices) refl,
              )
            ]
          ]
        ]
      ])
