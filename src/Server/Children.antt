-- ===== src/Server/Children.antt =====
-- src/zippylog/device/server.cpp: `CheckDevices` and `Shutdown`, over the devices that the server has.
use zippylog.Prelude.{
  Bool, true, false, not, Option, none, some, List, [], ◌∷◌, if◌then◌else◌, Outcome, done, throws,
  faults,
}
use zippylog.Device.{Device, stop_async}

-- A device of its own thread; `world` tells if the thread is alive.
abbrev pub Child : Type 0
Child = Device Bool

-- The devices that the server has: none for a null pointer. `active` is the semaphore that ends them all.
pub record Devices : Type 0 where
  pub active : Bool
  pub request_processors : List (Option Child)
  pub persisted_state_reactors : List (Option Child)
  pub store_watcher : Option Child
  pub store_writer : Option Child

-- `StopAsync` and `delete`; a null pointer is not to be followed.
abbrev pub stop_child : Option Child → Outcome (Unit {0}) × Option Child
stop_child none = (faults, none)
stop_child (some c) =
    let r = stop_async c.world c in
    elim r.0 [
      | done _ ↦ (done tt, none)
      | throws e ↦ (throws e, some r.1)
      | faults ↦ (faults, some r.1)
    ]

abbrev pub stopped_then :
    {A B : Type 0}
    → (Outcome (Unit {0}) × A)
    → (A → B)
    → (A → Outcome (Unit {0}) × B)
    → Outcome (Unit {0}) × B
stopped_then (done _, a) f g = g a
stopped_then (throws e, a) f g = (throws e, f a)
stopped_then (faults, a) f g = (faults, f a)

-- The loops over the vectors, which leave null pointers behind them, and the calls of `clear`.
unfoldable pub stop_each : List (Option Child) → Outcome (Unit {0}) × List (Option Child)
unfolding stop_async
stop_each [] = (done tt, [])
stop_each (c ∷ cs) =
    let rest = stop_each cs in stopped_then (stop_child c) (λ d. d ∷ cs) (λ d. (rest.0, d ∷ rest.1))

abbrev pub stop_all : List (Option Child) → Outcome (Unit {0}) × List (Option Child)
stop_all cs = stopped_then (stop_each cs) (λ ds. ds) (λ ds. (done tt, []))

abbrev pub stop_present : Option Child → Outcome (Unit {0}) × Option Child
stop_present none = (done tt, none)
stop_present (some c) = stop_child (some c)

unfoldable pub shutdown : Devices → Outcome (Unit {0}) × Devices
unfolding stop_each stop_async
shutdown ds =
    let d = record ds { active = true } in
    stopped_then (stop_all d.request_processors) (λ ps. record d { request_processors = ps })
      (λ ps.
        let d = record d { request_processors = ps } in
        stopped_then (stop_all d.persisted_state_reactors)
          (λ rs. record d { persisted_state_reactors = rs })
          (λ rs.
            let d = record d { persisted_state_reactors = rs } in
            stopped_then (stop_present d.store_watcher) (λ w. record d { store_watcher = w })
              (λ w.
                let d = record d { store_watcher = w } in
                stopped_then (stop_present d.store_writer) (λ w. record d { store_writer = w })
                  (λ w. (done tt, record d { store_writer = w })))))

abbrev pub is_up : Option Child → Bool
is_up none = false
is_up (some c) = c.running

-- If all run, up to the first that does not; none at a null pointer.
unfoldable pub all_up : List (Option Child) → Option Bool
all_up [] = some true
all_up (none ∷ cs) = none
all_up (some c ∷ cs) = let rest = all_up cs in if not c.running then some false else rest

abbrev pub checked_then :
    Option Bool → Devices → Outcome (Unit {0}) × Devices → Outcome (Unit {0}) × Devices
checked_then none d next = (faults, d)
checked_then (some false) d next = shutdown d
checked_then (some true) d next = next

unfoldable pub check_devices : Devices → Outcome (Unit {0}) × Devices
unfolding shutdown all_up
check_devices d =
    if not (is_up d.store_writer)
    then shutdown d
    else if not (is_up d.store_watcher)
    then shutdown d
    else checked_then (all_up d.request_processors) d
        (checked_then (all_up d.persisted_state_reactors) d (done tt, d))
