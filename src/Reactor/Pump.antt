-- ===== src/Reactor/Pump.antt =====
-- src/zippylog/device/persisted_state_reactor.cpp, `Pump`.
use zippylog.Prelude.{ℕ, Bool, true, false, Option, none, some, Text, Outcome, done, throws, faults}
use zippylog.Envelope.{Envelope}
use zippylog.Platform.{Moment}
use zippylog.Manager.Registration.{remove_expired_subscriptions}
use zippylog.Manager.Changes.{PersistedStateManager}
use zippylog.ZeroMq.{last_part, Part, Socket, MessageContainer, receive_message}
use zippylog.Reactor.Messages.{Notice}
use zippylog.Reactor.{
  Managing, with_subscriptions, StreamReading, process_store_change_message, process_subscription,
}

-- What `poll` tells: the sockets that have a message.
pub record Events : Type 0 where
  pub store_changes : Bool
  pub subscriptions : Bool
  pub updates : Bool

pub record Reactor (S C : Type 0) : Type 0 where
  pub manager : PersistedStateManager
  pub subscription_sock : S
  pub store_changes_sock : C

abbrev pub Pumped : Type 0 → Type 0 → Type 0
Pumped S C = Outcome (Unit {0}) × Reactor S C

abbrev pub pump_then : {S C : Type 0} → (Reactor S C → Pumped S C) → Pumped S C → Pumped S C
pump_then f (done tt, r) = f r
pump_then f (throws e, r) = (throws e, r)
pump_then f (faults, r) = (faults, r)

abbrev pub if_pending :
    {S C : Type 0} → Bool → (Reactor S C → Pumped S C) → Reactor S C → Pumped S C
if_pending true f r = f r
if_pending false f r = (done tt, r)

abbrev pub managed : {S C : Type 0} → Reactor S C → Managing (Unit {0}) → Pumped S C
managed r (o, m) = (o, record r { manager = m })

-- `RemoveExpiredSubscriptions`, whose count is ignored.
unfoldable pub remove_expired : {S C : Type 0} → (Text → Moment) → Reactor S C → Pumped S C
unfolding remove_expired_subscriptions
remove_expired at r =
    managed r
      (with_subscriptions r.manager (remove_expired_subscriptions at r.manager.subscriptions))

module _ {Message : Type 0} (store : StreamReading Message)
    (parse_envelope : Text → Option (Envelope Notice))
    (parse_message : ℕ → ℕ → Text → Option Notice) where
  module _ {S C : Type 0} (subscriptions : Socket S) (changes : Socket C) where
    abbrev pub subscribed : Moment → Reactor S C → Option Bool × MessageContainer × S → Pumped S C
    subscribed at r (none, c, s) = (faults, record r { subscription_sock = s })
    subscribed at r (some false, c, s) = (
      throws "error receiving 0MQ message on subscriptions sock",
      record r { subscription_sock = s },
    )
    subscribed at r (some true, c, s) =
        managed (record r { subscription_sock = s })
          (process_subscription parse_envelope parse_message at c.messages r.manager)

    -- The message of a new subscription, of at most so many frames.
    unfoldable pub receive_subscription : ℕ → Moment → Reactor S C → Pumped S C
    unfolding process_subscription receive_message
    receive_subscription frames at r =
        subscribed at r (receive_message subscriptions frames (last_part false) r.subscription_sock)

    abbrev pub changed : Reactor S C → Option Part × C → Pumped S C
    changed r (none, s) = (
      throws "error receiving 0MQ message on store changes socket",
      record r { store_changes_sock = s },
    )
    changed r (some (t, more), s) =
        managed (record r { store_changes_sock = s })
          (process_store_change_message store parse_envelope parse_message t r.manager)

    unfoldable pub receive_change : Reactor S C → Pumped S C
    unfolding process_store_change_message
    receive_change r = changed r (changes.recv (last_part false) r.store_changes_sock)

    -- The messages that wait, behind the housekeeping.
    abbrev pub process_pending : ℕ → Moment → Events → Pumped S C → Pumped S C
    process_pending frames now events p =
        pump_then (if_pending events.store_changes receive_change)
          (pump_then (if_pending events.subscriptions (receive_subscription frames now)) p)

    -- `Pump`; `poll` is none where there is no message. Those of the updates socket are left there.
    unfoldable pub pump : ℕ → (Text → Moment) → Moment → Option Events → Reactor S C → Pumped S C
    unfolding remove_expired receive_subscription receive_change
    pump frames at now none r = remove_expired at r
    pump frames at now (some events) r = process_pending frames now events (remove_expired at r)
