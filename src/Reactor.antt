-- ===== src/Reactor.antt =====
-- src/zippylog/device/persisted_state_reactor.cpp: the device that has the subscription manager, with the
-- messages of src/proto/zippylog/protocol.proto that tell of changes of the store.
pub mod Messages
pub mod Pump
pub mod Responses
pub mod Unended
mod Examples
use Prim.Native.String.{String}
use zippylog.Prelude.{
  ℕ, zero, suc, ◌==◌, Bool, true, false, not, Option, none, some, List, [], ◌∷◌, Text, length,
  is_empty, if◌then◌else◌, Outcome, done, throws, faults,
}
use zippylog.Store.Path.{bucket_path, streamset_path, stream_path}
use zippylog.Envelope.{Envelope, get_message, read}
use zippylog.Stream.{CodedInput, InputStream}
use zippylog.Platform.{Moment}
use zippylog.RequestProcessor.Messages.{SubscriptionInfo}
use zippylog.RequestProcessor.Record.{SubscriptionRecord, from_record}
use zippylog.Manager.{Subscription}
use zippylog.Manager.Registration.{
  register_subscription, renew_subscriptions, remove_expired_subscriptions,
}
use zippylog.Manager.Changes.{
  PersistedStateManager, process_store_change_path_added, process_store_change_path_deleted,
  process_store_change_stream_appended,
}
use zippylog.ZeroMq.{last_part, Part, Socket, MessageContainer, receive_message}
use zippylog.Reactor.Messages.{
  StoreChange, bucket_added, bucket_deleted, stream_set_added, stream_set_deleted, stream_added,
  stream_deleted, stream_appended, Notice, subscription_record, store_change, keepalive,
}

-- What a function gives, and the manager that it leaves, also where it throws.
abbrev pub Managing : Type 0 → Type 0
Managing A = Outcome A × PersistedStateManager

abbrev pub with_subscriptions :
    {A : Type 0}
    → PersistedStateManager
    → Outcome A × List Subscription
    → Outcome (Unit {0}) × PersistedStateManager
with_subscriptions m (done a, ss) = (done tt, record m { subscriptions = ss })
with_subscriptions m (throws e, ss) = (throws e, record m { subscriptions = ss })
with_subscriptions m (faults, ss) = (faults, record m { subscriptions = ss })

-- The callbacks of the reactor; the manager only tests that there are some.
abbrev pub path_callback : Option (Unit {0})
path_callback = some tt

-- `m->bucket()` and the like: a null pointer, or a message of another class, is not to be read.
abbrev pub on_change :
    (StoreChange → Managing (Unit {0}))
    → PersistedStateManager
    → Option Notice
    → Managing (Unit {0})
on_change f m none = (faults, m)
on_change f m (some (subscription_record r)) = (faults, m)
on_change f m (some (store_change c)) = f c
on_change f m (some (keepalive ids)) = (faults, m)

abbrev pub then_with :
    {A : Type 0}
    → (A → Managing (Unit {0}))
    → PersistedStateManager
    → Outcome A
    → Managing (Unit {0})
then_with f m (done a) = f a
then_with f m (throws e) = (throws e, m)
then_with f m faults = (faults, m)

-- How the manager reads streams when one has grown; the rounds bound the envelopes that it reads then.
pub record StreamReading (Message : Type 0) : Type 0 where
  pub coded : CodedInput Message
  pub serialize : Envelope Message → Option Text
  pub get_input_stream : Text → Outcome (Option InputStream)
  pub rounds : ℕ

module _ {Message : Type 0} (store : StreamReading Message) where
  -- `ProcessStoreChangeStreamAppended` with a callback that is NULL.
  unfoldable pub process_appended : Text → ℕ → PersistedStateManager → Managing (Unit {0})
  unfolding process_store_change_stream_appended
  process_appended path n m =
      let r =
        process_store_change_stream_appended {W = Unit {0}} store.coded store.serialize
          store.get_input_stream store.rounds path n none m tt in
      (r.0, r.1)

  -- The `switch` of `ProcessStoreChangeMessage`.
  unfoldable pub process_change : ℕ → Option Notice → PersistedStateManager → Managing (Unit {0})
  unfolding process_appended process_store_change_path_added process_store_change_path_deleted
  process_change type notice m =
      let added : Text → Managing (Unit {0}) =
        λ path. process_store_change_path_added path_callback path m in
      let deleted : Text → Managing (Unit {0}) =
        λ path. process_store_change_path_deleted path_callback path m in
      if type == 100
      then on_change (λ c. elim c [ bucket_added b ↦ added (bucket_path b) | _ ↦ (faults, m) ]) m
          notice
      else if type == 101
      then on_change (λ c. elim c [ bucket_deleted b ↦ deleted (bucket_path b) | _ ↦ (faults, m) ])
          m notice
      else if type == 102
      then on_change
          (λ c. elim c [ stream_set_added b s ↦ added (streamset_path b s) | _ ↦ (faults, m) ]) m
          notice
      else if type == 103
      then on_change
          (λ c. elim c [ stream_set_deleted b s ↦ deleted (streamset_path b s) | _ ↦ (faults, m) ])
          m notice
      else if type == 97
      then on_change
          (λ c. elim c [ stream_added b s t ↦ added (stream_path b s t) | _ ↦ (faults, m) ]) m
          notice
      else if type == 98
      then on_change
          (λ c. elim c [ stream_deleted b s t ↦ deleted (stream_path b s t) | _ ↦ (faults, m) ]) m
          notice
      else if type == 99
      then on_change
          (λ c. elim c [
            | stream_appended b s t n ↦ process_appended (stream_path b s t) n m
            | _ ↦ (faults, m)
          ])
          m notice
      else (throws "unhandled message type in store change envelope", m)

-- `GetMessage(0)`.
abbrev pub first_message : (ℕ → ℕ → Text → Option Notice) → Envelope Notice → Option Notice
first_message parse_message e = (get_message parse_message 0 e).0

module _ {Message : Type 0} (store : StreamReading Message)
    (parse_envelope : Text → Option (Envelope Notice))
    (parse_message : ℕ → ℕ → Text → Option Notice) where
  unfoldable pub process_store_change_message : Text → PersistedStateManager → Managing (Unit {0})
  unfolding process_change
  process_store_change_message msg m = elim (parse_envelope msg) [
    | none ↦ (throws "deserialization error on receives store change envelope", m)
    | some e ↦
        if is_empty e.message
        then (throws "received store change envelope contains no messages", m)
        else then_with
            (λ ns.
              if not (ns == 1)
              then (throws "received store change envelope contains no messages", m)
              else then_with (λ type. process_change store type (first_message parse_message e) m) m
                  (read e.message_type 0))
            m (read e.message_namespace 0)
  ]

module _ (parse_envelope : Text → Option (Envelope Notice))
    (parse_message : ℕ → ℕ → Text → Option Notice) where
  -- `ProcessSubscriptionUpdate`, which nothing calls.
  unfoldable pub process_subscription_update :
      (Text → Moment) → Text → PersistedStateManager → Managing (Unit {0})
  unfolding renew_subscriptions
  process_subscription_update at msg m = elim (parse_envelope msg) [
    | none ↦ (throws "deserialization error on subscription update message", m)
    | some e ↦
        if not (length e.message == 1)
        then (throws "subscription update Envelope does not conform to expected", m)
        else then_with
            (λ ns.
              if not (ns == 1)
              then (throws "subscription update Envelope does not conform to expected", m)
              else then_with
                  (λ type.
                    if not (type == 82)
                    then (throws "unknown type of subscription update message", m)
                    else elim (first_message parse_message e) [
                      | none ↦ (throws "could not obtain keepalive message", m)
                      | some notice ↦ elim notice [
                        | keepalive ids ↦
                            with_subscriptions m
                              (renew_subscriptions m.subscription_ttl at ids m.subscriptions)
                        | _ ↦ (faults, m)
                      ]
                    ])
                  m (read e.message_type 0))
            m (read e.message_namespace 0)
  ]

  abbrev pub register_record : Moment → PersistedStateManager → Option Notice → Managing (Unit {0})
  register_record at m none = (faults, m)
  register_record at m (some (subscription_record r)) =
      then_with
        (λ si.
          with_subscriptions m (register_subscription m.subscription_ttl at si m.subscriptions))
        m (from_record r)
  register_record at m (some (store_change c)) = (faults, m)
  register_record at m (some (keepalive ids)) = (faults, m)

  -- What `Pump` does with the messages of the subscriptions socket.
  unfoldable pub process_subscription :
      Moment → List Text → PersistedStateManager → Managing (Unit {0})
  unfolding register_subscription from_record
  process_subscription at [] m = (throws "didn't receive valid payload on subscriptions sock", m)
  process_subscription at (msg ∷ msgs) m = elim (parse_envelope msg) [
    | none ↦ (throws "deserialization error", m)
    | some e ↦
        if not (length e.message == 1)
        then (throws "unknown envelope payload received", m)
        else then_with
            (λ ns.
              if not (ns == 1)
              then (throws "invalid namespace seen on first message", m)
              else then_with
                  (λ type.
                    if type == 119
                    then register_record at m (first_message parse_message e)
                    else (throws "unknown message type seen on subscriptions sock", m))
                  m (read e.message_type 0))
            m (read e.message_namespace 0)
  ]
