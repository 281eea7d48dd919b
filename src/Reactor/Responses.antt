-- ===== src/Reactor/Responses.antt =====
-- src/zippylog/request_processor.cpp: the functions that send responses to subscriptions, and the callbacks
-- of src/zippylog/device/persisted_state_reactor.cpp, which call them.
use zippylog.Prelude.{
  Bool, true, false, not, ◌&&◌, ◌||◌, Option, none, some, List, [], ◌∷◌, Text, length, is_empty,
  ltb, if◌then◌else◌, Outcome, done, throws, faults,
}
use zippylog.Store.Path.{StorePath, parse_path}
use zippylog.RequestProcessor.Messages.{SubscriptionInfo}
use zippylog.Manager.Changes.{ResponseState}
use zippylog.ZeroMq.{last_part, Socket, Sent, is_nonzero, send_envelope_to}
use zippylog.Reactor.Messages.{
  StoreChange, bucket_added, bucket_deleted, stream_set_added, stream_set_deleted, stream_added,
  stream_deleted,
}

-- The change that a path is told of: that of a stream, a stream set or a bucket.
unfoldable pub added_change : StorePath → StoreChange
added_change p =
    if not (is_empty p.stream)
    then stream_added p.bucket p.set p.stream
    else if not (is_empty p.set)
    then stream_set_added p.bucket p.set
    else bucket_added p.bucket

unfoldable pub deleted_change : StorePath → StoreChange
deleted_change p =
    if not (is_empty p.stream)
    then stream_deleted p.bucket p.set p.stream
    else if not (is_empty p.set)
    then stream_set_deleted p.bucket p.set
    else bucket_deleted p.bucket

-- The limits on what is held back, `max_size` and `max_envelopes`.
unfoldable pub is_full : ResponseState → Bool
is_full state = ltb 1048576 state.current_size || ltb 1024 (length state.messages)

-- `serialize` makes the bytes of an envelope with the start of a subscription's response, by the
-- identifier, and the change behind it, if there is one.
module _ {S : Type 0} (socket : Socket S)
    (serialize : Text → Option StoreChange → Option Text) where
  abbrev pub send_change :
      (StorePath → StoreChange) → SubscriptionInfo → Option StorePath → S → Outcome Bool × S
  send_change change subscription none s = (throws "invalid store path supplied", s)
  send_change change subscription (some p) s =
      let r =
        send_envelope_to socket subscription.socket_identifiers
          (serialize subscription.id (some (change p))) true (last_part false) s in
      (done (is_nonzero r.0), r.1)

  unfoldable pub send_subscription_store_change_path_added_response :
      SubscriptionInfo → Text → S → Outcome Bool × S
  unfolding added_change parse_path send_envelope_to
  send_subscription_store_change_path_added_response subscription path s =
      send_change added_change subscription (parse_path path) s

  unfoldable pub send_subscription_store_change_path_deleted_response :
      SubscriptionInfo → Text → S → Outcome Bool × S
  unfolding deleted_change parse_path send_envelope_to
  send_subscription_store_change_path_deleted_response subscription path s =
      send_change deleted_change subscription (parse_path path) s

  -- The loop over the messages: `i != end()` holds in each round, and the results are ignored.
  unfoldable pub send_messages : List Text → S → S
  send_messages [] s = s
  send_messages (t ∷ ts) s =
      send_messages ts (socket.send (record { dont_wait = false; more = true }) t s).1

  abbrev pub flush : ResponseState → Sent × S → Bool × ResponseState × S
  flush state (sent, s) =
      if not (is_nonzero sent)
      then (false, state, s)
      else (true, record state { messages = []; current_size = 0 }, send_messages state.messages s)

  unfoldable pub send_subscription_envelope_response : ResponseState → S → Bool × ResponseState × S
  unfolding is_full send_messages send_envelope_to
  send_subscription_envelope_response state s =
      if not state.finalized && not (is_full state)
      then (true, state, s)
      else if is_empty state.messages
      then (true, state, s)
      else flush state (
          send_envelope_to socket state.identities (serialize state.id none) true
            (record { dont_wait = false; more = true }) s)

  -- The callbacks; what sending returns is ignored.
  unfoldable pub path_added_callback : SubscriptionInfo → Text → S → Outcome (Unit {0}) × S
  unfolding send_subscription_store_change_path_added_response
  path_added_callback subscription path s =
      let r = send_subscription_store_change_path_added_response subscription path s in
      elim r.0 [ done _ ↦ (done tt, r.1) | throws e ↦ (throws e, r.1) | faults ↦ (faults, r.1) ]

  unfoldable pub path_deleted_callback : SubscriptionInfo → Text → S → Outcome (Unit {0}) × S
  unfolding send_subscription_store_change_path_deleted_response
  path_deleted_callback subscription path s =
      let r = send_subscription_store_change_path_deleted_response subscription path s in
      elim r.0 [ done _ ↦ (done tt, r.1) | throws e ↦ (throws e, r.1) | faults ↦ (faults, r.1) ]

  unfoldable pub stream_appended_callback :
      SubscriptionInfo → ResponseState → S → Outcome ResponseState × S
  unfolding send_subscription_envelope_response
  stream_appended_callback subscription state s =
      let r = send_subscription_envelope_response state s in (done r.1, r.2)
