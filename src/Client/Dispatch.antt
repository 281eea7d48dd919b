-- ===== src/Client/Dispatch.antt =====
-- src/zippylog/client.cpp: `ProcessResponseMessage` and the responses to subscriptions.
use zippylog.Prelude.{
  ℕ, zero, suc, ◌+◌, ◌-◌, ◌==◌, Bool, true, false, not, ◌||◌, Option, none, some, List, [], ◌∷◌,
  Text, length, is_empty, if◌then◌else◌, Outcome, done, throws, faults,
}
use zippylog.Envelope.{Envelope, read}
use zippylog.Platform.{Moment}
use zippylog.Reactor.Messages.{StoreChange}
use zippylog.Client.Messages.{
  Reply, Callback, SubscriptionCallbacks, ClientSubscription, Told, Client, find, cast,
  to_store_change, to_subscription_start,
}
use zippylog.Client.{Handled, call, then_do, go_on, message_at, handle_request_response}

-- The callback for the messages of a number.
unfoldable pub callback_for : ℕ → SubscriptionCallbacks → Option Callback
callback_for type cb =
    if type == 100
    then cb.bucket_added
    else if type == 101
    then cb.bucket_deleted
    else if type == 102
    then cb.stream_set_added
    else if type == 103
    then cb.stream_set_deleted
    else if type == 97
    then cb.stream_added
    else if type == 98
    then cb.stream_deleted
    else if type == 99
    then cb.stream_appended
    else none

-- `HasSubscription`.
unfoldable pub has_subscription : Text → Client → Bool
unfolding find
has_subscription id c = elim (find id c.subscriptions) [ none ↦ false | some _ ↦ true ]

-- `ValidateSubscriptionStart`.
unfoldable pub validate_subscription_start : Option Text → Client → Bool
unfolding has_subscription
validate_subscription_start none c = false
validate_subscription_start (some id) c = has_subscription id c

-- What `CancelSubscription` and `CancelAllSubscriptions` give; they change nothing.
unfoldable pub cancel_subscription : Text → Client → Bool × Client
cancel_subscription id c = (false, c)

unfoldable pub cancel_all_subscriptions : Client → Bool × Client
cancel_all_subscriptions c = (true, c)

module _ (open_protocol open_raw : Text → Option (Envelope Reply))
    (parse : ℕ → ℕ → Text → Option Reply) where
  abbrev pub tell_change :
      Callback → Text → ℕ → Option StoreChange → Client → Outcome (Unit {0}) × Client
  tell_change cb id context none c = (faults, c)
  tell_change cb id context (some s) c = (done tt, call (some cb) (Told.changed id s) context c)

  abbrev pub tell_for :
      Option Callback
      → Text
      → ClientSubscription
      → Envelope Reply
      → ℕ
      → Client
      → Outcome (Unit {0}) × Client
  tell_for none id sub e i c = (done tt, c)
  tell_for (some cb) id sub e i c =
      tell_change cb id sub.context
        (cast to_store_change (message_at open_protocol open_raw parse i e)) c

  -- The message at a place of the envelope, for the callback of its kind if there is one.
  unfoldable pub tell_message :
      Text → ClientSubscription → Envelope Reply → ℕ → Client → Outcome (Unit {0}) × Client
  unfolding callback_for
  tell_message id sub e i c =
      then_do (λ type. tell_for (callback_for type sub.cb) id sub e i c) c (read e.message_type i)

  -- The loop over as many messages, from a place on.
  unfoldable pub tell_messages :
      Text → ClientSubscription → Envelope Reply → ℕ → ℕ → Client → Outcome (Unit {0}) × Client
  unfolding tell_message
  tell_messages id sub e zero i c = (done tt, c)
  tell_messages id sub e (suc n) i c =
      go_on (tell_messages id sub e n (i + 1)) (tell_message id sub e i c)

  -- The loop over the envelopes that were streamed.
  unfoldable pub tell_envelopes : Callback → Text → ℕ → List Text → Client → Handled
  tell_envelopes cb id context [] c = (done true, c)
  tell_envelopes cb id context (msg ∷ msgs) c = elim (open_raw msg) [
    | none ↦ (throws "envelope of a subscription does not parse", c)
    | some env ↦ tell_envelopes cb id context msgs (call (some cb) (Told.received id env) context c)
  ]

  abbrev pub tell_streamed : Option Callback → Text → ℕ → List Text → Client → Handled
  tell_streamed none id context messages c = (done true, c)
  tell_streamed (some cb) id context messages c = tell_envelopes cb id context messages c

  abbrev pub tell_subscription :
      Option ClientSubscription → Envelope Reply → Text → List Text → Client → Handled
  tell_subscription none e id messages c = (done false, c)
  tell_subscription (some sub) e id messages c =
      go_on (tell_streamed sub.cb.envelope_received id sub.context messages)
        (tell_messages id sub e (length e.message - 1) 1 c)

  unfoldable pub handle_subscription_response : Envelope Reply → Text → List Text → Client → Handled
  unfolding find tell_messages tell_envelopes
  handle_subscription_response e id messages c =
      tell_subscription (find id c.subscriptions) e id messages c

  abbrev pub handle_start : Envelope Reply → List Text → Client → Option (Option Text) → Handled
  handle_start e messages c none = (faults, c)
  handle_start e messages c (some none) = (done false, c)
  handle_start e messages c (some (some id)) =
      if validate_subscription_start (some id) c
      then handle_subscription_response e id messages c
      else (done false, c)

  -- The branches of the number of the first message. Responses with the info of a bucket, a stream set
  -- or a stream and errors are among those that are passed over.
  unfoldable pub process_type :
      Moment → ℕ → ℕ → Text → List Text → Envelope Reply → Client → Handled
  unfolding handle_subscription_response handle_request_response validate_subscription_start
  process_type m left type first more e c =
      if type == 107
      then handle_start e more c
          (cast to_subscription_start (message_at open_protocol open_raw parse 0 e))
      else if (type == 70) || (type == 96) || (type == 104) || (type == 109)
      then handle_request_response open_protocol open_raw parse m left type first more e c
      else (done false, c)

  abbrev pub process_envelope :
      Moment → ℕ → Text → List Text → Option (Envelope Reply) → Client → Handled
  process_envelope m left first more none c = (throws "envelope of the response does not parse", c)
  process_envelope m left first more (some e) c =
      if is_empty e.message
      then (done false, c)
      else then_do
          (λ ns.
            if not (ns == 1)
            then (done false, c)
            else then_do (λ type. process_type m left type first more e c) c
                (read e.message_type 0))
          c (read e.message_namespace 0)

  -- The first message decides.
  unfoldable pub process_response_message : Moment → ℕ → List Text → Client → Handled
  unfolding process_type
  process_response_message m left [] c = (faults, c)
  process_response_message m left (first ∷ more) c =
      process_envelope m left first more (open_protocol first) c
