-- ===== src/Worker/Subscribing.antt =====
-- src/zippylog/device/server_worker.cpp, src/zippylog/device/server.cpp and
-- src/zippylog/device/persisted_state_reactor.cpp: what becomes of a subscription between the worker that
-- accepts it and the manager.
use zippylog.Prelude.{
  ℕ, suc, ◌≡◌, refl, ap, ◌∙◌, true, false, Option, some, List, [], ◌∷◌, ◌++◌, Text, is_empty, done,
  throws,
}
use zippylog.Envelope.{Envelope}
use zippylog.Platform.{Moment}
use zippylog.RequestProcessor.Messages.{SubscriptionInfo, make_subscription_accepted}
use zippylog.RequestProcessor.Record.{SubscriptionRecord, to_protocol_buffer}
use zippylog.ZeroMq.{
  Flags, last_part, Part, Socket, to_message, sent_by, send_envelope, new_container, add_identity,
  receive_more, receive_message, transfer_message,
}
use zippylog.ZeroMq.Delivery.{IsWired}
use zippylog.ZeroMq.Transfer.{last, IsOpen, transfer-moves}
use zippylog.Reactor.Messages.{Notice}
use zippylog.Reactor.{StreamReading, with_subscriptions, process_subscription}
use zippylog.Manager.{Subscription}
use zippylog.Manager.Registration.{remove_expired_subscriptions}
use zippylog.Reactor.Pump.{
  receive_change, managed, process_pending, if_pending, Events, Reactor, pump_then, subscribed,
  remove_expired, receive_subscription, pump,
}
use zippylog.Worker.{accepted, send_record, with_id, handle_subscription_request}

-- A message of one frame is all identity.
receive-single :
    {S : Type 0} (socket : Socket S) (wire : S → List Part) (laws : IsWired socket wire) (fuel : ℕ)
    (flags : Flags) (s : S) (t : Text)
    → wire s ≡ (t, false) ∷ []
    → is_empty t ≡ false
    → receive_message socket (suc fuel) flags s
      ≡ (some true, add_identity t new_container, (socket.recv flags s).1)
unfolding receive_message receive_more
receive-single socket wire laws fuel flags s t h e =
    rw ((laws.recv_takes flags s (t, false) [] h).0, e, receive_more) refl

abbrev with_subscribers : {S C : Type 0} → List Subscription → Reactor S C → Reactor S C
with_subscribers ss r = record r { manager = record r.manager { subscriptions = ss } }

module _ {R : Type 0} (first : Socket R) (coming : R → List Part)
    (laws : IsWired first coming) where
  accepting :
      (serialize : SubscriptionRecord → Option Text) (id t : Text) (info : SubscriptionInfo)
      (m : SubscriptionRecord) (r : R)
      → IsOpen first
      → coming r ≡ []
      → to_protocol_buffer info ≡ done m
      → serialize (with_id id m) ≡ some t
      → let handled = handle_subscription_request first serialize id info r in
        (handled.0 ≡ done (make_subscription_accepted id 0)) × (coming handled.1 ≡ (t, false) ∷ [])
  unfolding handle_subscription_request send_envelope to_message IsOpen
  accepting serialize id t info m r o i p k =
      (let taken = o (last_part false) t r in
        let handled =
          ap (send_record first serialize id r) p
          ∙ ap (λ b. accepted id (send_envelope first b false (last_part false) r)) k
          ∙ ap (λ b. accepted id (sent_by b, (first.send (last_part false) t r).1)) taken in
        (
          ap (λ h. h.0) handled,
          ap (λ h. coming h.1) handled
              ∙ laws.send_adds (last_part false) t r taken
              ∙ ap (λ w. w ++ (t, false) ∷ []) i,
        ))

module _ {Message : Type 0} (store : StreamReading Message)
    (parse_envelope : Text → Option (Envelope Notice))
    (parse_message : ℕ → ℕ → Text → Option Notice) {S C : Type 0} (second : Socket S)
    (changes : Socket C) (going : S → List Part) (laws : IsWired second going) where
  single-throws :
      (frames : ℕ) (now : Moment) (t : Text) (r : Reactor S C)
      → going r.subscription_sock ≡ (t, false) ∷ []
      → is_empty t ≡ false
      → receive_subscription store parse_envelope parse_message second changes (suc frames) now r
        ≡ (
          throws "didn't receive valid payload on subscriptions sock",
          record r { subscription_sock = (second.recv (last_part false) r.subscription_sock).1 },
        )
  unfolding receive_subscription process_subscription
  single-throws frames now t r h e =
      ap (subscribed store parse_envelope parse_message second changes now r)
        (receive-single second going laws frames (last_part false) r.subscription_sock t h e)

  pump-throws :
      (frames : ℕ) (at : Text → Moment) (now : Moment) (events : Events) (t : Text)
      (r : Reactor S C) (n : ℕ) (ss : List Subscription)
      → events.subscriptions ≡ true
      → remove_expired_subscriptions at r.manager.subscriptions ≡ (done n, ss)
      → going r.subscription_sock ≡ (t, false) ∷ []
      → is_empty t ≡ false
      → let pumped =
          pump store parse_envelope parse_message second changes
            (suc frames)
            at
            now
            (some events)
            r in
        (pumped.0 ≡ throws "didn't receive valid payload on subscriptions sock")
        × (pumped.1.manager.subscriptions ≡ ss)
  unfolding pump remove_expired
  pump-throws frames at now events t r n ss v x h e =
      (let kept = with_subscribers ss r in
        let receive_all = receive_change store parse_envelope parse_message second changes in
        let receive =
          receive_subscription store parse_envelope parse_message second changes (suc frames) now in
        let pumped =
          ap
            (λ p.
              process_pending store parse_envelope parse_message second changes (suc frames) now
                events (managed r (with_subscriptions r.manager p)))
            x
          ∙ ap
              (λ b.
                pump_then (if_pending events.store_changes receive_all) (if_pending b receive kept))
              v
          ∙ ap (pump_then (if_pending events.store_changes receive_all))
              (single-throws frames now t kept h e) in
        (ap (λ p. p.0) pumped, ap (λ p. p.1.manager.subscriptions) pumped))

module _ {Message : Type 0} (store : StreamReading Message)
    (parse_envelope : Text → Option (Envelope Notice))
    (parse_message : ℕ → ℕ → Text → Option Notice) {R S C : Type 0} (first : Socket R)
    (second : Socket S) (changes : Socket C) (coming : R → List Part) (going : S → List Part)
    (sends : IsWired first coming) (passes : IsWired second going) where
  -- A subscription that a worker accepts is lost: the worker answers that it has subscribed, the
  -- server passes the one frame on that the worker has sent, and the reactor throws where it receives
  -- it, with the subscriptions that had not expired and no other. The sockets take what is sent and
  -- were idle before, the record of the subscription serializes to some bytes, and the removal of
  -- expired subscriptions succeeds.
  pub subscribing-loses :
      (serialize : SubscriptionRecord → Option Text) (id t : Text) (info : SubscriptionInfo)
      (m : SubscriptionRecord) (r : R) (reactor : Reactor S C) (frames : ℕ) (at : Text → Moment)
      (now : Moment) (events : Events) (n : ℕ) (ss : List Subscription)
      → IsOpen first
      → IsOpen second
      → coming r ≡ []
      → going reactor.subscription_sock ≡ []
      → to_protocol_buffer info ≡ done m
      → serialize (with_id id m) ≡ some t
      → is_empty t ≡ false
      → events.subscriptions ≡ true
      → remove_expired_subscriptions at reactor.manager.subscriptions ≡ (done n, ss)
      → let handled = handle_subscription_request first serialize id info r in
        (handled.0 ≡ done (make_subscription_accepted id 0))
        × ((v : R) × (u : S) × (transfer_message first second 1 handled.1 reactor.subscription_sock
              ≡ (some true, v, u))
            × (let pumped =
                  pump store parse_envelope parse_message second changes
                    (suc frames)
                    at
                    now
                    (some events)
                    (record reactor { subscription_sock = u }) in
                (pumped.0 ≡ throws "didn't receive valid payload on subscriptions sock")
                × (pumped.1.manager.subscriptions ≡ ss)))
  subscribing-loses serialize id t info m r reactor frames at now events n ss a b i j p k e v x =
      (let sent = accepting first coming sends serialize id t info m r a i p k in
        let handled = handle_subscription_request first serialize id info r in
        let moved =
          transfer-moves first second coming going sends.recv_takes passes.send_adds (last t) []
            handled.1 reactor.subscription_sock b sent.1 in
        (
          sent.0,
          (
            moved.0,
            moved.1,
            moved.2,
            pump-throws store parse_envelope parse_message second changes going passes frames at now
                events t (record reactor { subscription_sock = moved.1 }) n ss v x
                (moved.4 ∙ ap (λ w. w ++ (t, false) ∷ []) j) e,
          ),
        ))
