-- ===== src/Client/Renewing.antt =====
-- src/zippylog/client.cpp, `RenewSubscriptions`, and what the server makes of it.
use zippylog.Prelude.{
  ℕ, suc, ◌≡◌, refl, Bool, true, false, Option, some, List, [], ◌∷◌, ◌++◌, Text, is_empty,
  if◌then◌else◌, Outcome, done, throws, faults,
}
use zippylog.Platform.{Moment, Timed, is_signaled, start}
use zippylog.RequestProcessor.State.{Environment, Progress}
use zippylog.RequestProcessor.Messages.{Request}
use zippylog.RequestProcessor.Pump.{pump, pump-silent}
use zippylog.Device.{make_work_done}
use zippylog.Envelope.{Envelope}
use zippylog.ZeroMq.{
  last_part, Part, Socket, is_nonzero, to_message, send_envelope, receive_more, receive_message,
  new_container, add_identity,
}
use zippylog.ZeroMq.Transfer.{IsOpen, Takes, Adds}
use zippylog.Client.Messages.{ClientSubscription, Client}

-- The identifiers that are added to the message, and the subscriptions with their timers.
abbrev pub Renewed : Type 0
Renewed = Outcome (List Text) × List (Text × ClientSubscription)

abbrev pub named : Text → Outcome (List Text) → Outcome (List Text)
named id (done ids) = done (id ∷ ids)
named id (throws e) = throws e
named id faults = faults

-- One subscription, whose timer is started if it is due; what starting returns is ignored.
abbrev pub restarted :
    Text → ClientSubscription → List (Text × ClientSubscription) → Renewed → Timed Bool → Renewed
restarted k s ss rest (done b, t) =
    (named k rest.0, (k, record s { expiration_timer = t }) ∷ rest.1)
restarted k s ss rest (throws e, t) = (throws e, (k, record s { expiration_timer = t }) ∷ ss)
restarted k s ss rest (faults, t) = (faults, (k, record s { expiration_timer = t }) ∷ ss)

abbrev pub renewed_one :
    Moment
    → Text
    → ClientSubscription
    → List (Text × ClientSubscription)
    → Renewed
    → Timed Bool
    → Renewed
renewed_one m k s ss rest (done true, t) = restarted k s ss rest (start m 0 t)
renewed_one m k s ss rest (done false, t) =
    (rest.0, (k, record s { expiration_timer = t }) ∷ rest.1)
renewed_one m k s ss rest (throws e, t) = (throws e, (k, record s { expiration_timer = t }) ∷ ss)
renewed_one m k s ss rest (faults, t) = (faults, (k, record s { expiration_timer = t }) ∷ ss)

-- The loop; `at` is what the system answers when it comes to a subscription.
unfoldable pub renew_each : Bool → (Text → Moment) → List (Text × ClientSubscription) → Renewed
unfolding start is_signaled
renew_each force at [] = (done [], [])
renew_each force at ((k, s) ∷ ss) =
    renewed_one (at k) k s ss (renew_each force at ss)
      (if force then (done true, s.expiration_timer) else is_signaled (at k) s.expiration_timer)

-- `keepalive` makes the bytes of an envelope with the message.
module _ {S : Type 0} (socket : Socket S) (keepalive : List Text → Option Text) where
  abbrev pub send_keepalive : Client → S → Renewed → Outcome Bool × S × Client
  send_keepalive c s (done ids, ss) =
      let r = send_envelope socket (keepalive ids) true (last_part false) s in
      (done (is_nonzero r.0), r.1, record c { subscriptions = ss })
  send_keepalive c s (throws e, ss) = (throws e, s, record c { subscriptions = ss })
  send_keepalive c s (faults, ss) = (faults, s, record c { subscriptions = ss })

  unfoldable pub renew_subscriptions :
      Bool → (Text → Moment) → S → Client → Outcome Bool × S × Client
  unfolding renew_each send_envelope
  renew_subscriptions force at s c = send_keepalive c s (renew_each force at c.subscriptions)

  module _ (going : S → List Part) (adds : Adds socket going) where
    sent-single :
        (ids : List Text) (t : Text) (c : Client) (s : S) (ss : List (Text × ClientSubscription))
        (r : Renewed)
        → IsOpen socket
        → keepalive ids ≡ some t
        → r ≡ (done ids, ss)
        → let sent = send_keepalive c s r in
          (sent.0 ≡ done true) × (going sent.1 ≡ going s ++ (1 ∷ t, false) ∷ [])
    unfolding send_envelope to_message IsOpen
    sent-single ids t c s ss r o k e =
        rw (e, k, o (last_part false) (1 ∷ t) s, send_envelope)
          (refl, adds (last_part false) (1 ∷ t) s (o (last_part false) (1 ∷ t) s))

-- The two frames of a renewal, that of the sender's identity in front, are both identities.
received-identities :
    {R : Type 0} (socket : Socket R) (coming : R → List Part) (takes : Takes socket coming)
    (fuel : ℕ) (who t : Text) (rest : List Part) (r : R)
    → is_empty who ≡ false
    → coming r ≡ (who, true) ∷ (1 ∷ t, false) ∷ rest
    → let received = receive_message socket (suc (suc fuel)) (last_part false) r in
      (received.0 ≡ some true)
      × (received.1 ≡ add_identity (1 ∷ t) (add_identity who new_container))
      × (coming received.2 ≡ rest)
unfolding receive_message receive_more
received-identities socket coming takes fuel who t rest r e h =
    (let first = takes (last_part false) r (who, true) ((1 ∷ t, false) ∷ rest) h in
      let second =
        takes (last_part false) (socket.recv (last_part false) r).1 (1 ∷ t, false) rest first.1 in
      rw (first.0, e, second.0, receive_more) (refl, refl, second.1))

paired : {A B C : Type 0} (r : A × B × C) (a : A) (b : B) → r.0 ≡ a → r.1 ≡ b → r ≡ (a, b, r.2)
paired (x, y, z) a b e f = cc

module _ {S R : Type 0} (socket : Socket S) (going : S → List Part) (adds : Adds socket going)
    (receiver : Socket R) (coming : R → List Part) (takes : Takes receiver coming)
    (keepalive : List Text → Option Text) (env : Environment)
    (write : Envelope Request → Option Text) where
  -- The renewal of subscriptions whose timers give no error, with a message that serializes, over a
  -- socket that takes it, is sent in one frame and the result is true. Where the frame comes to a request
  -- processor behind the identity of the client, a `Pump` with two rounds or more for the frames takes
  -- it from the socket for an identity too: it sends no answer, logs nothing and makes no call.
  pub renewal-ignored :
      (force : Bool) (at : Text → Moment) (c : Client) (s : S) (ids : List Text)
      (ss : List (Text × ClientSubscription)) (t : Text) (fuel : ℕ) (who : Text) (rest : List Part)
      (r : R) (p : Progress)
      → IsOpen socket
      → renew_each force at c.subscriptions ≡ (done ids, ss)
      → keepalive ids ≡ some t
      → is_empty who ≡ false
      → coming r ≡ (who, true) ∷ (1 ∷ t, false) ∷ rest
      → let sent = renew_subscriptions socket keepalive force at s c in
        (sent.0 ≡ done true)
        × (going sent.1 ≡ going s ++ (1 ∷ t, false) ∷ [])
        × (u : R) × (pump receiver env write true (suc (suc fuel)) r p
            ≡ (done make_work_done, u, record p { output = [] }))
        × (coming u ≡ rest)
  unfolding renew_subscriptions
  renewal-ignored force at c s ids ss t fuel who rest r p o e k w h =
      (let sent =
          sent-single socket keepalive going adds ids t c s ss (renew_each force at c.subscriptions)
            o k e in
        let received = received-identities receiver coming takes fuel who t rest r w h in
        (
          sent.0,
          sent.1,
          _,
          pump-silent receiver env write (suc (suc fuel)) r _ p (who ∷ (1 ∷ t) ∷ []) (
              paired (receive_message receiver (suc (suc fuel)) (last_part false) r) (some true) _
                received.0 received.1),
          received.2,
        ))
