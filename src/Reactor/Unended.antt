-- ===== src/Reactor/Unended.antt =====
-- src/zippylog/request_processor.cpp, `SendSubscriptionEnvelopeResponse`: what is under way to a subscriber.
use mathlib.Core.List.{append_assoc, append-nil}
use zippylog.Prelude.{
  ◌≡◌, refl, sym, ap, ◌∙◌, true, false, not, ◌&&◌, Option, none, some, List, [], ◌∷◌, ◌++◌, Text,
  is_empty,
}
use zippylog.Manager.Changes.{ResponseState}
use zippylog.ZeroMq.{
  Flags, Part, Socket, Sent, success, again, failed, to_message, send_envelope_to,
}
use zippylog.ZeroMq.Delivery.{IsWired, with_more, send_envelope_to-wire}
use zippylog.ZeroMq.Transfer.{IsOpen, envelope-open}
use zippylog.Reactor.Messages.{StoreChange}
use zippylog.Reactor.Responses.{send_messages, is_full, flush, send_subscription_envelope_response}

abbrev more_follow : Flags
more_follow = record { dont_wait = false; more = true }

with_more-append : (ts us : List Text) → with_more (ts ++ us) ≡ with_more ts ++ with_more us
with_more-append [] us = refl
with_more-append (t ∷ ts) us = ap (◌∷◌ (t, true)) (with_more-append ts us)

behind :
    (w : List Part) (ids : List Text) (t : Text) (msgs : List Text)
    → (w ++ with_more ids ++ ([], true) ∷ (t, true) ∷ []) ++ with_more msgs
      ≡ w ++ with_more (ids ++ [] ∷ t ∷ msgs)
behind w ids t msgs = rw (with_more-append ids ([] ∷ t ∷ msgs)) (simp append_assoc)

module _ {S : Type 0} (socket : Socket S) (wire : S → List Part) (laws : IsWired socket wire)
    (serialize : Text → Option StoreChange → Option Text) where
  messages-wire :
      (ts : List Text) (s : S)
      → IsOpen socket
      → wire (send_messages socket serialize ts s) ≡ wire s ++ with_more ts
  unfolding send_messages IsOpen
  messages-wire [] s o = sym (append-nil (wire s))
  messages-wire (t ∷ ts) s o =
      (let flags = more_follow in
        messages-wire ts (socket.send flags t s).1 o
        ∙ ap (λ w. w ++ with_more ts) (laws.send_adds flags t s (o flags t s))
        ∙ append_assoc (wire s) ((t, true) ∷ []) (with_more ts))

  flush-wire :
      (state : ResponseState) (r : Sent × S)
      → IsOpen socket
      → r.0 ≡ success
      → let flushed = flush socket serialize state r in
        (flushed.0 ≡ true)
        × (flushed.1.messages ≡ [])
        × (wire flushed.2 ≡ wire r.1 ++ with_more state.messages)
  flush-wire state (success, s) o h = (refl, refl, messages-wire state.messages s o)
  flush-wire state (again, s) o h = cc
  flush-wire state (failed, s) o h = cc

  -- What a response to a subscription to envelopes sends: nothing, as long as it is not finalized and
  -- holds no more than the limits; else, where it holds a message, the identities, an empty frame, the
  -- start of the response and all messages, which are no longer held back then. Each of these frames
  -- says that another follows, also the last: the message does not end. The socket takes what is
  -- sent, and the start serializes.
  pub response-unended :
      (state : ResponseState) (t : Text) (s : S)
      → IsOpen socket
      → serialize state.id none ≡ some t
      → let sent = send_subscription_envelope_response socket serialize state s in
        ((not state.finalized && not (is_full state)) ≡ true → sent ≡ (true, state, s))
        × ((not state.finalized && not (is_full state)) ≡ false
            → is_empty state.messages ≡ false
            → (sent.0 ≡ true)
              × (sent.1.messages ≡ [])
              × (wire sent.2
                  ≡ wire s ++ with_more (state.identities ++ [] ∷ (1 ∷ t) ∷ state.messages)))
  unfolding send_subscription_envelope_response
  response-unended state t s o k = (
    λ h. rw (h, send_subscription_envelope_response) refl,
    λ h n.
        (let sent =
            send_envelope_to socket state.identities (serialize state.id none) true more_follow s in
          let ok =
            ap (λ b. (send_envelope_to socket state.identities b true more_follow s).0) k
            ∙ envelope-open socket state.identities t more_follow s o in
          let flushed = flush-wire state sent o ok in
          rw (h, n, send_subscription_envelope_response)
            (
              flushed.0,
              flushed.1,
              flushed.2
                  ∙ ap (λ w. w ++ with_more state.messages)
                      (send_envelope_to-wire socket wire laws state.identities
                        (serialize state.id none) (1 ∷ t) true more_follow s
                        (ap (to_message true) k) ok)
                  ∙ behind (wire s) state.identities (1 ∷ t) state.messages,
            )),
  )
