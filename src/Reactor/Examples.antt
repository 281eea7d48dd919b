-- ===== src/Reactor/Examples.antt =====
-- Tests of the model of src/zippylog/device/persisted_state_reactor.cpp on concrete inputs, and its
-- theorem at such inputs.
use zippylog.Prelude.{
  ◌≡◌, refl, true, false, not, ◌&&◌, Option, some, [], ◌∷◌, ◌++◌, Text, bytes, is_empty,
}
use zippylog.Reactor.Messages.{StoreChange}
use zippylog.Manager.Changes.{ResponseState}
use zippylog.ZeroMq.Delivery.{with_more}
use zippylog.ZeroMq.Queue.{queue, queue-IsWired, queue-IsOpen}
use zippylog.Reactor.Responses.{is_full, send_subscription_envelope_response}
use zippylog.Reactor.Unended.{response-unended}

abbrev start : Text → Option StoreChange → Option Text
start id change = some id

abbrev collected : ResponseState
collected = record {
  finalized = true;
  id = bytes "s";
  identities = bytes "client" ∷ [];
  current_size = 2;
  messages = (1 ∷ 7 ∷ []) ∷ [];
}

response-unended_example :
    let sent = send_subscription_envelope_response queue start collected [] in
    ((not collected.finalized && not (is_full collected)) ≡ true → sent ≡ (true, collected, []))
    × ((not collected.finalized && not (is_full collected)) ≡ false
        → is_empty collected.messages ≡ false
        → (sent.0 ≡ true)
          × (sent.1.messages ≡ [])
          × (sent.2
              ≡ []
                ++ with_more (collected.identities ++ [] ∷ (1 ∷ bytes "s") ∷ collected.messages)))
response-unended_example =
    response-unended queue (λ ps. ps) queue-IsWired start collected (bytes "s") [] queue-IsOpen refl

-- The message comes last, and more is to follow.
sent_last :
    (send_subscription_envelope_response queue start collected []).2
    ≡ (bytes "client", true) ∷ ([], true) ∷ (1 ∷ bytes "s", true) ∷ (1 ∷ 7 ∷ [], true) ∷ []
unfolding send_subscription_envelope_response
sent_last = refl
