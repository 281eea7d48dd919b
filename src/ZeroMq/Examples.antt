-- ===== src/ZeroMq/Examples.antt =====
-- Tests of the model of src/zippylog/zeromq.cpp on a socket that takes everything and delivers it in
-- order, and its theorems at such a socket.
use zippylog.Prelude.{◌≡◌, refl, true, false, some, List, [], ◌∷◌, Text, bytes, length, ◌+◌}
use zippylog.ZeroMq.{
  last_part, Part, success, to_message, send_identities, send_envelope_to, send_each,
  send_envelopes, receive_more, receive_message, transfer_message,
}
use zippylog.ZeroMq.Queue.{queue, queue-IsWired, queue-IsOpen}
use zippylog.ZeroMq.Delivery.{receive-send}
use zippylog.ZeroMq.Transfer.{IsMessage, last, more, transfer-moves}

-- Two envelopes go to a client with the flags of a whole message each: the second is a message of its own.
two_messages :
    (send_envelopes queue
      (bytes "id" ∷ [])
      (some (bytes "a") ∷ some (bytes "b") ∷ [])
      true
      (last_part false)
      []).1
    ≡ (bytes "id", true) ∷ ([], true) ∷ (1 ∷ bytes "a", false) ∷ (1 ∷ bytes "b", false) ∷ []
unfolding send_envelopes send_identities send_each to_message
two_messages = refl

-- A message that ends with an empty frame does not end for the receiver.
ended_by_empty :
    receive_message queue 4
      (last_part false)
      ((bytes "id", true) ∷ ([], false) ∷ (bytes "next", false) ∷ [])
    ≡ (some true, record { identities = bytes "id" ∷ []; messages = bytes "next" ∷ [] }, [])
unfolding receive_message receive_more
ended_by_empty = refl

abbrev clients : List Text
clients = bytes "server" ∷ bytes "client" ∷ []

accepted : (send_envelope_to queue clients (some (bytes "e")) true (last_part false) []).0 ≡ success
unfolding send_envelope_to send_identities to_message
accepted = refl

protocol_message : to_message true (some (bytes "e")) ≡ some (1 ∷ bytes "e")
unfolding to_message
protocol_message = refl

receive-send_example :
    (u : List Part) × (u ≡ [])
    × (receive_message queue
          (length clients + 2)
          (last_part true)
          (send_envelope_to queue clients (some (bytes "e")) true (last_part false) []).1
        ≡ (some true, record { identities = clients; messages = (1 ∷ bytes "e") ∷ [] }, u))
receive-send_example =
    receive-send queue (λ ps. ps) queue-IsWired clients (some (bytes "e")) (1 ∷ bytes "e") true
      false true [] refl (refl, (refl, tt)) protocol_message refl accepted

abbrev one_message : IsMessage ((bytes "id", true) ∷ ([], true) ∷ (bytes "e", false) ∷ [])
one_message = more (bytes "id") (more [] (last (bytes "e")))

transfer-moves_example :
    (v u : List Part) × (transfer_message queue queue 3
        ((bytes "id", true) ∷ ([], true) ∷ (bytes "e", false) ∷ (bytes "f", false) ∷ [])
        []
      ≡ (some true, v, u))
    × (v ≡ (bytes "f", false) ∷ [])
    × (u ≡ (bytes "id", true) ∷ ([], true) ∷ (bytes "e", false) ∷ [])
transfer-moves_example =
    transfer-moves queue queue (λ ps. ps) (λ ps. ps) queue-IsWired.recv_takes
      queue-IsWired.send_adds one_message ((bytes "f", false) ∷ [])
      ((bytes "id", true) ∷ ([], true) ∷ (bytes "e", false) ∷ (bytes "f", false) ∷ []) []
      queue-IsOpen refl
