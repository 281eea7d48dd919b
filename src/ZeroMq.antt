-- ===== src/ZeroMq.antt =====
-- src/zippylog/zeromq.cpp: envelopes sent over 0MQ sockets, and messages received and passed on. The
-- sockets are 0MQ's, and a parameter.
pub mod Delivery
pub mod Transfer
pub mod Queue
mod Examples
use zippylog.Prelude.{
  ℕ, zero, suc, ◌+◌, Bool, true, false, Option, none, some, List, [], ◌∷◌, ◌++◌, Text, is_empty,
  if◌then◌else◌,
}

pub record Flags : Type 0 where
  pub dont_wait : Bool
  pub more : Bool

-- The flags 0 and `ZMQ_DONTWAIT`.
abbrev pub last_part : Bool → Flags
last_part dont_wait = record { dont_wait = dont_wait; more = false }

-- A frame, and if another of the same message follows it.
abbrev pub Part : Type 0
Part = Text × Bool

-- The two calls of a socket in the state `S`. Receiving gives the frame together with what
-- `ZMQ_RCVMORE` tells then, and none where it fails.
pub record Socket (S : Type 0) : Type 0 where
  pub send : Flags → Text → S → Bool × S
  pub recv : Flags → S → Option Part × S

-- The results 1, 0 and -1 of the functions that send.
pub data Sent : Type 0 where
  success : Sent
  again : Sent
  failed : Sent

abbrev pub sent_by : Bool → Sent
sent_by true = success
sent_by false = again

-- What the callers make of the result, who test it as a condition.
abbrev pub is_nonzero : Sent → Bool
is_nonzero success = true
is_nonzero again = false
is_nonzero failed = true

-- `ZMQ_SNDMORE | (ZMQ_DONTWAIT & flags)`.
abbrev pub initial_flags : Flags → Flags
initial_flags flags = record flags { more = true }

-- `ToProtocolZmqMessage`, which puts the version in front, and `ToZmqMessage`, of an envelope whose
-- serialization, where it succeeds, is given.
unfoldable pub to_message : Bool → Option Text → Option Text
to_message is_protocol none = none
to_message is_protocol (some t) = if is_protocol then some (1 ∷ t) else some t

-- `MessageContainer`.
pub record MessageContainer : Type 0 where
  pub identities : List Text
  pub messages : List Text

abbrev pub new_container : MessageContainer
new_container = record { identities = []; messages = [] }

abbrev pub add_identity : Text → MessageContainer → MessageContainer
add_identity t c = record c { identities = c.identities ++ t ∷ [] }

abbrev pub add_message : Text → MessageContainer → MessageContainer
add_message t c = record c { messages = c.messages ++ t ∷ [] }

-- Where a call of a socket succeeds, the function goes on.
abbrev pub sent_next : {S : Type 0} → (S → Sent × S) → Sent → Bool × S → Sent × S
sent_next f stop (true, s) = f s
sent_next f stop (false, s) = (stop, s)

module _ {S : Type 0} (socket : Socket S) where
  abbrev pub send_frame : Flags → Text → S → Sent × S
  send_frame flags t s = let r = socket.send flags t s in (sent_by r.0, r.1)

  unfoldable pub send_envelope : Option Text → Bool → Flags → S → Sent × S
  unfolding to_message
  send_envelope e is_protocol flags s = elim (to_message is_protocol e) [
    | none ↦ (failed, s)
    | some t ↦ send_frame flags t s
  ]

  -- The loop over the identities.
  unfoldable pub send_identities : Flags → List Text → S → Bool × S
  send_identities flags [] s = (true, s)
  send_identities flags (t ∷ ts) s =
      let r = socket.send flags t s in
      elim r.0 [ true ↦ send_identities flags ts r.1 | false ↦ (false, r.1) ]

  -- The empty frame, and the envelope behind it.
  abbrev pub send_behind_empty : Flags → Text → S → Sent × S
  send_behind_empty flags t s =
      sent_next (send_frame flags t) again (socket.send (initial_flags flags) [] s)

  unfoldable pub send_envelope_to : List Text → Option Text → Bool → Flags → S → Sent × S
  unfolding to_message send_identities
  send_envelope_to identities e is_protocol flags s = elim (to_message is_protocol e) [
    | none ↦ (failed, s)
    | some t ↦
        sent_next (send_behind_empty flags t) again
          (send_identities (initial_flags flags) identities s)
  ]

  -- The loop over the envelopes: each with the same flags.
  unfoldable pub send_each : List (Option Text) → Bool → Flags → S → Sent × S
  unfolding to_message
  send_each [] is_protocol flags s = (success, s)
  send_each (e ∷ es) is_protocol flags s = elim (to_message is_protocol e) [
    | none ↦ (failed, s)
    | some t ↦ sent_next (send_each es is_protocol flags) again (socket.send flags t s)
  ]

  unfoldable pub send_envelopes : List Text → List (Option Text) → Bool → Flags → S → Sent × S
  unfolding send_identities send_each
  send_envelopes identities es is_protocol flags s =
      sent_next
        (λ u.
          sent_next (send_each es is_protocol flags) failed
            (socket.send (initial_flags flags) [] u))
        again (send_identities (initial_flags flags) identities s)

  -- The loop of `ReceiveMessage`, in at most so many rounds; the result is none where these are over.
  -- An empty frame is not asked if it is the last.
  unfoldable pub receive_more :
      ℕ → Flags → Bool → MessageContainer → S → Option Bool × MessageContainer × S
  receive_more zero flags in_identity c s = (none, c, s)
  receive_more (suc fuel) flags in_identity c s =
      let r = socket.recv flags s in
      elim r.0 [
        | none ↦ (some false, c, r.1)
        | some (t, more) ↦
            if is_empty t
            then receive_more fuel flags false c r.1
            else (let added = if in_identity then add_identity t c else add_message t c in
                if more
                then receive_more fuel flags in_identity added r.1
                else (some true, added, r.1))
      ]

  unfoldable pub receive_message : ℕ → Flags → S → Option Bool × MessageContainer × S
  unfolding receive_more
  receive_message fuel flags s = receive_more fuel flags true new_container s

-- `TransferMessage` from one socket to another, in at most so many rounds.
unfoldable pub transfer_message :
    {R S : Type 0} → Socket R → Socket S → ℕ → R → S → Option Bool × R × S
transfer_message receiver sender zero r s = (none, r, s)
transfer_message receiver sender (suc fuel) r s =
    let received = receiver.recv (last_part false) r in
    elim received.0 [
      | none ↦ (some false, received.1, s)
      | some (t, more) ↦
          (let sent = sender.send (record { dont_wait = false; more = more }) t s in
            elim sent.0 [
              | false ↦ (some false, received.1, sent.1)
              | true ↦
                  if more
                  then transfer_message receiver sender fuel received.1 sent.1
                  else (some true, received.1, sent.1)
            ])
    ]
