-- ===== src/StoreWriter.antt =====
-- src/zippylog/device/store_writer.cpp and src/zippylog/device/store_writer_sender.cpp: the writing of
-- envelopes by a device of its own, and its client.
pub mod Unwritten
mod Examples
use zippylog.Prelude.{
  ℕ, zero, suc, ◌==◌, Bool, true, false, not, Option, none, some, List, [], ◌∷◌, Text, bytes,
  is_empty, if◌then◌else◌, Outcome, done, throws, faults,
}
use zippylog.Store.Path.{parse_path, streamset_path}
use zippylog.Store.Output.{Outputs, System, write_envelope}
use zippylog.ZeroMq.{
  Flags, last_part, Socket, MessageContainer, Sent, is_nonzero, send_envelope, receive_message,
}

-- The reply is good if it is one empty message.
unfoldable pub is_good_reply : MessageContainer → Bool
is_good_reply c = elim c.messages [
  | [] ↦ false
  | m ∷ ms ↦ if not (is_empty m) then false else is_empty ms
]

module _ {S : Type 0} where
  -- A path frame, and the envelope behind it, as both functions send them.
  unfoldable pub send_to_set : Socket S → Text → Text → Option Text → S → Bool × S
  unfolding send_envelope
  send_to_set socket bucket set e s =
      let first =
        socket.send (record { dont_wait = false; more = true }) (streamset_path bucket set) s in
      if not first.0
      then (false, first.1)
      else (let second = send_envelope socket e false (last_part false) first.1 in
          (is_nonzero second.0, second.1))

  -- The socket is NULL where its endpoint is not configured.
  unfoldable pub deliver_envelope :
      Option (Socket S) → Text → Text → Option Text → S → Outcome Bool × S
  unfolding send_to_set
  deliver_envelope none bucket set e s =
      (throws "can not deliver envelopes since the pull socket is not configured", s)
  deliver_envelope (some socket) bucket set e s =
      let r = send_to_set socket bucket set e s in (done r.0, r.1)

  abbrev pub replied : Option Bool × MessageContainer × S → Outcome Bool × S
  replied (none, c, s) = (faults, s)
  replied (some true, c, s) = (done (is_good_reply c), s)
  replied (some false, c, s) = (done false, s)

  -- The wait for the reply is in at most so many rounds, and a failure where it goes on.
  unfoldable pub write_envelope_to :
      ℕ → Option (Socket S) → Text → Text → Option Text → S → Outcome Bool × S
  unfolding send_to_set receive_message
  write_envelope_to fuel none bucket set e s =
      (throws "can not deliver envelopes since the rep sock is not configured", s)
  write_envelope_to fuel (some socket) bucket set e s =
      let r = send_to_set socket bucket set e s in
      if not r.0
      then (done false, r.1)
      else replied (receive_message socket fuel (last_part false) r.1)

pub data ReceiveResult : Type 0 where
  ok : ReceiveResult
  no_messages : ReceiveResult
  receive_error : ReceiveResult

-- A string from a pointer, up to the first zero byte; none where the memory has none and the reading
-- goes on behind it.
unfoldable pub c_string : Text → Option Text
c_string [] = none
c_string (c ∷ t) =
    let rest = c_string t in
    if c == 0 then some [] else elim rest [ none ↦ none | some s ↦ some (c ∷ s) ]

-- What the writer gives, with the outputs of its store.
abbrev pub Written : Type 0 → Type 0 → Type 0
Written Disk A = Outcome (A × Outputs Disk)

abbrev pub write_then :
    {Disk : Type 0}
    → (Outputs Disk → Written Disk ReceiveResult)
    → Written Disk Bool
    → Written Disk ReceiveResult
write_then more (done (true, out)) = more out
write_then more (done (false, out)) = done (receive_error, out)
write_then more (throws e) = throws e
write_then more faults = faults

module _ {Disk : Type 0} (sys : System Disk) (root : Text) where
  unfoldable pub write_all : Text → Text → List Text → Outputs Disk → Written Disk ReceiveResult
  unfolding write_envelope
  write_all bucket set [] out = done (ok, out)
  write_all bucket set (m ∷ ms) out =
      write_then (write_all bucket set ms) (write_envelope sys root bucket set (true, m) none out)

  abbrev pub write_to : Option Text → List Text → Outputs Disk → Written Disk ReceiveResult
  write_to none ms out = faults
  write_to (some path) ms out = elim (parse_path path) [
    | none ↦ done (receive_error, out)
    | some r ↦ if is_empty r.set then done (receive_error, out) else write_all r.bucket r.set ms out
  ]

  -- At least two messages: the path, and the envelopes.
  unfoldable pub write_messages : List Text → Outputs Disk → Written Disk ReceiveResult
  unfolding write_all c_string
  write_messages [] out = done (receive_error, out)
  write_messages (path ∷ []) out = done (receive_error, out)
  write_messages (path ∷ m ∷ ms) out =
      if is_empty path then done (receive_error, out) else write_to (c_string path) (m ∷ ms) out

  module _ {S : Type 0} (socket : Socket S) where
    abbrev pub received :
        Outputs Disk → Option Bool × MessageContainer × S → Written Disk ReceiveResult × S
    received out (none, c, s) = (faults, s)
    received out (some true, c, s) = (write_messages c.messages out, s)
    received out (some false, c, s) = (done (no_messages, out), s)

    -- `fuel` bounds the frames of a message.
    unfoldable pub receive_and_write : ℕ → Outputs Disk → S → Written Disk ReceiveResult × S
    unfolding write_messages receive_message
    receive_and_write fuel out s = received out (receive_message socket fuel (last_part true) s)

    abbrev pub pulled :
        (Outputs Disk → S → Written Disk Bool × S)
        → Written Disk ReceiveResult × S
        → Written Disk Bool × S
    pulled more (done (ok, out), s) = more out s
    pulled more (done (no_messages, out), s) = (done (true, out), s)
    pulled more (done (receive_error, out), s) = (done (false, out), s)
    pulled more (throws e, s) = (throws e, s)
    pulled more (faults, s) = (faults, s)

    -- The loop over the messages, in at most so many rounds.
    unfoldable pub process_envelope_pull : ℕ → ℕ → Outputs Disk → S → Written Disk Bool × S
    unfolding receive_and_write
    process_envelope_pull fuel zero out s = (faults, s)
    process_envelope_pull fuel (suc rounds) out s =
        pulled (process_envelope_pull fuel rounds) (receive_and_write fuel out s)

    -- A reply; what sending it returns is ignored.
    abbrev pub reply : Text → S → S
    reply t s = (socket.send (last_part false) t s).1

    abbrev pub answered :
        (Outputs Disk → S → Written Disk Bool × S)
        → Written Disk ReceiveResult × S
        → Written Disk Bool × S
    answered more (done (ok, out), s) = more out (reply [] s)
    answered more (done (no_messages, out), s) = (done (true, out), reply [] s)
    answered more (done (receive_error, out), s) =
        (done (false, out), reply (bytes "unknown error") s)
    answered more (throws e, s) = (throws e, s)
    answered more (faults, s) = (faults, s)

    unfoldable pub process_envelope_rep : ℕ → ℕ → Outputs Disk → S → Written Disk Bool × S
    unfolding receive_and_write
    process_envelope_rep fuel zero out s = (faults, s)
    process_envelope_rep fuel (suc rounds) out s =
        answered (process_envelope_rep fuel rounds) (receive_and_write fuel out s)
