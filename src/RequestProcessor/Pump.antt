-- ===== src/RequestProcessor/Pump.antt =====
-- src/zippylog/request_processor.cpp: `Pump`, which takes a request from the socket and sends the response.
pub mod Twice
mod Examples
use Prim.Native.String.{String}
use zippylog.Prelude.{
  ℕ, ◌≡◌, ap, Bool, true, false, Option, none, some, List, [], ◌∷◌, Text, Outcome, done, throws,
  faults,
}
use zippylog.Envelope.{Envelope}
use zippylog.Device.{PumpResult, make_work_done, make_no_work_done}
use zippylog.ZeroMq.{
  Flags, last_part, Socket, Sent, success, again, failed, MessageContainer, send_envelope,
  send_envelope_to, receive_message,
}
use zippylog.RequestProcessor.Messages.{Request, fail_receive_message}
use zippylog.RequestProcessor.State.{Environment, Progress, log}
use zippylog.RequestProcessor.Dispatch.{process_messages, sent}

abbrev pub frame_flags : Bool → Flags
frame_flags more = record { dont_wait = false; more = more }

-- What a call gives, with the socket and the processor.
abbrev pub Pumping : Type 0 → Type 0
Pumping S = Outcome PumpResult × S × Progress

-- `write` makes the bytes of an envelope.
module _ {S : Type 0} (socket : Socket S) (env : Environment)
    (write : Envelope Request → Option Text) where
  -- Where an envelope is sent, the function goes on, and else it throws.
  abbrev pub sending : String → (S → Pumping S) → Progress → Sent × S → Pumping S
  sending what next p (success, s) = next s
  sending what next p (again, s) = (throws what, s, p)
  sending what next p (failed, s) = (throws "Serialization error in response envelope", s, p)

  -- The loop over the envelopes.
  unfoldable pub send_more : List (Envelope Request × Bool) → Progress → S → Pumping S
  unfolding send_envelope
  send_more [] p s = (done make_work_done, s, p)
  send_more ((e, more) ∷ frames) p s =
      sending "Send failure for response envelope" (send_more frames p) p
        (send_envelope socket (write e) true (frame_flags more) s)

  unfoldable pub send_envelopes_of :
      List Text → List (Envelope Request × Bool) → Progress → S → Pumping S
  unfolding send_more send_envelope_to
  send_envelopes_of identities [] p s = (done make_work_done, s, p)
  send_envelopes_of identities ((e, more) ∷ frames) p s =
      sending "Send failure for response" (send_more frames p) p
        (send_envelope_to socket identities (write e) true (frame_flags more) s)

  abbrev pub responded : List Text → S → Outcome (Unit {0}) × Progress → Pumping S
  responded identities s (done _, p) = send_envelopes_of identities (sent p.output) p s
  responded identities s (throws e, p) = (throws e, s, p)
  responded identities s (faults, p) = (faults, s, p)

  abbrev pub received : Progress → Option Bool × MessageContainer × S → Pumping S
  received p (none, c, s) = (faults, s, p)
  received p (some false, c, s) = (
    throws "error receiving multipart message from worker sock",
    s,
    (log fail_receive_message p).1,
  )
  received p (some true, c, s) =
      responded c.identities s (process_messages env c.identities c.messages p)

  -- `Pump`, for what `poll` tells, with a message of at most so many frames.
  unfoldable pub pump : Bool → ℕ → S → Progress → Pumping S
  unfolding receive_message process_messages sent send_envelopes_of
  pump false fuel s p = (done make_no_work_done, s, p)
  pump true fuel s p = received p (receive_message socket fuel (last_part false) s)

  -- A message that is received and has identities only is not answered.
  pub pump-silent :
      (fuel : ℕ) (s u : S) (p : Progress) (ids : List Text)
      → receive_message socket fuel (last_part false) s
        ≡ (some true, record { identities = ids; messages = [] }, u)
      → pump true fuel s p ≡ (done make_work_done, u, record p { output = [] })
  unfolding pump process_messages sent send_envelopes_of
  pump-silent fuel s u p ids h = ap (received p) h
