-- ===== src/RequestProcessor/Pump/Twice.antt =====
-- src/zippylog/request_processor.cpp, `Pump`: the frames of a response as they are under way.
use mathlib.Core.List.{append_assoc, append-nil}
use Prim.Native.String.{String}
use zippylog.Prelude.{
  ℕ, ◌≡◌, refl, sym, ap, ◌∙◌, Bool, true, false, Option, some, List, [], ◌∷◌, ◌++◌, map, Text, done,
}
use zippylog.Envelope.{Envelope}
use zippylog.Device.{make_work_done}
use zippylog.ZeroMq.{
  last_part, Part, Socket, Sent, success, again, failed, to_message, send_envelope,
  send_envelope_to, receive_message,
}
use zippylog.ZeroMq.Delivery.{IsWired, send_envelope_to-wire}
use zippylog.ZeroMq.Delivery
use zippylog.ZeroMq.Transfer.{IsOpen, envelope-open}
use zippylog.RequestProcessor.Messages.{Request}
use zippylog.RequestProcessor.State.{Environment, Progress}
use zippylog.RequestProcessor.Dispatch.{process_messages, sent, with_more}
use zippylog.RequestProcessor.Pump.{
  frame_flags, Pumping, sending, send_more, send_envelopes_of, responded, received, pump,
}

-- The frames of one message: another follows each but the last.
unfoldable pub ended : List Text → List Part
ended [] = []
ended (t ∷ []) = (t, false) ∷ []
ended (t ∷ u ∷ ts) = (t, true) ∷ ended (u ∷ ts)

module _ {S : Type 0} (socket : Socket S) (wire : S → List Part) (laws : IsWired socket wire)
    (open_ : IsOpen socket) (env : Environment) (write : Envelope Request → Option Text)
    (serialized : Envelope Request → Text)
    (writes : (e : Envelope Request) → write e ≡ some (serialized e)) where
  -- The bytes of an envelope, behind the version.
  abbrev pub versioned : Envelope Request → Text
  versioned e = 1 ∷ serialized e

  frames_of : List (Envelope Request × Bool) → List Part
  frames_of [] = []
  frames_of ((e, more) ∷ fs) = (versioned e, more) ∷ frames_of fs

  more-wire :
      (fs : List (Envelope Request × Bool)) (p : Progress) (s : S)
      → let r = send_more socket env write fs p s in
        (r.0 ≡ done make_work_done) × (wire r.1 ≡ wire s ++ frames_of fs) × (r.2 ≡ p)
  unfolding send_more frames_of send_envelope to_message IsOpen
  more-wire [] p s = (refl, sym (append-nil (wire s)), refl)
  more-wire ((e, more) ∷ fs) p s =
      (let flags = frame_flags more in
        let t = versioned e in
        let next = more-wire fs p (socket.send flags t s).1 in
        rw (writes e, open_ flags t s, send_more)
          (
            next.0,
            next.1
                ∙ ap (λ w. w ++ frames_of fs) (laws.send_adds flags t s (open_ flags t s))
                ∙ append_assoc (wire s) ((t, more) ∷ []) (frames_of fs),
            next.2,
          ))

  more-ended : (es : List (Envelope Request)) → frames_of (with_more es) ≡ ended (map versioned es)
  unfolding frames_of ended
  more-ended [] = refl
  more-ended (e ∷ []) = refl
  more-ended (e ∷ e' ∷ es) = ap (◌∷◌ (versioned e, true)) (more-ended (e' ∷ es))

  goes_on :
      (what : String) (next : S → Pumping S) (p : Progress) (r : Sent × S)
      → r.0 ≡ success
      → sending socket env write what next p r ≡ next r.1
  goes_on what next p (success, s) h = refl
  goes_on what next p (again, s) h = cc
  goes_on what next p (failed, s) h = cc

  response-wire :
      (ids : List Text) (e e' : Envelope Request) (es : List (Envelope Request)) (p : Progress)
      (s : S)
      → let r = send_envelopes_of socket env write ids (sent (e ∷ e' ∷ es)) p s in
        (r.0 ≡ done make_work_done)
        × (wire r.1
            ≡ wire s
              ++ (Delivery.with_more ids
                  ++ ([], true) ∷ (versioned e, true) ∷ ended (map versioned (e ∷ e' ∷ es))))
        × (r.2 ≡ p)
  unfolding send_envelopes_of sent
  response-wire ids e e' es p s =
      (let flags = frame_flags true in
        let first = send_envelope_to socket ids (write e) true flags s in
        let ok =
          ap (λ b. (send_envelope_to socket ids b true flags s).0) (writes e)
          ∙ envelope-open socket ids (serialized e) flags s open_ in
        let frames = with_more (e ∷ e' ∷ es) in
        let rest = more-wire frames p first.1 in
        let next =
          goes_on "Send failure for response" (send_more socket env write frames p) p first ok in
        (
          ap (λ r. r.0) next ∙ rest.0,
          ap (λ r. wire r.1) next
              ∙ rest.1
              ∙ ap (λ w. w ++ frames_of frames)
                  (send_envelope_to-wire socket wire laws ids (write e) (versioned e) true flags s
                    (ap (to_message true) (writes e)) ok)
              ∙ ap
                  (λ w.
                    (wire s ++ Delivery.with_more ids ++ ([], true) ∷ (versioned e, true) ∷ [])
                    ++ w)
                  (more-ended (e ∷ e' ∷ es))
              ∙ simp append_assoc,
          ap (λ r. r.2) next ∙ rest.2,
        ))

  -- Where a message is received and processing it ends with two output envelopes or more, `Pump` ends
  -- with its work done, and one message is under way: the identities, an empty frame, the first
  -- envelope, and then all envelopes in order, the first once more; each frame but the last says that
  -- another follows. The socket takes every frame, and the envelopes serialize.
  pub pump-sends_twice :
      (fuel : ℕ) (s u : S) (p q : Progress) (ids messages : List Text) (e e' : Envelope Request)
      (es : List (Envelope Request))
      → receive_message socket fuel (last_part false) s
        ≡ (some true, record { identities = ids; messages = messages }, u)
      → process_messages env ids messages p ≡ (done tt, q)
      → q.output ≡ e ∷ e' ∷ es
      → let r = pump socket env write true fuel s p in
        (r.0 ≡ done make_work_done)
        × (wire r.1
            ≡ wire u
              ++ (Delivery.with_more ids
                  ++ ([], true) ∷ (versioned e, true) ∷ ended (map versioned (e ∷ e' ∷ es))))
        × (r.2 ≡ q)
  unfolding pump
  pump-sends_twice fuel s u p q ids messages e e' es h k o =
      (let steps =
          ap (received socket env write p) h
          ∙ ap (responded socket env write ids u) k
          ∙ ap (λ es. send_envelopes_of socket env write ids (sent es) q u) o in
        let r = response-wire ids e e' es q u in
        (ap (λ x. x.0) steps ∙ r.0, ap (λ x. wire x.1) steps ∙ r.1, ap (λ x. x.2) steps ∙ r.2))
