-- ===== src/ZeroMq/Delivery.antt =====
-- src/zippylog/zeromq.cpp, `SendEnvelope` and `ReceiveMessage`: what arrives of what is sent.
use mathlib.Core.List.{append_assoc, append-nil}
use zippylog.Prelude.{
  ℕ, suc, ◌+◌, ◌≡◌, refl, sym, ap, ◌∙◌, inl, inr, Bool, true, false, Option, some, List, [], ◌∷◌,
  ◌++◌, map, Text, All, is_empty, length, Bool-cases, arith,
}
use zippylog.ZeroMq.{
  Flags, last_part, Part, Socket, Sent, success, again, sent_by, initial_flags, to_message,
  MessageContainer, new_container, add_identity, add_message, send_identities, sent_next,
  send_frame, send_behind_empty, send_envelope_to, receive_more, receive_message,
}

-- 0MQ delivers frames in order and whole: `wire` is what is under way to the receiver, a frame that
-- is accepted comes behind it, and the first of it is what is received.
pub record IsWired {S : Type 0} (socket : Socket S) (wire : S → List Part) : Type 0 where
  pub send_adds :
      (flags : Flags) (t : Text) (s : S)
      → (socket.send flags t s).0 ≡ true
      → wire (socket.send flags t s).1 ≡ wire s ++ (t, flags.more) ∷ []
  pub recv_takes :
      (flags : Flags) (s : S) (p : Part) (ps : List Part)
      → wire s ≡ p ∷ ps
      → ((socket.recv flags s).0 ≡ some p) × (wire (socket.recv flags s).1 ≡ ps)

-- The frames with another behind each.
abbrev pub with_more : List Text → List Part
with_more = map (λ t. (t, true))

abbrev pub add_identities : List Text → MessageContainer → MessageContainer
add_identities ids c = record c { identities = c.identities ++ ids }

clash : false ≡ true → ⊥
clash h = cc

not_success : again ≡ success → ⊥
not_success h = cc

sent_next-success :
    {S : Type 0} (f : S → Sent × S) (r : Bool × S)
    → (sent_next f again r).0 ≡ success
    → (r.0 ≡ true) × ((f r.1).0 ≡ success) × ((sent_next f again r).1 ≡ (f r.1).1)
sent_next-success f (true, s) h = (refl, h, refl)
sent_next-success f (false, s) h = cc

no_rounds : (n : ℕ) → 0 + n ≡ n
no_rounds n = omega arith

one_round : (m n : ℕ) → suc m + n ≡ suc (m + n)
one_round m n = omega arith

add_none : (c : MessageContainer) → c ≡ add_identities [] c
add_none c = ap (λ ids. record c { identities = ids }) (sym (append-nil c.identities))

add_more :
    (t : Text) (ts : List Text) (c : MessageContainer)
    → add_identities ts (add_identity t c) ≡ add_identities (t ∷ ts) c
add_more t ts c = ap (λ ids. record c { identities = ids }) (append_assoc c.identities (t ∷ []) ts)

module _ {S : Type 0} (socket : Socket S) (wire : S → List Part) (laws : IsWired socket wire) where
  send_identities-wire :
      (flags : Flags) (ids : List Text) (s : S)
      → (send_identities socket (initial_flags flags) ids s).0 ≡ true
      → wire (send_identities socket (initial_flags flags) ids s).1 ≡ wire s ++ with_more ids
  unfolding send_identities
  send_identities-wire flags [] s h = sym (append-nil (wire s))
  send_identities-wire flags (t ∷ ts) s h =
      elim (Bool-cases (socket.send (initial_flags flags) t s).0) [
        | inl e ↦
            rw (e, send_identities)
              (send_identities-wire flags ts (socket.send (initial_flags flags) t s).1
                  (rw (e, send_identities) at h)
                ∙ ap (λ w. w ++ with_more ts) (laws.send_adds (initial_flags flags) t s e)
                ∙ append_assoc (wire s) ((t, true) ∷ []) (with_more ts))
        | inr e ↦ elim (clash (rw (e, send_identities) at h)) [ ]
      ]

  sent_last :
      (flags : Flags) (t : Text) (s : S)
      → sent_by (socket.send flags t s).0 ≡ success
      → wire (socket.send flags t s).1 ≡ wire s ++ (t, flags.more) ∷ []
  sent_last flags t s h = elim (Bool-cases (socket.send flags t s).0) [
    | inl e ↦ laws.send_adds flags t s e
    | inr e ↦ elim (not_success (rw e at h)) [ ]
  ]

  -- An accepted envelope is under way behind the identities and an empty frame.
  pub send_envelope_to-wire :
      (ids : List Text) (e : Option Text) (t : Text) (is_protocol : Bool) (flags : Flags) (s : S)
      → to_message is_protocol e ≡ some t
      → (send_envelope_to socket ids e is_protocol flags s).0 ≡ success
      → wire (send_envelope_to socket ids e is_protocol flags s).1
        ≡ wire s ++ with_more ids ++ ([], true) ∷ (t, flags.more) ∷ []
  unfolding send_envelope_to
  send_envelope_to-wire ids e t is_protocol flags s m h =
      (let named = send_identities socket (initial_flags flags) ids s in
        let a =
          sent_next-success (send_behind_empty socket flags t) named
            (rw (m, send_envelope_to) at h) in
        let parted = socket.send (initial_flags flags) [] named.1 in
        let b = sent_next-success (send_frame socket flags t) parted a.1 in
        rw (m, send_envelope_to)
          (ap wire (a.2 ∙ b.2)
            ∙ sent_last flags t parted.1 b.1
            ∙ ap (λ w. w ++ (t, flags.more) ∷ [])
                (laws.send_adds (initial_flags flags) [] named.1 b.0
                  ∙ ap (λ w. w ++ ([], true) ∷ []) (send_identities-wire flags ids s a.0))
            ∙ simp append_assoc))

  -- A frame that is received, as the loop sees it.
  pub receive-identity :
      (fuel : ℕ) (flags : Flags) (c : MessageContainer) (s : S) (t : Text) (ps : List Part)
      → wire s ≡ (t, true) ∷ ps
      → is_empty t ≡ false
      → receive_more socket (suc fuel) flags true c s
        ≡ receive_more socket fuel flags true (add_identity t c) (socket.recv flags s).1
  unfolding receive_more
  receive-identity fuel flags c s t ps h e =
      rw ((laws.recv_takes flags s (t, true) ps h).0, e, receive_more) refl

  receive-empty :
      (fuel : ℕ) (flags : Flags) (in_identity more : Bool) (c : MessageContainer) (s : S)
      (ps : List Part)
      → wire s ≡ ([], more) ∷ ps
      → receive_more socket (suc fuel) flags in_identity c s
        ≡ receive_more socket fuel flags false c (socket.recv flags s).1
  unfolding receive_more
  receive-empty fuel flags i more c s ps h =
      rw ((laws.recv_takes flags s ([], more) ps h).0, receive_more) refl

  receive-last :
      (fuel : ℕ) (flags : Flags) (c : MessageContainer) (s : S) (t : Text) (ps : List Part)
      → wire s ≡ (t, false) ∷ ps
      → is_empty t ≡ false
      → receive_more socket (suc fuel) flags false c s
        ≡ (some true, add_message t c, (socket.recv flags s).1)
  unfolding receive_more
  receive-last fuel flags c s t ps h e =
      rw ((laws.recv_takes flags s (t, false) ps h).0, e, receive_more) refl

  -- The identities at the front of a message are received one by one.
  receive-identities :
      (fuel : ℕ) (flags : Flags) (ids : List Text) (c : MessageContainer) (s : S) (ps : List Part)
      → wire s ≡ with_more ids ++ ps
      → All (λ t. is_empty t ≡ false) ids
      → (u : S) × (wire u ≡ ps)
        × (receive_more socket (length ids + fuel) flags true c s
            ≡ receive_more socket fuel flags true (add_identities ids c) u)
  receive-identities fuel flags [] c s ps h n = (
    s,
    h,
    ap (λ n. receive_more socket n flags true c s) (no_rounds fuel)
        ∙ ap (λ d. receive_more socket fuel flags true d s) (add_none c),
  )
  receive-identities fuel flags (t ∷ ts) c s ps h n =
      (let taken = laws.recv_takes flags s (t, true) (with_more ts ++ ps) h in
        let more =
          receive-identities fuel flags ts (add_identity t c) (socket.recv flags s).1 ps taken.1
            n.1 in
        (
          more.0,
          more.1,
          ap (λ n. receive_more socket n flags true c s) (one_round (length ts) fuel)
              ∙ receive-identity (length ts + fuel) flags c s t (with_more ts ++ ps) h n.0
              ∙ more.2
              ∙ ap (λ d. receive_more socket fuel flags true d more.0) (add_more t ts c),
        ))

  -- An envelope that is sent to a client with identities arrives whole: where the socket is idle, the
  -- identities and the serialized envelope are not empty and the message ends with it, once the call
  -- has succeeded the receiver gets the identities and the one message, in as many rounds as there
  -- are frames, and nothing is left.
  pub receive-send :
      (ids : List Text) (e : Option Text) (t : Text) (is_protocol dont_wait wait : Bool) (s : S)
      → wire s ≡ []
      → All (λ i. is_empty i ≡ false) ids
      → to_message is_protocol e ≡ some t
      → is_empty t ≡ false
      → let sent = send_envelope_to socket ids e is_protocol (last_part dont_wait) s in
        sent.0 ≡ success
        → (u : S) × (wire u ≡ [])
          × (receive_message socket (length ids + 2) (last_part wait) sent.1
              ≡ (some true, record { identities = ids; messages = t ∷ [] }, u))
  unfolding receive_message
  receive-send ids e t is_protocol dont_wait wait s i n m k h =
      (let flags = last_part wait in
        let sent = send_envelope_to socket ids e is_protocol (last_part dont_wait) s in
        let under_way =
          send_envelope_to-wire ids e t is_protocol (last_part dont_wait) s m h
          ∙ ap (λ w. w ++ with_more ids ++ ([], true) ∷ (t, false) ∷ []) i in
        let named =
          receive-identities 2 flags ids new_container sent.1 (([], true) ∷ (t, false) ∷ [])
            under_way n in
        let c = add_identities ids new_container in
        let parted = laws.recv_takes flags named.0 ([], true) ((t, false) ∷ []) named.1 in
        let u = (socket.recv flags named.0).1 in
        let taken = laws.recv_takes flags u (t, false) [] parted.1 in
        (
          (socket.recv flags u).1,
          taken.1,
          named.2
              ∙ receive-empty 1 flags true true c named.0 ((t, false) ∷ []) named.1
              ∙ receive-last 0 flags c u t [] parted.1 k,
        ))
