-- ===== src/ZeroMq/Transfer.antt =====
-- src/zippylog/zeromq.cpp, `TransferMessage`: a message on its way through a device.
use mathlib.Core.List.{append_assoc}
use zippylog.Prelude.{
  ℕ, zero, suc, ◌≤◌, arith, ◌≡◌, refl, ap, ◌∙◌, Bool, true, false, some, List, [], ◌∷◌, ◌++◌, Text,
  length, if◌then◌else◌,
}
use zippylog.ZeroMq.{
  Flags, last_part, Part, Socket, Sent, sent_by, sent_next, initial_flags, send_frame,
  send_behind_empty, send_identities, success, again, to_message, send_envelope_to,
  transfer_message,
}

-- The frames of one message: another follows each but the last.
pub data IsMessage : List Part → Type 0 where
  last : (t : Text) → IsMessage ((t, false) ∷ [])
  more : (t : Text) {ps : List Part} → IsMessage ps → IsMessage ((t, true) ∷ ps)

abbrev step_flags : Bool → Flags
step_flags m = record { dont_wait = false; more = m }

-- The socket takes every frame.
unfoldable pub IsOpen : {S : Type 0} → Socket S → Type 0
IsOpen {S} socket = (flags : Flags) (t : Text) (s : S) → (socket.send flags t s).0 ≡ true

-- Where a socket takes every frame, an envelope is sent.
module _ {S : Type 0} (socket : Socket S) where
  identities-open :
      (flags : Flags) (ids : List Text) (s : S)
      → IsOpen socket
      → (send_identities socket flags ids s).0 ≡ true
  unfolding send_identities IsOpen
  identities-open flags [] s o = refl
  identities-open flags (t ∷ ts) s o =
      rw (o flags t s, send_identities) (identities-open flags ts (socket.send flags t s).1 o)

  next-open :
      (f : S → Sent × S) (r : Bool × S)
      → r.0 ≡ true
      → (f r.1).0 ≡ success
      → (sent_next f again r).0 ≡ success
  next-open f (true, s) h k = k
  next-open f (false, s) h k = cc

  pub envelope-open :
      (ids : List Text) (t : Text) (flags : Flags) (s : S)
      → IsOpen socket
      → (send_envelope_to socket ids (some t) true flags s).0 ≡ success
  unfolding send_envelope_to to_message IsOpen
  envelope-open ids t flags s o =
      (let named = send_identities socket (initial_flags flags) ids s in
        let parted = socket.send (initial_flags flags) [] named.1 in
        next-open (send_behind_empty socket flags (1 ∷ t)) named
          (identities-open (initial_flags flags) ids s o)
          (next-open (send_frame socket flags (1 ∷ t)) parted (o (initial_flags flags) [] named.1)
            (ap sent_by (o flags (1 ∷ t) parted.1))))

-- Receiving takes the first of what waits at a socket, and sending puts what it takes behind what is under
-- way from it.
abbrev pub Takes : {S : Type 0} → Socket S → (S → List Part) → Type 0
Takes {S} socket coming =
    (flags : Flags) (s : S) (p : Part) (ps : List Part)
    → coming s ≡ p ∷ ps
    → ((socket.recv flags s).0 ≡ some p) × (coming (socket.recv flags s).1 ≡ ps)

abbrev pub Adds : {S : Type 0} → Socket S → (S → List Part) → Type 0
Adds {S} socket going =
    (flags : Flags) (t : Text) (s : S)
    → (socket.send flags t s).0 ≡ true
    → going (socket.send flags t s).1 ≡ going s ++ (t, flags.more) ∷ []

module _ {R S : Type 0} (receiver : Socket R) (sender : Socket S) (coming : R → List Part)
    (going : S → List Part) (receives : Takes receiver coming) (sends : Adds sender going) where
  transfer-one :
      (fuel : ℕ) (t : Text) (m : Bool) (ps : List Part) (r : R) (s : S)
      → IsOpen sender
      → coming r ≡ (t, m) ∷ ps
      → let v = (receiver.recv (last_part false) r).1 in
        let u = (sender.send (step_flags m) t s).1 in
        (coming v ≡ ps)
        × (going u ≡ going s ++ (t, m) ∷ [])
        × (transfer_message receiver sender (suc fuel) r s
            ≡ (if m then transfer_message receiver sender fuel v u else (some true, v, u)))
  unfolding transfer_message IsOpen
  transfer-one fuel t m ps r s o h =
      (let taken = receives (last_part false) r (t, m) ps h in
        let flags = step_flags m in
        (taken.1, sends flags t s (o flags t s), rw (taken.0, o flags t s, transfer_message) refl))

  pub transfer-enough :
      (fuel : ℕ) {ps : List Part} (message : IsMessage ps) (rest : List Part) (r : R) (s : S)
      → length ps ≤ fuel
      → IsOpen sender
      → coming r ≡ ps ++ rest
      → (v : R) × (u : S) × (transfer_message receiver sender fuel r s ≡ (some true, v, u))
        × (coming v ≡ rest)
        × (going u ≡ going s ++ ps)
  transfer-enough zero (last t) rest r s f o h = absurd (omega arith)
  transfer-enough zero (more t message) rest r s f o h = absurd (omega arith)
  transfer-enough (suc fuel) (last t) rest r s f o h =
      (let one = transfer-one fuel t false rest r s o h in (_, _, one.2, one.0, one.1))
  transfer-enough (suc fuel) (more t {ps} message) rest r s f o h =
      (let one = transfer-one fuel t true (ps ++ rest) r s o h in
        let v = (receiver.recv (last_part false) r).1 in
        let u = (sender.send (step_flags true) t s).1 in
        let others = transfer-enough fuel message rest v u (omega (arith, f)) o one.0 in
        (
          others.0,
          others.1,
          one.2 ∙ others.2,
          others.3,
          others.4 ∙ ap (λ w. w ++ ps) one.1 ∙ append_assoc (going s) ((t, true) ∷ []) ps,
        ))

  -- One message that waits at the receiving socket, of any number of frames, is passed on whole: in
  -- as many rounds as it has frames it leaves the one socket and comes behind what is under way from
  -- the other, where that takes every frame, and the messages behind it stay where they are.
  pub transfer-moves :
      {ps : List Part} (message : IsMessage ps) (rest : List Part) (r : R) (s : S)
      → IsOpen sender
      → coming r ≡ ps ++ rest
      → (v : R) × (u : S) × (transfer_message receiver sender (length ps) r s ≡ (some true, v, u))
        × (coming v ≡ rest)
        × (going u ≡ going s ++ ps)
  transfer-moves {ps} message rest r s o h =
      transfer-enough (length ps) message rest r s (omega arith) o h
