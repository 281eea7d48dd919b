-- ===== src/StoreWriter/Unwritten.antt =====
-- src/zippylog/device/store_writer_sender.cpp and src/zippylog/device/store_writer.cpp: what becomes of
-- an envelope that is sent to be written.
use zippylog.Prelude.{
  ℕ, suc, ◌≡◌, refl, ap, ◌∙◌, inl, inr, true, false, some, List, [], ◌∷◌, ◌++◌, Text, is_empty,
  done, done-injective, Bool-cases,
}
use zippylog.Store.Path.{streamset_path}
use zippylog.Store.Output.{Outputs, System}
use zippylog.ZeroMq.{
  Flags, last_part, Part, Socket, to_message, send_envelope, MessageContainer, new_container,
  add_identity, receive_more, receive_message,
}
use zippylog.ZeroMq.Delivery.{IsWired, add_identities, receive-identity}
use zippylog.StoreWriter.{
  send_to_set, deliver_envelope, receive_error, write_messages, receive_and_write, received,
}

path_not_empty : (bucket set : Text) → is_empty (streamset_path bucket set) ≡ false
unfolding streamset_path
path_not_empty bucket set = refl

abbrev more_follow : Flags
more_follow = record { dont_wait = false; more = true }

clash : false ≡ true → ⊥
clash h = cc

module _ {S : Type 0} (socket : Socket S) (wire : S → List Part) (laws : IsWired socket wire) where
  -- Both frames are under way, and nothing is between them.
  send_to_set-wire :
      (bucket set t : Text) (s : S)
      → wire s ≡ []
      → (send_to_set socket bucket set (some t) s).0 ≡ true
      → wire (send_to_set socket bucket set (some t) s).1
        ≡ (streamset_path bucket set, true) ∷ (t, false) ∷ []
  unfolding send_to_set send_envelope to_message
  send_to_set-wire bucket set t s i h =
      (let path = streamset_path bucket set in
        let first = socket.send more_follow path s in
        let second = socket.send (last_part false) t first.1 in
        elim (Bool-cases first.0) [
          | inl e ↦ elim (Bool-cases second.0) [
            | inl f ↦
                rw (e, send_to_set)
                  (laws.send_adds (last_part false) t first.1 f
                    ∙ ap (λ w. w ++ (t, false) ∷ [])
                        (laws.send_adds more_follow path s e ∙ ap (λ w. w ++ (path, true) ∷ []) i))
            | inr f ↦ elim (clash (rw (e, f, send_to_set) at h)) [ ]
          ]
          | inr e ↦ elim (clash (rw (e, send_to_set) at h)) [ ]
        ])

  receive-last_identity :
      (fuel : ℕ) (flags : Flags) (c : MessageContainer) (s : S) (t : Text) (ps : List Part)
      → wire s ≡ (t, false) ∷ ps
      → is_empty t ≡ false
      → receive_more socket (suc fuel) flags true c s
        ≡ (some true, add_identity t c, (socket.recv flags s).1)
  unfolding receive_more
  receive-last_identity fuel flags c s t ps h e =
      rw ((laws.recv_takes flags s (t, false) ps h).0, e, receive_more) refl

  -- Without an empty frame every frame is an identity.
  receive-two :
      (flags : Flags) (a b : Text) (fuel : ℕ) (s : S)
      → wire s ≡ (a, true) ∷ (b, false) ∷ []
      → is_empty a ≡ false
      → is_empty b ≡ false
      → (u : S) × (wire u ≡ [])
        × (receive_message socket (suc (suc fuel)) flags s
            ≡ (some true, add_identities (a ∷ b ∷ []) new_container, u))
  unfolding receive_message
  receive-two flags a b fuel s w e f =
      (let first = laws.recv_takes flags s (a, true) ((b, false) ∷ []) w in
        let v = (socket.recv flags s).1 in
        let c = add_identity a new_container in
        (
          (socket.recv flags v).1,
          (laws.recv_takes flags v (b, false) [] first.1).1,
          receive-identity socket wire laws (suc fuel) flags new_container s a ((b, false) ∷ []) w e
              ∙ receive-last_identity fuel flags c v b [] first.1 f,
        ))

  -- An envelope that `DeliverEnvelope` has sent is not written: where the sockets are idle and the
  -- envelope serializes to some bytes, the writer takes what was sent, finds no message in it and
  -- gives an error, with its outputs as they were.
  pub delivered-unwritten :
      {Disk : Type 0} (sys : System Disk) (root : Text) (out : Outputs Disk) (fuel : ℕ)
      (bucket set t : Text) (s : S)
      → wire s ≡ []
      → is_empty t ≡ false
      → (deliver_envelope (some socket) bucket set (some t) s).0 ≡ done true
      → (u : S) × (wire u ≡ [])
        × (receive_and_write sys root socket
              (suc (suc fuel))
              out
              (deliver_envelope (some socket) bucket set (some t) s).1
            ≡ (done (receive_error, out), u))
  unfolding deliver_envelope receive_and_write write_messages
  delivered-unwritten sys root out fuel bucket set t s i n h =
      (let sent = send_to_set socket bucket set (some t) s in
        let got =
          receive-two (last_part true) (streamset_path bucket set) t fuel sent.1
            (send_to_set-wire bucket set t s i (done-injective h)) (path_not_empty bucket set) n in
        (got.0, got.1, ap (received sys root socket out) got.2))
