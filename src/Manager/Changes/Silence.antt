-- ===== src/Manager/Changes/Silence.antt =====
-- src/zippylog/persisted_state_manager.cpp, `ProcessStoreChangeStreamAppended`: what the callback is
-- given.
use zippylog.Prelude.{
  ℕ, zero, suc, ◌≡◌, refl, ap, inl, inr, false, Option, none, some, List, [], ◌∷◌, Text, is_empty,
  ltb, text_eq, text_eq_self, Outcome, done, throws, faults, arith, Bool-cases,
}
use zippylog.Envelope.{Envelope}
use zippylog.Stream.{CodedInput, InputStream, set_absolute_offset}
use zippylog.RequestProcessor.Messages.{SubscriptionInfo}
use zippylog.Manager.{Subscription, is_path_subscribed, is_envelope}
use zippylog.Manager.Changes.{
  Offsets, assign, find_offset, PersistedStateManager, ResponseState, new_response_state,
  AppendedCallback, deliver, deliver_all, deliver_from, process_store_change_stream_appended,
}

pub find-assign :
    (path : Text) (n : ℕ) (os : Offsets) → find_offset path (assign path n os) ≡ some n
unfolding find_offset assign
find-assign path n [] = rw (text_eq_self path) refl
find-assign path n ((p, m) ∷ os) = elim (Bool-cases (text_eq p path)) [
  | inl e ↦ rw (e, e) refl
  | inr e ↦ rw (e, e) (find-assign path n os)
]

not_below : (n : ℕ) → ltb n n ≡ false
not_below n = ground arith

module _ {Message W : Type 0} (coded : CodedInput Message)
    (serialize : Envelope Message → Option Text) where
  -- There is nothing between the end of a stream and its length.
  deliver-nothing :
      (cb : AppendedCallback W) (si : SubscriptionInfo) (n fuel : ℕ) (state : ResponseState)
      (is : InputStream) (w : W)
      → deliver coded serialize cb si n n fuel state is w ≡ (done is, w)
  unfolding deliver
  deliver-nothing cb si n zero state is w = rw (not_below n) refl
  deliver-nothing cb si n (suc fuel) state is w = rw (not_below n) refl

  deliver_all-nothing :
      (cb : AppendedCallback W) (path : Text) (n : ℕ) (os : Offsets) (fuel : ℕ)
      → find_offset path os ≡ some n
      → (ss : List Subscription) (is : InputStream) (w : W)
      → deliver_all coded serialize cb path n os fuel ss is w ≡ (done tt, w)
  unfolding deliver_all
  deliver_all-nothing cb path n os fuel h [] is w = refl
  deliver_all-nothing cb path n os fuel h (s ∷ ss) is w =
      (let nothing =
          deliver-nothing cb s.si n fuel (new_response_state s.si) (set_absolute_offset n is) w in
        elim (Bool-cases (is_envelope s.si.type)) [
          | inl e ↦ elim (Bool-cases (is_path_subscribed path s.si.paths)) [
            | inl p ↦
                rw (e, p, h, ap (λ r. r.0) nothing, ap (λ r. r.1) nothing)
                  (deliver_all-nothing cb path n os fuel h ss (set_absolute_offset n is) w)
            | inr p ↦ rw (e, p) (deliver_all-nothing cb path n os fuel h ss is w)
          ]
          | inr e ↦ rw e (deliver_all-nothing cb path n os fuel h ss is w)
        ])

  deliver_from-silent :
      (cb : AppendedCallback W) (path : Text) (n fuel : ℕ) (m : PersistedStateManager)
      (o : Outcome (Option InputStream)) (w : W)
      → find_offset path m.stream_read_offsets ≡ some n
      → (deliver_from coded serialize cb path n fuel m o w).1 ≡ w
  deliver_from-silent cb path n fuel m (done none) w h = refl
  deliver_from-silent cb path n fuel m (done (some is)) w h =
      ap (λ r. r.1)
        (deliver_all-nothing cb path n m.stream_read_offsets fuel h m.subscriptions is w)
  deliver_from-silent cb path n fuel m (throws e) w h = refl
  deliver_from-silent cb path n fuel m faults w h = refl

  -- No envelope reaches a subscriber when a stream grows: whatever the callback does, the
  -- subscriptions are and the stream holds, what the callback would change stays as it was.
  pub appended-silent :
      (get_input_stream : Text → Outcome (Option InputStream)) (fuel : ℕ) (path : Text)
      (stream_length : ℕ) (cb : Option (AppendedCallback W)) (m : PersistedStateManager) (w : W)
      → (process_store_change_stream_appended coded serialize get_input_stream fuel path
          stream_length cb m w).2
        ≡ w
  unfolding process_store_change_stream_appended
  appended-silent get_input_stream fuel path n none m w = refl
  appended-silent get_input_stream fuel path n (some cb) m w =
      elim (Bool-cases (is_empty m.subscriptions)) [
        | inl e ↦ rw e refl
        | inr e ↦ rw e (
            deliver_from-silent cb path n fuel
              (record m { stream_read_offsets = assign path n m.stream_read_offsets })
              (get_input_stream path) w (find-assign path n m.stream_read_offsets))
      ]
