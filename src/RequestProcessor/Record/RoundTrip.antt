-- ===== src/RequestProcessor/Record/RoundTrip.antt =====
-- src/zippylog/request_processor.cpp: a `SubscriptionInfo` that is written to a record is read back.
use zippylog.Prelude.{
  ℕ, suc, ◌≡◌, ◌≢◌, refl, sym, ap, ◌∙◌, true, some, List, [], ◌∷◌, map, length, ◌==◌, arith, Text,
  done, throws,
}
use zippylog.RequestProcessor.Messages.{
  SubscriptionType, SubscriptionInfo, envelope_subscription, store_change, unknown,
}
use zippylog.RequestProcessor.Subscriptions.{pairs}
use zippylog.RequestProcessor.Record.{
  RecordType, SubscriptionRecord, filled_record, set_if_filled, or_empty, record_type, info_type,
  to_protocol_buffer, from_record, envelope_record, store_change_record,
}

pairs-map : (ps : List (ℕ × ℕ)) → pairs (map (λ p. p.0) ps) (map (λ p. p.1) ps) ≡ ps
pairs-map [] = refl
pairs-map (p ∷ ps) = ap (◌∷◌ p) (pairs-map ps)

lengths : (ps : List (ℕ × ℕ)) → length (map (λ p. p.0) ps) ≡ length (map (λ p. p.1) ps)
lengths [] = refl
lengths (p ∷ ps) = ap suc (lengths ps)

same_length :
    (ps : List (ℕ × ℕ)) → (length (map (λ p. p.0) ps) == length (map (λ p. p.1) ps)) ≡ true
same_length ps = ground (arith, lengths ps)

or_empty-set : (t : Text) → or_empty (set_if_filled t) ≡ t
or_empty-set [] = refl
or_empty-set (c ∷ t) = refl

read_back :
    (s : SubscriptionInfo) (type : RecordType)
    → from_record (filled_record s type) ≡ done (record s { type = info_type (some type); id = [] })
unfolding from_record
read_back s type =
    rw
      (
        same_length s.envelope_filter_enumerations,
        pairs-map s.envelope_filter_enumerations,
        or_empty-set s.lua_code,
      )
      refl

other : envelope_subscription ≡ unknown → ⊥
other h = cc

change : store_change ≡ unknown → ⊥
change h = cc

-- The record that is written, by the type.
written_known :
    (s : SubscriptionInfo) (type : RecordType)
    → record_type s.type ≡ done type
    → info_type (some type) ≡ s.type
    → (m : SubscriptionRecord) × (to_protocol_buffer s ≡ done m)
      × (from_record m ≡ done (record s { id = [] }))
unfolding to_protocol_buffer
written_known s type h k = (
  filled_record s type,
  rw (h, to_protocol_buffer) refl,
  read_back s type ∙ ap (λ t. done (record s { type = t; id = [] })) k,
)

by_type :
    (s : SubscriptionInfo) (t : SubscriptionType)
    → s.type ≡ t
    → (s.type ≢ unknown
        → (m : SubscriptionRecord) × (to_protocol_buffer s ≡ done m)
          × (from_record m ≡ done (record s { id = [] })))
      × (s.type ≡ unknown → to_protocol_buffer s ≡ throws "unhandled subscription type")
unfolding record_type info_type to_protocol_buffer
by_type s envelope_subscription e = (
  λ h. written_known s envelope_record (ap record_type e) (sym e),
  λ h. elim (other (sym e ∙ h)) [ ],
)
by_type s store_change e = (
  λ h. written_known s store_change_record (ap record_type e) (sym e),
  λ h. elim (change (sym e ∙ h)) [ ],
)
by_type s unknown e = (λ h. elim (h e) [ ], λ h. rw (e, to_protocol_buffer) refl)

-- A subscription of a known type can be written to a record, and reading the record back gives the
-- subscription without its id; one of an unknown type is refused with an exception.
pub to_protocol_buffer-from_record :
    (s : SubscriptionInfo)
    → (s.type ≢ unknown
        → (m : SubscriptionRecord) × (to_protocol_buffer s ≡ done m)
          × (from_record m ≡ done (record s { id = [] })))
      × (s.type ≡ unknown → to_protocol_buffer s ≡ throws "unhandled subscription type")
to_protocol_buffer-from_record s = by_type s s.type refl
