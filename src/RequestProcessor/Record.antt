-- ===== src/RequestProcessor/Record.antt =====
-- src/zippylog/request_processor.cpp: `SubscriptionInfo` to and from the protocol buffer
-- `SubscriptionRecord` of src/proto/zippylog/device/server.proto, in which subscriptions are sent to
-- the manager of them.
pub mod RoundTrip
use Prim.Native.String.{String}
use zippylog.Prelude.{
  ℕ, Bool, not, Option, none, some, List, [], ◌∷◌, Text, map, length, is_empty, ◌==◌, if◌then◌else◌,
  Outcome, done, throws, faults,
}
use zippylog.RequestProcessor.Messages.{
  SubscriptionType, envelope_subscription, store_change, unknown, SubscriptionInfo,
}
use zippylog.RequestProcessor.Subscriptions.{pairs}

-- The enumeration of the record has no value for a type that is not known.
pub data RecordType : Type 0 where
  envelope_record : RecordType
  store_change_record : RecordType

pub record SubscriptionRecord : Type 0 where
  pub type : Option RecordType
  pub id : Option Text
  pub path : List Text
  pub lua_code : Option Text
  pub socket_identifier : List Text
  pub filter_namespace : List ℕ
  pub filter_enumeration_namespace : List ℕ
  pub filter_enumeration_type : List ℕ

unfoldable pub record_type : SubscriptionType → Outcome RecordType
record_type envelope_subscription = done envelope_record
record_type store_change = done store_change_record
record_type unknown = throws "unhandled subscription type"

unfoldable pub info_type : Option RecordType → SubscriptionType
info_type none = unknown
info_type (some envelope_record) = envelope_subscription
info_type (some store_change_record) = store_change

abbrev set_if_filled : Text → Option Text
set_if_filled [] = none
set_if_filled (c ∷ t) = some (c ∷ t)

abbrev or_empty : Option Text → Text
or_empty none = []
or_empty (some t) = t

abbrev filled_record : SubscriptionInfo → RecordType → SubscriptionRecord
filled_record s type = record {
  type = some type;
  id = none;
  path = s.paths;
  lua_code = set_if_filled s.lua_code;
  socket_identifier = s.socket_identifiers;
  filter_namespace = s.envelope_filter_namespaces;
  filter_enumeration_namespace = map (λ p. p.0) s.envelope_filter_enumerations;
  filter_enumeration_type = map (λ p. p.1) s.envelope_filter_enumerations;
}

-- `ToProtocolBuffer`: the id is not written.
unfoldable pub to_protocol_buffer : SubscriptionInfo → Outcome SubscriptionRecord
to_protocol_buffer s = elim (record_type s.type) [
  | done type ↦ done (filled_record s type)
  | throws e ↦ throws e
  | faults ↦ faults
]

-- The constructor of a record.
unfoldable pub from_record : SubscriptionRecord → Outcome SubscriptionInfo
from_record m =
    if not (length m.filter_enumeration_namespace == length m.filter_enumeration_type)
    then throws "length of envelope_filter_enumeration and envelope_filter_type do not agree"
    else done (record {
      type = info_type m.type;
      id = or_empty m.id;
      paths = m.path;
      lua_code = or_empty m.lua_code;
      socket_identifiers = m.socket_identifier;
      envelope_filter_namespaces = m.filter_namespace;
      envelope_filter_enumerations = pairs m.filter_enumeration_namespace m.filter_enumeration_type;
    })
