-- ===== src/Reactor/Messages.antt =====
-- src/proto/zippylog/protocol.proto, the messages that tell of changes of the store, and the messages
-- that the reactor of src/zippylog/device/persisted_state_reactor.cpp receives.
use zippylog.Prelude.{ℕ, List, Text}
use zippylog.RequestProcessor.Record.{SubscriptionRecord}

pub data StoreChange : Type 0 where
  bucket_added : Text → StoreChange
  bucket_deleted : Text → StoreChange
  stream_set_added : Text → Text → StoreChange
  stream_set_deleted : Text → Text → StoreChange
  stream_added : Text → Text → Text → StoreChange
  stream_deleted : Text → Text → Text → StoreChange
  stream_appended : Text → Text → Text → ℕ → StoreChange

-- What the registrar makes out of a message.
pub data Notice : Type 0 where
  subscription_record : SubscriptionRecord → Notice
  store_change : StoreChange → Notice
  keepalive : List Text → Notice

-- The numbers of the messages, `zippylog_enumeration`.
unfoldable pub change_number : StoreChange → ℕ
change_number (stream_added b s t) = 97
change_number (stream_deleted b s t) = 98
change_number (stream_appended b s t n) = 99
change_number (bucket_added b) = 100
change_number (bucket_deleted b) = 101
change_number (stream_set_added b s) = 102
change_number (stream_set_deleted b s) = 103
