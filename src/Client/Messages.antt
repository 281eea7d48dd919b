-- ===== src/Client/Messages.antt =====
-- src/zippylog/client.cpp and src/zippylog/client.hpp: what a client keeps of its requests and
-- subscriptions, and what it is told.
use zippylog.Prelude.{ℕ, Option, none, some, List, [], ◌∷◌, Text, text_eq, if◌then◌else◌}
use zippylog.Envelope.{Envelope}
use zippylog.Platform.{Timer}
use zippylog.RequestProcessor.Messages.{Response}
use zippylog.Store.Contents.{StoreInfo, BucketInfo, StreamSetInfo, StreamInfo}
use zippylog.Reactor.Messages.{StoreChange}

-- The messages that the registrar makes out of what a server sends.
pub data Reply : Type 0 where
  response : Response → Reply
  subscription_start : Option Text → Reply
  store_change : StoreChange → Reply

-- A callback is a function of the program around the client: here a number for each.
abbrev pub Callback : Type 0
Callback = ℕ

pub record StreamSegment : Type 0 where
  pub path : Text
  pub start_offset : ℕ
  pub end_offset : ℕ
  pub bytes_sent : ℕ
  pub envelopes_sent : ℕ
  pub envelopes : List (Envelope Reply)

-- `SubscriptionCallbackInfo`.
pub record SubscriptionCallbacks : Type 0 where
  pub bucket_added : Option Callback
  pub bucket_deleted : Option Callback
  pub stream_set_added : Option Callback
  pub stream_set_deleted : Option Callback
  pub stream_added : Option Callback
  pub stream_deleted : Option Callback
  pub stream_appended : Option Callback
  pub envelope_received : Option Callback

-- `data` of the source is `context`.
pub record OutstandingRequest : Type 0 where
  pub id : Text
  pub cb_ping : Option Callback
  pub cb_features : Option Callback
  pub cb_store_info : Option Callback
  pub cb_bucket_info : Option Callback
  pub cb_stream_set_info : Option Callback
  pub cb_stream_info : Option Callback
  pub cb_stream_segment : Option Callback
  pub cb_subscription : Option Callback
  pub callbacks : SubscriptionCallbacks
  pub context : ℕ

pub record ClientSubscription : Type 0 where
  pub id : Text
  pub expiration_timer : Timer
  pub cb : SubscriptionCallbacks
  pub context : ℕ

-- What a callback is called with.
pub data Told : Type 0 where
  pong : Told
  store_info : StoreInfo → Told
  bucket_info : BucketInfo → Told
  stream_set_info : StreamSetInfo → Told
  stream_info : StreamInfo → Told
  segment : Text → ℕ → StreamSegment → Told
  accepted : Text → ℕ → Told
  changed : Text → StoreChange → Told
  received : Text → Envelope Reply → Told

pub record CallbackCall : Type 0 where
  pub callback : Callback
  pub told : Told
  pub context : ℕ

-- `called` is what the callbacks were called with, in order. A callback gets the client and may use it:
-- `acts` is what a call of it makes of the outstanding requests, by sending others. Callbacks return, and
-- do not wait for an answer themselves.
pub record Client : Type 0 where
  pub outstanding : List (Text × OutstandingRequest)
  pub subscriptions : List (Text × ClientSubscription)
  pub subscription_renewal_offset : ℕ
  pub acts : CallbackCall → List (Text × OutstandingRequest) → List (Text × OutstandingRequest)
  pub called : List CallbackCall

-- `std::map`: `find`, assignment to an entry, and `erase` of one.
module _ {A : Type 0} where
  unfoldable pub find : Text → List (Text × A) → Option A
  find k [] = none
  find k ((j, a) ∷ m) = let rest = find k m in if text_eq j k then some a else rest

  unfoldable pub assign : Text → A → List (Text × A) → List (Text × A)
  assign k a [] = (k, a) ∷ []
  assign k a ((j, b) ∷ m) =
      let rest = assign k a m in if text_eq j k then (j, a) ∷ m else (j, b) ∷ rest

  unfoldable pub erase : Text → List (Text × A) → List (Text × A)
  erase k [] = []
  erase k ((j, b) ∷ m) = let rest = erase k m in if text_eq j k then rest else (j, b) ∷ rest

-- The casts of a message to its class: none where it is of another.
abbrev pub to_store_info : Reply → Option StoreInfo
to_store_info (response (Response.store_info i)) = some i
to_store_info _ = none

abbrev pub to_bucket_info : Reply → Option BucketInfo
to_bucket_info (response (Response.bucket_info i)) = some i
to_bucket_info _ = none

abbrev pub to_stream_set_info : Reply → Option StreamSetInfo
to_stream_set_info (response (Response.stream_set_info i)) = some i
to_stream_set_info _ = none

abbrev pub to_stream_info : Reply → Option StreamInfo
to_stream_info (response (Response.stream_info i)) = some i
to_stream_info _ = none

-- The path and the offset of `StreamSegmentStartV1`.
abbrev pub to_segment_start : Reply → Option (Text × Option ℕ)
to_segment_start (response (Response.segment_start path offset)) = some (path, offset)
to_segment_start _ = none

-- The envelopes, the bytes and the offset of `StreamSegmentEndV1`.
abbrev pub to_segment_end : Reply → Option (ℕ × ℕ × ℕ)
to_segment_end (response (Response.segment_end sent bytes end_offset)) =
    some (sent, bytes, end_offset)
to_segment_end _ = none

-- The identifier and the time to live of `SubscriptionAcceptAckV1`.
abbrev pub to_accept_ack : Reply → Option (Text × ℕ)
to_accept_ack (response (Response.subscription_accept_ack id ttl)) = some (id, ttl)
to_accept_ack _ = none

abbrev pub to_subscription_start : Reply → Option (Option Text)
to_subscription_start (subscription_start id) = some id
to_subscription_start _ = none

abbrev pub to_store_change : Reply → Option StoreChange
to_store_change (store_change s) = some s
to_store_change _ = none

-- Of a message that `GetMessage` gives, and of none.
abbrev pub cast : {A : Type 0} → (Reply → Option A) → Option Reply → Option A
cast to none = none
cast to (some r) = to r
