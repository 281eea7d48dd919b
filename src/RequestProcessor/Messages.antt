-- ===== src/RequestProcessor/Messages.antt =====
-- src/proto/zippylog/protocol/request.proto and response.proto, as far as `RequestProcessor` of
-- src/zippylog/request_processor.cpp uses them, its log messages, and the two classes that it shares
-- with the implementation behind it: `SubscriptionInfo` and `RequestProcessorHandlerResult`.
use Prim.Native.String.{String}
use zippylog.Prelude.{ℕ, Bool, true, false, Option, none, some, List, [], Text}
use zippylog.Store.Contents.{StoreInfo, BucketInfo, StreamSetInfo, StreamInfo}

pub record SegmentRequest : Type 0 where
  pub path : Option Text
  pub start_offset : Option ℕ
  pub max_response_bytes : Option ℕ
  pub max_response_envelopes : Option ℕ

pub record WriteRequest : Type 0 where
  pub path : Option Text
  pub envelope : List Text
  pub acknowledge : Bool
  pub synchronous : Bool

pub record EnvelopesRequest : Type 0 where
  pub path : List Text
  pub lua_code : Option Text
  pub filter_namespace : List ℕ
  pub filter_enumeration_namespace : List ℕ
  pub filter_enumeration_type : List ℕ

-- The messages that the registrar makes out of a request. The path is optional here, although the
-- format requires it, because the code asks for it.
pub data Request : Type 0 where
  ping : Request
  get_features : Request
  get_store_info : Request
  get_bucket_info : Option Text → Request
  get_stream_set_info : Option Text → Request
  get_stream_info : Option Text → Request
  get_stream_segment : SegmentRequest → Request
  subscribe_store_changes : List Text → Request
  subscribe_envelopes : EnvelopesRequest → Request
  subscribe_keepalive : List Text → Request
  write_envelope : WriteRequest → Request
  register_plugin : Request

pub data ErrorCode : Type 0 where
  envelope_parse_failure : ErrorCode
  invalid_message_namespace : ErrorCode
  unknown_request_type : ErrorCode
  empty_envelope : ErrorCode
  missing_enumerations : ErrorCode
  empty_field : ErrorCode
  field_lengths_different : ErrorCode
  invalid_stream_offset : ErrorCode
  path_not_found : ErrorCode
  unknown_message_format_version : ErrorCode
  invalid_path : ErrorCode
  unsupported_operation_message_version : ErrorCode
  empty_message : ErrorCode
  protocol_no_envelope : ErrorCode
  general_error_processing : ErrorCode
  lua_error : ErrorCode
  subscription_rejected : ErrorCode

pub record Features : Type 0 where
  pub supported_message_formats : List ℕ
  pub supported_request_types : List ℕ
  pub supported_request_names : List Text
  pub max_stream_segment_bytes : ℕ
  pub max_stream_segment_envelopes : ℕ

pub data Response : Type 0 where
  error : ErrorCode → Text → Response
  pong : Response
  features : Features → Response
  store_info : StoreInfo → Response
  bucket_info : BucketInfo → Response
  stream_set_info : StreamSetInfo → Response
  stream_info : StreamInfo → Response
  segment_start : Text → Option ℕ → Response
  segment_end : ℕ → ℕ → ℕ → Response
  subscription_accept_ack : Text → ℕ → Response
  write_ack : ℕ → Response

-- The messages to the logger.
pub data Log : Type 0 where
  fail_receive_message : Log
  receive_empty_message : Log
  unknown_message_version : Log
  envelope_parse_failure : Option Text → Log
  empty_envelope : Log
  invalid_message_enumeration : Log
  unknown_request_type : ℕ → Log
  embedded_message_parse_failure : Log
  send_error_response : Text → Log
  begin_process : String → Log
  end_process : String → Log
  receive_invalid_get : Log
  get_invalid_stream : Log
  get_invalid_offset : Log
  forward_subscribe_keepalive : Text → Log

pub data SubscriptionType : Type 0 where
  envelope_subscription : SubscriptionType
  store_change : SubscriptionType
  unknown : SubscriptionType

pub record SubscriptionInfo : Type 0 where
  pub type : SubscriptionType
  pub id : Text
  pub paths : List Text
  pub lua_code : Text
  pub socket_identifiers : List Text
  pub envelope_filter_namespaces : List ℕ
  pub envelope_filter_enumerations : List (ℕ × ℕ)

abbrev pub new_subscription : SubscriptionInfo
new_subscription = record {
  type = unknown;
  id = [];
  paths = [];
  lua_code = [];
  socket_identifiers = [];
  envelope_filter_namespaces = [];
  envelope_filter_enumerations = [];
}

-- The fields that the default constructor leaves without a value are `none`.
pub record HandlerResult : Type 0 where
  pub deferred : Bool
  pub have_error : Bool
  pub error_code : Option ErrorCode
  pub error_message : Text
  pub is_subscription : Bool
  pub is_write : Bool
  pub subscription_id : Text
  pub subscription_ttl : Option ℕ
  pub envelopes_written : Option ℕ

abbrev pub synchronous_result : HandlerResult
synchronous_result = record {
  deferred = false;
  have_error = false;
  error_code = none;
  error_message = [];
  is_subscription = false;
  is_write = false;
  subscription_id = [];
  subscription_ttl = none;
  envelopes_written = none;
}

-- The static functions that make the results.
unfoldable pub make_error : ErrorCode → Text → HandlerResult
make_error code message = record synchronous_result {
  have_error = true;
  error_code = some code;
  error_message = message;
}

unfoldable pub make_deferred : HandlerResult
make_deferred = record synchronous_result { deferred = true }

unfoldable pub make_subscription_accepted : Text → ℕ → HandlerResult
make_subscription_accepted id ttl = record synchronous_result {
  is_subscription = true;
  subscription_id = id;
  subscription_ttl = some ttl;
}

unfoldable pub make_subscription_rejected : Text → HandlerResult
make_subscription_rejected reason = record synchronous_result {
  is_subscription = true;
  error_message = reason;
}

unfoldable pub make_write_result : ℕ → HandlerResult
make_write_result written = record synchronous_result {
  is_write = true;
  envelopes_written = some written;
}
