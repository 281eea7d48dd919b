-- ===== src/Client/Requests.antt =====
-- src/zippylog/client.cpp: the requests that a `Client` sends, with `SendRequest`,
-- `SendAndProcessSynchronousRequest` and `Pump`.
use zippylog.Prelude.{
  ℕ, ◌*◌, ◌%◌, ◌^◌, Bool, true, false, not, Option, none, some, List, [], ◌∷◌, Text, is_empty,
  if◌then◌else◌, Outcome, done, throws,
}
use zippylog.Store.Path.{validate_path, is_bucket_path, is_stream_set_path, is_stream_path}
use zippylog.RequestProcessor.Messages.{Request}
use zippylog.ZeroMq.{last_part, Socket, Sent, is_nonzero, send_envelope_to}
use zippylog.Client.Messages.{
  Callback, SubscriptionCallbacks, OutstandingRequest, Client, find, assign,
}

abbrev pub no_callbacks : SubscriptionCallbacks
no_callbacks = record {
  bucket_added = none;
  bucket_deleted = none;
  stream_set_added = none;
  stream_set_deleted = none;
  stream_added = none;
  stream_deleted = none;
  stream_appended = none;
  envelope_received = none;
}

-- The constructor; the identifier is set when the request is sent.
abbrev pub new_request : ℕ → OutstandingRequest
new_request context = record {
  id = [];
  cb_ping = none;
  cb_features = none;
  cb_store_info = none;
  cb_bucket_info = none;
  cb_stream_set_info = none;
  cb_stream_info = none;
  cb_stream_segment = none;
  cb_subscription = none;
  callbacks = no_callbacks;
  context = context;
}

-- The paths of a subscription: false where one is not valid.
unfoldable pub all_valid : List Text → Bool
all_valid [] = true
all_valid (path ∷ paths) =
    let rest = all_valid paths in if not (validate_path path) then false else rest

-- `HaveOutstandingRequest`.
unfoldable pub have_outstanding_request : Text → Client → Bool
unfolding find
have_outstanding_request id c = elim (find id c.outstanding) [ none ↦ false | some _ ↦ true ]

abbrev pub is_positive : Option ℕ → Bool
is_positive none = false
is_positive (some n) = true

abbrev pub microseconds_of : Option ℕ → ℕ
microseconds_of none = 0
microseconds_of (some n) = n * 1000 % 2 ^ 32

-- What a call gives, with the socket and the client.
abbrev pub Sending : Type 0 → Type 0
Sending S = Outcome Bool × S × Client

-- `serialize` makes the bytes of an envelope with the request and the tag.
module _ {S : Type 0} (socket : Socket S) (serialize : Request → Text → Option Text) where
  abbrev pub registered : Text → OutstandingRequest → Client → Sent × S → Sending S
  registered id req c (sent, s) =
      if is_nonzero sent
      then (
        done true,
        s,
        record c { outstanding = assign id (record req { id = id }) c.outstanding },
      )
      else (done false, s, c)

  -- `id` is what `CreateUUID` gives.
  unfoldable pub send_request : Text → Request → OutstandingRequest → S → Client → Sending S
  unfolding send_envelope_to assign
  send_request id r req s c =
      registered id req c (send_envelope_to socket [] (serialize r id) true (last_part false) s)

  unfoldable pub ping : Text → Option Callback → ℕ → S → Client → Sending S
  unfolding send_request
  ping id none context s c = (throws "callback parameter not defined", s, c)
  ping id (some cb) context s c =
      send_request id Request.ping (record (new_request context) { cb_ping = some cb }) s c

  unfoldable pub get_features : Text → Option Callback → ℕ → S → Client → Sending S
  unfolding send_request
  get_features id none context s c = (throws "callback parameter not defined", s, c)
  get_features id (some cb) context s c =
      send_request id Request.get_features (record (new_request context) { cb_features = some cb })
        s c

  unfoldable pub get_store_info : Text → Option Callback → ℕ → S → Client → Sending S
  unfolding send_request
  get_store_info id none context s c = (throws "callback parameter not defined", s, c)
  get_store_info id (some cb) context s c =
      send_request id Request.get_store_info
        (record (new_request context) { cb_store_info = some cb }) s c

  unfoldable pub get_bucket_info : Text → Text → Option Callback → ℕ → S → Client → Sending S
  unfolding send_request
  get_bucket_info id path none context s c = (throws "callback parameter not defined", s, c)
  get_bucket_info id path (some cb) context s c =
      if not (is_bucket_path path)
      then (throws "path is not a valid bucket path", s, c)
      else send_request id (Request.get_bucket_info (some path))
          (record (new_request context) { cb_bucket_info = some cb }) s c

  unfoldable pub get_stream_set_info : Text → Text → Option Callback → ℕ → S → Client → Sending S
  unfolding send_request
  get_stream_set_info id path none context s c = (throws "callback is not defined", s, c)
  get_stream_set_info id path (some cb) context s c =
      if not (is_stream_set_path path)
      then (throws "path is not a path to a stream set", s, c)
      else send_request id (Request.get_stream_set_info (some path))
          (record (new_request context) { cb_stream_set_info = some cb }) s c

  unfoldable pub get_stream_info : Text → Text → Option Callback → ℕ → S → Client → Sending S
  unfolding send_request
  get_stream_info id path none context s c = (throws "callback is not defined", s, c)
  get_stream_info id path (some cb) context s c =
      if not (is_stream_path path)
      then (throws "path is not a path to a stream", s, c)
      else send_request id (Request.get_stream_info (some path))
          (record (new_request context) { cb_stream_info = some cb }) s c

  -- With and without a bound on the bytes of the response.
  unfoldable pub get_stream_segment :
      Text → Text → ℕ → Option ℕ → Option Callback → ℕ → S → Client → Sending S
  unfolding send_request
  get_stream_segment id path start_offset max_bytes none context s c =
      (throws "callback parameter not defined", s, c)
  get_stream_segment id path start_offset max_bytes (some cb) context s c =
      send_request id
        (Request.get_stream_segment (record {
          path = some path;
          start_offset = some start_offset;
          max_response_bytes = max_bytes;
          max_response_envelopes = none;
        }))
        (record (new_request context) { cb_stream_segment = some cb }) s c

  -- No callback for the answer is set, so that the answer of an accepted request fails an assertion.
  unfoldable pub subscribe_envelopes :
      Text → Text → Text → SubscriptionCallbacks → ℕ → S → Client → Sending S
  unfolding send_request
  subscribe_envelopes id path lua cb context s c =
      send_request id
        (Request.subscribe_envelopes (record {
          path = path ∷ [];
          lua_code = if is_empty lua then none else some lua;
          filter_namespace = [];
          filter_enumeration_namespace = [];
          filter_enumeration_type = [];
        }))
        (record (new_request context) { callbacks = cb }) s c
