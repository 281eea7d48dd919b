-- ===== src/RequestProcessor/Examples.antt =====
-- Tests of the model of src/zippylog/request_processor.cpp on concrete inputs, and its theorems at
-- such inputs.
use zippylog.Prelude.{
  throws, ◌≢◌, inr, ◌+◌, ◌≡◌, refl, ◌↔◌, ◌⊎◌, true, false, none, some, List, [], ◌∷◌, ◌++◌, Text,
  bytes, length, take, drop, is_empty, done, faults, arith,
}
use zippylog.Store.Path.{parse_path}
use zippylog.Store.Backend.{Backend}
use zippylog.Envelope.{get_message, get_cached, cache_for, fill, parse_at, Envelope, new_envelope}
use zippylog.Stream.{InputStream, CodedInput, next_envelope_size, read_envelope}
use zippylog.RequestProcessor.Writes.{process_write_envelope}
use zippylog.RequestProcessor.Writes.Handled
use zippylog.RequestProcessor.Writes.Calls.{IsWritable, all_parsed}
use zippylog.RequestProcessor.Writes.Handled.{
  IsWritten, process_write_envelope-writes, process_write_envelope-IsWritten,
}
use zippylog.RequestProcessor.Subscriptions.{subscribe_envelopes}
use zippylog.RequestProcessor.Subscriptions.Subscribed.{
  IsSubscribed, IsAccepted, wanted, subscribe_envelopes-IsSubscribed,
}
use zippylog.RequestProcessor.Dispatch.Lua.{subscription_request, process_request-faults}
use zippylog.RequestProcessor.Record.{SubscriptionRecord, to_protocol_buffer, from_record}
use zippylog.RequestProcessor.Record.RoundTrip.{to_protocol_buffer-from_record}
use zippylog.RequestProcessor.Messages.{
  SubscriptionInfo, unknown, WriteRequest, EnvelopesRequest, Request, synchronous_result,
  make_subscription_accepted, make_write_result,
}
use zippylog.RequestProcessor.State.{Call, Environment, Progress, check_path}
use zippylog.RequestProcessor.State.Paths.{IsServed, check_path_iff}
use zippylog.RequestProcessor.Info.{authoritative, deferred, process_ping}
use zippylog.RequestProcessor.Segment.{Reading, read_more, read_segment}
use zippylog.RequestProcessor.Segment.Fuel.{read_more_enough}
use zippylog.RequestProcessor.Segment.Rounds.{IsWithin}
use zippylog.RequestProcessor.Segment.Limits.{before, read_segment-IsWithin}
use zippylog.RequestProcessor.Dispatch.{
  process_messages, process_request, request_envelope, dispatch,
}
use zippylog.RequestProcessor.Dispatch.Answers.{process_messages_answered, process_request-tags}

-- A store with all that is asked for.
abbrev full_store : Backend
full_store = record {
  bucket_names = bytes "acme" ∷ [];
  stream_set_names = λ b. bytes "web" ∷ [];
  stream_names = λ b s. bytes "2010" ∷ [];
  stream_length = λ p. some 10;
  bucket_exists = λ b. true;
  stream_set_exists = λ b s. true;
  stream_exists = λ b s t. true;
}

abbrev pub an_envelope : Text → Envelope Request
an_envelope t = record (new_envelope 5) {
  message = t ∷ [];
  message_namespace = 1 ∷ [];
  message_type = 91 ∷ [];
  tag = bytes "tag" ∷ [];
}

-- One byte of size, and the message behind it.
abbrev coded_bytes : CodedInput Request
coded_bytes = record {
  read_varint = λ t. elim t [ [] ↦ none | n ∷ rest ↦ some (n, rest) ];
  read_message = λ n t. (some (an_envelope (take n t)), drop n t);
}

abbrev pub server : Environment
server = record {
  get_stream_max_bytes = 1000;
  get_stream_max_envelopes = 10;
  backend = full_store;
  get_input_stream = λ b s t. done none;
  coded = coded_bytes;
  parse_envelope = λ t. some (an_envelope t);
  parse_message = λ ns type t. some Request.ping;
  serialize = λ r. some (bytes "r");
  enumeration = λ r. 69;
  load_lua = λ t. none;
  clock = λ n. 100 + n;
  subscription_request = λ calls s. done (make_subscription_accepted (bytes "id") 60);
  subscribe_keepalive = λ calls e o. (done synchronous_result, o);
  write_envelopes = λ calls path es now. done (make_write_result (length es));
}

abbrev pub idle : Progress
idle = record { output = []; logs = []; calls = []; readings = 0 }

abbrev ping_message : Text
ping_message = 1 ∷ bytes "ping"

processed : (process_messages server [] (ping_message ∷ []) idle).0 ≡ done tt
unfolding process_messages process_ping
processed = refl

process_messages_answered_example :
    (is_empty (process_messages server [] (ping_message ∷ []) idle).1.output ≡ false)
    ⊎ ((request : Envelope Request) × (request_envelope server ping_message ≡ some request)
        × ((process_request server [] request idle).0 ≡ done deferred))
process_messages_answered_example =
    process_messages_answered server [] ping_message [] idle processed

ping_answered : (process_request server [] (an_envelope (bytes "ping")) idle).0 ≡ done authoritative
unfolding process_request process_ping
ping_answered = refl

process_request-tags_example :
    (e e' : Envelope Request) × (es : List (Envelope Request)) × ((dispatch server []
        (an_envelope (bytes "ping"))
        idle).1.output
      ≡ e ∷ es)
    × ((process_request server [] (an_envelope (bytes "ping")) idle).1.output ≡ e' ∷ es)
    × (e'.tag ≡ e.tag ++ bytes "tag" ∷ [])
    × (e'.message ≡ e.message)
process_request-tags_example =
    process_request-tags server [] (an_envelope (bytes "ping")) idle ping_answered

check_path_iff_example :
    ((check_path server (bytes "/acme/web") true true false idle).0 ≡ done true)
    ↔ IsServed server (bytes "/acme/web") true true false
check_path_iff_example = check_path_iff server (bytes "/acme/web") true true false idle

-- A stream of three envelopes, of which the bound on envelopes lets two through.
abbrev pub three_envelopes : InputStream
three_envelopes = record {
  file = 1 ∷ 2 ∷ 7 ∷ 7 ∷ 3 ∷ 8 ∷ 8 ∷ 8 ∷ 1 ∷ 9 ∷ [];
  rest = 2 ∷ 7 ∷ 7 ∷ 3 ∷ 8 ∷ 8 ∷ 8 ∷ 1 ∷ 9 ∷ [];
  have_next_size = false;
  next_size = 0;
  offset = 1;
}

abbrev after_one : InputStream
after_one = record three_envelopes { rest = 3 ∷ 8 ∷ 8 ∷ 8 ∷ 1 ∷ 9 ∷ []; offset = 4; next_size = 2 }

read_one :
    read_envelope coded_bytes (next_envelope_size coded_bytes three_envelopes).1
    ≡ (some (an_envelope (7 ∷ 7 ∷ []), 3), after_one)
unfolding read_envelope next_envelope_size
read_one = refl

size_of_one : (next_envelope_size coded_bytes three_envelopes).0 ≡ 2
unfolding next_envelope_size
size_of_one = refl

read_two : (read_segment server after_one 3 1000 2).0 ≡ an_envelope (8 ∷ 8 ∷ 8 ∷ []) ∷ []
unfolding read_segment next_envelope_size read_envelope
read_two = refl

read_segment-IsWithin_example : IsWithin coded_bytes (before three_envelopes 1000 2) 2 (
  an_envelope (7 ∷ 7 ∷ []) ∷ (read_segment server after_one 3 1000 2).0,
  (read_segment server after_one 3 1000 2).1,
)
read_segment-IsWithin_example =
    read_segment-IsWithin server three_envelopes after_one (an_envelope (7 ∷ 7 ∷ [])) 3 1000 2
      (omega (arith, size_of_one)) read_one (omega arith) (omega arith) (omega arith)

-- A write of one envelope to a stream set.
abbrev a_write : WriteRequest
a_write = record {
  path = some (bytes "/acme/web");
  envelope = bytes "x" ∷ [];
  acknowledge = true;
  synchronous = false;
}

abbrev write_server : Environment
write_server = record server { parse_message = λ ns type t. some (Request.write_envelope a_write) }

got_write :
    (get_message write_server.parse_message 0 (an_envelope [])).0
    ≡ some (Request.write_envelope a_write)
unfolding get_message get_cached cache_for fill parse_at new_envelope
got_write = refl

process_write_envelope-IsWritten_example :
    IsWritten write_server a_write []
      (process_write_envelope write_server (an_envelope []) idle).1.calls
process_write_envelope-IsWritten_example =
    process_write_envelope-IsWritten write_server (an_envelope []) a_write idle got_write

-- A subscription to a stream set, and one with Lua code.
abbrev a_subscription : EnvelopesRequest
a_subscription = record {
  path = bytes "/acme/web" ∷ [];
  lua_code = none;
  filter_namespace = [];
  filter_enumeration_namespace = 1 ∷ [];
  filter_enumeration_type = 91 ∷ [];
}

abbrev clients : List Text
clients = bytes "worker" ∷ bytes "client" ∷ []

subscribe_envelopes-IsSubscribed_example :
    IsSubscribed server
      (IsAccepted a_subscription)
      clients
      (bytes "/acme/web" ∷ [])
      (wanted server a_subscription)
      []
      (subscribe_envelopes server clients a_subscription idle).1.calls
subscribe_envelopes-IsSubscribed_example =
    subscribe_envelopes-IsSubscribed server clients a_subscription idle

abbrev lua_subscription : EnvelopesRequest
lua_subscription = record a_subscription { lua_code = some (bytes "return true") }

abbrev lua_server : Environment
lua_server = record server {
  parse_message = λ ns type t. some (Request.subscribe_envelopes lua_subscription);
}

process_request-faults_example :
    (process_request lua_server clients
      (subscription_request (some 5) (bytes "m") [] [] [] [])
      idle).0
    ≡ faults
process_request-faults_example =
    process_request-faults lua_server clients idle (some 5) (bytes "m") [] [] [] [] lua_subscription
      (bytes "return true") refl refl refl refl refl

parsed_set :
    parse_path (bytes "/acme/web")
    ≡ some (record { bucket = bytes "acme"; set = bytes "web"; stream = [] })
unfolding parse_path
parsed_set = refl

served_set : IsServed write_server (bytes "/acme/web") true true false
served_set = record {
  parsed = record { bucket = bytes "acme"; set = bytes "web"; stream = [] };
  parses = parsed_set;
  bucket_exists = λ h. ((λ e. cc), refl);
  set_exists = λ h. ((λ e. cc), refl);
  stream_exists = λ h. cc;
}

a_write-IsAccepted : Handled.IsAccepted write_server a_write (bytes "/acme/web")
unfolding IsWritable
a_write-IsAccepted = record {
  has_path = refl;
  writable = (
    record { bucket = bytes "acme"; set = bytes "web"; stream = [] },
    parsed_set,
    inr served_set,
  );
  filled = ((λ e. cc), tt);
  parsed = λ e. cc;
}

process_write_envelope-writes_example :
    (process_write_envelope write_server (an_envelope []) idle).1.calls
    ≡ []
      ++ Call.handle_write_envelopes
          (bytes "/acme/web")
          (all_parsed write_server (bytes "x" ∷ []))
          false
        ∷ []
process_write_envelope-writes_example =
    process_write_envelope-writes write_server (an_envelope []) a_write (bytes "/acme/web") idle
      got_write a_write-IsAccepted

abbrev known_subscription : SubscriptionInfo
known_subscription = record (wanted server a_subscription) {
  id = bytes "id";
  paths = bytes "/acme/web" ∷ [];
  lua_code = bytes "return true";
}

to_protocol_buffer-from_record_example :
    (known_subscription.type ≢ unknown
      → (m : SubscriptionRecord) × (to_protocol_buffer known_subscription ≡ done m)
        × (from_record m ≡ done (record known_subscription { id = [] })))
    × (known_subscription.type ≡ unknown
        → to_protocol_buffer known_subscription ≡ throws "unhandled subscription type")
to_protocol_buffer-from_record_example = to_protocol_buffer-from_record known_subscription

abbrev two_left : Reading
two_left = before three_envelopes 1000 2

read_more_enough_example : read_more server 7 two_left ≡ read_more server 2 two_left
read_more_enough_example =
    read_more_enough server 7 two_left (omega arith) (omega arith) (omega arith)
