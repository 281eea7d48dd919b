-- ===== src/Client/Examples.antt =====
-- The theorems of the model of src/zippylog/client.cpp on concrete inputs.
use zippylog.Prelude.{
  ℕ, ◌+◌, ◌<◌, ◌≡◌, refl, some-injective, done-injective, true, false, none, some, List, [], ◌∷◌,
  ◌++◌, bytes, arith, subst, done, throws,
}
use zippylog.Envelope.{Envelope, new_envelope}
use zippylog.Platform.{Moment, new_timer, start}
use zippylog.RequestProcessor.Messages.{Request}
use zippylog.RequestProcessor.State.{Environment, Progress}
use zippylog.RequestProcessor.Pump.{pump}
use zippylog.Device.{make_work_done}
use zippylog.ZeroMq.{Part}
use zippylog.ZeroMq.Queue.{queue, queue-IsWired, queue-IsOpen}
use zippylog.Client.Messages.{Reply, StreamSegment, Client, ClientSubscription}
use zippylog.Client.Requests.{new_request, no_callbacks}
use zippylog.Client.Renewing.{renew_each, renew_subscriptions, renewal-ignored}
use zippylog.Client.Dispatch.{process_response_message}
use zippylog.Client.Matching.{IsMatched, heading, process_response-IsMatched}
use zippylog.Client.Fetching.{Requests, get_stream}
use zippylog.Client.Fetched.{Advances, IsGot, get_stream-IsGot}

abbrev waiting : Client
waiting = record {
  outstanding = (bytes "id", record (new_request 0) { cb_ping = some 1 }) ∷ [];
  subscriptions = [];
  subscription_renewal_offset = 5000000;
  acts = λ k out. out;
  called = [];
}

abbrev pong : Envelope Reply
pong = record {
  create_time = none;
  message = bytes "" ∷ [];
  message_namespace = 1 ∷ [];
  message_type = 70 ∷ [];
  tag = bytes "id" ∷ [];
  messages = none;
}

abbrev noon : Moment
noon = record { now = 1000; creates = true; sets = true; reads = true }

process_response-IsMatched_example : IsMatched pong (heading pong) waiting (
    process_response_message
      (λ t. some pong)
      (λ t. none)
      (λ ns type t. none)
      noon
      0
      (bytes "e" ∷ [])
      waiting)
process_response-IsMatched_example =
    process_response-IsMatched (λ t. some pong) (λ t. none) (λ ns type t. none) noon 0 (bytes "e")
      [] pong waiting refl

-- A server whose segments have four bytes each.
abbrev four_bytes : ℕ → StreamSegment
four_bytes start_offset = record {
  path = bytes "/acme/web/2011";
  start_offset = start_offset;
  end_offset = start_offset + 4;
  bytes_sent = 4;
  envelopes_sent = 1;
  envelopes = [];
}

abbrev steady : Requests ℕ
steady = record {
  stream_length = λ path n. (done (some 9), n + 1);
  stream_segment = λ path start_offset n. (done (some (four_bytes start_offset)), n + 1);
  store_info = λ n. (done none, n + 1);
}

steady-Advances : Advances steady
unfolding Advances
steady-Advances path start_offset n segment e b =
    subst (λ s. start_offset < s.end_offset)
      (some-injective (four_bytes start_offset) segment (done-injective e)) (omega arith)

get_stream-IsGot_example :
    IsGot steady
      (bytes "/acme/web/2011")
      1
      (get_stream steady 10 (bytes "/acme/web/2011") 1 true 9 0)
get_stream-IsGot_example =
    get_stream-IsGot steady (bytes "/acme/web/2011") 1 9 10 0 steady-Advances (omega arith)
      (omega arith)

abbrev an_envelope : Envelope Request
an_envelope = new_envelope 5

abbrev environment : Environment
environment = record {
  get_stream_max_bytes = 1000;
  get_stream_max_envelopes = 10;
  backend = record {
    bucket_names = [];
    stream_set_names = λ b. [];
    stream_names = λ b s. [];
    stream_length = λ p. none;
    bucket_exists = λ b. false;
    stream_set_exists = λ b s. false;
    stream_exists = λ b s t. false;
  };
  get_input_stream = λ b s t. done none;
  coded = record { read_varint = λ t. none; read_message = λ n t. (none, t) };
  parse_envelope = λ t. some an_envelope;
  parse_message = λ ns type t. some Request.ping;
  serialize = λ r. some (bytes "r");
  enumeration = λ r. 69;
  load_lua = λ t. none;
  clock = λ n. n;
  subscription_request = λ calls s. throws "not supported";
  subscribe_keepalive = λ calls e o. (throws "not supported", o);
  write_envelopes = λ calls path es now. throws "not supported";
}

abbrev idle : Progress
idle = record { output = an_envelope ∷ []; logs = []; calls = []; readings = 0 }

abbrev subscription : ClientSubscription
subscription = record {
  id = bytes "s";
  expiration_timer = new_timer 5000000;
  cb = no_callbacks;
  context = 0;
}

abbrev subscriber : Client
subscriber = record waiting { subscriptions = (bytes "s", subscription) ∷ [] }

renewed : renew_each true (λ id. noon) subscriber.subscriptions ≡ (
  done (bytes "s" ∷ []),
  (bytes "s", record subscription { expiration_timer = (start noon 0 (new_timer 5000000)).1 }) ∷ [],
)
unfolding renew_each start
renewed = refl

renewal-ignored_example :
    let sent =
      renew_subscriptions queue (λ ids. some (bytes "k")) true (λ id. noon) [] subscriber in
    (sent.0 ≡ done true)
    × (sent.1 ≡ [] ++ (1 ∷ bytes "k", false) ∷ [])
    × (u : List Part) × (pump queue environment
          (λ e. none)
          true
          2
          ((bytes "c", true) ∷ (1 ∷ bytes "k", false) ∷ [])
          idle
        ≡ (done make_work_done, u, record idle { output = [] }))
    × (u ≡ [])
renewal-ignored_example =
    renewal-ignored queue (λ ps. ps) queue-IsWired.send_adds queue (λ ps. ps)
      queue-IsWired.recv_takes (λ ids. some (bytes "k")) environment (λ e. none) true (λ id. noon)
      subscriber [] (bytes "s" ∷ []) _ (bytes "k") 0 (bytes "c") []
      ((bytes "c", true) ∷ (1 ∷ bytes "k", false) ∷ []) idle queue-IsOpen renewed refl refl refl
