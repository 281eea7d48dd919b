-- ===== src/Client.antt =====
-- src/zippylog/client.cpp: the responses that a `Client` takes, and the callbacks that it calls.
pub mod Messages
pub mod Dispatch
pub mod Synchronous
pub mod Fetching
pub mod Fetched
pub mod Requests
pub mod Renewing
pub mod Waiting
pub mod Keeping
pub mod Answering
pub mod Matching
mod Examples
use Prim.Native.String.{String}
use zippylog.Prelude.{
  ℕ, zero, suc, ◌+◌, ◌-◌, ◌*◌, ◌%◌, ◌^◌, ◌==◌, Bool, true, false, not, ◌||◌, Option, none, some,
  List, [], ◌∷◌, ◌++◌, Text, length, take, drop, is_empty, ltb, if◌then◌else◌, Outcome, done,
  throws, faults,
}
use zippylog.Envelope.{Envelope, get_message, read}
use zippylog.Platform.{Moment, Timer, Timed, new_timer, start}
use zippylog.RequestProcessor.Messages.{Response}
use zippylog.Reactor.Messages.{StoreChange}
use zippylog.Client.Messages.{
  Reply, Callback, StreamSegment, SubscriptionCallbacks, OutstandingRequest, ClientSubscription,
  cast, to_store_info, to_bucket_info, to_stream_set_info, to_stream_info, to_segment_start,
  to_segment_end, to_accept_ack, Told, CallbackCall, Client, find, assign, erase,
}

-- What a function gives, and the client that it leaves, also where it throws.
abbrev pub Handled : Type 0
Handled = Outcome Bool × Client

abbrev pub call : Option Callback → Told → ℕ → Client → Client
call none told context c = c
call (some callback) told context c =
    let k : CallbackCall = record { callback = callback; told = told; context = context } in
    record c { called = c.called ++ k ∷ []; outstanding = c.acts k c.outstanding }

-- `assert(cb)`, and the call.
abbrev pub must_call : Option Callback → Told → ℕ → Client → Handled
must_call none told context c = (faults, c)
must_call (some callback) told context c = (done true, call (some callback) told context c)

abbrev pub then_do :
    {A B : Type 0} → (A → Outcome B × Client) → Client → Outcome A → Outcome B × Client
then_do f c (done a) = f a
then_do f c (throws e) = (throws e, c)
then_do f c faults = (faults, c)

-- Where a part ends with a value, the function goes on.
abbrev pub go_on :
    {A B : Type 0} → (Client → Outcome B × Client) → Outcome A × Client → Outcome B × Client
go_on f (done a, c) = f c
go_on f (throws e, c) = (throws e, c)
go_on f (faults, c) = (faults, c)

-- A null pointer, or a message of another class, is not to be read.
abbrev pub with_message : {A : Type 0} → Option A → (A → Handled) → Client → Handled
with_message none f c = (faults, c)
with_message (some a) f c = f a

-- The subscription of an accepted request. The constructor of its timer leaves the interval as it
-- happens to be, `left`; what `Start` returns is ignored.
abbrev pub subscribed : Text → ℕ → OutstandingRequest → Client → Timed Bool → Handled
subscribed id ttl req c (done b, t) =
    must_call req.cb_subscription (Told.accepted id ttl) req.context (record c {
      subscriptions =
          assign id
            (record { id = id; expiration_timer = t; cb = req.callbacks; context = req.context })
            c.subscriptions;
    })
subscribed id ttl req c (throws e, t) = (throws e, c)
subscribed id ttl req c (faults, t) = (faults, c)

unfoldable pub handle_accepted : Moment → ℕ → Text → ℕ → OutstandingRequest → Client → Handled
unfolding start assign
handle_accepted m left id ack_ttl req c =
    let ttl = ack_ttl * 1000 % 2 ^ 32 in
    if ltb ttl c.subscription_renewal_offset
    then (throws "subscription TTL less than configured time offset", c)
    else subscribed id ack_ttl req c
        (start m (ttl - c.subscription_renewal_offset) (new_timer left))

-- The setters of a segment: the envelopes are added when they are parsed.
abbrev pub segment_of : Text → ℕ → ℕ × ℕ × ℕ → StreamSegment
segment_of path offset last = record {
  path = path;
  start_offset = offset;
  end_offset = last.2;
  bytes_sent = last.1;
  envelopes_sent = last.0;
  envelopes = [];
}

-- `Envelope(msg, 1)` and `Envelope(data, size)`, none where they throw, and the parsing of a message.
module _ (open_protocol open_raw : Text → Option (Envelope Reply))
    (parse : ℕ → ℕ → Text → Option Reply) where
  abbrev pub message_at : ℕ → Envelope Reply → Option Reply
  message_at i e = (get_message parse i e).0

  -- The loop over the payload: none where an envelope throws.
  unfoldable pub open_all : List Text → Option (List (Envelope Reply))
  open_all [] = some []
  open_all (msg ∷ msgs) =
      let rest = open_all msgs in
      elim (open_protocol msg) [
        | none ↦ none
        | some e ↦ elim rest [ none ↦ none | some es ↦ some (e ∷ es) ]
      ]

  -- The messages from the second to the third last, `i < messages.size() - 2` with the number of the
  -- messages a `size_t`: with one message the loop runs out of the vector.
  unfoldable pub payload : List Text → Option (List Text)
  payload messages =
      if ltb (length messages) 2 then none else some (take (length messages - 3) (drop 1 messages))

  abbrev pub last_of : Text → List Text → Text
  last_of a [] = a
  last_of a (b ∷ more) = last_of b more

  abbrev or_zero : Option ℕ → ℕ
  or_zero none = 0
  or_zero (some n) = n

  abbrev pub fetched :
      OutstandingRequest → Client → StreamSegment → Option (List (Envelope Reply)) → Handled
  fetched req c segment none = (throws "envelope of the payload does not parse", c)
  fetched req c segment (some envelopes) =
      must_call req.cb_stream_segment
        (Told.segment segment.path segment.start_offset (record segment { envelopes = envelopes }))
        req.context c

  -- The end of a segment is in its last message, the footer.
  abbrev pub handle_footer :
      List Text → Text → ℕ → OutstandingRequest → Client → Option (Envelope Reply) → Handled
  handle_footer messages path offset req c none =
      (throws "envelope of the footer does not parse", c)
  handle_footer messages path offset req c (some footer) =
      with_message (cast to_segment_end (message_at 0 footer))
        (λ last.
          with_message (payload messages)
            (λ msgs. fetched req c (segment_of path offset last) (open_all msgs)) c)
        c

  unfoldable pub handle_segment :
      Text → List Text → Envelope Reply → OutstandingRequest → Client → Handled
  unfolding open_all payload
  handle_segment first more e req c =
      with_message req.cb_stream_segment
        (λ _.
          with_message (cast to_segment_start (message_at 0 e))
            (λ start_message.
              handle_footer (first ∷ more) start_message.0 (or_zero start_message.1) req c
                (open_protocol (last_of first more)))
            c)
        c

  -- `assert(cb)`, the cast of the first message, and the call.
  abbrev pub respond :
      {A : Type 0}
      → Option Callback
      → (Reply → Option A)
      → (A → Told)
      → Envelope Reply
      → OutstandingRequest
      → Client
      → Handled
  respond cb to told e req c =
      with_message cb
        (λ callback.
          with_message (cast to (message_at 0 e))
            (λ a. (done true, call (some callback) (told a) req.context c)) c)
        c

  -- The `switch` of `HandleRequestResponse`, on the number of the first message.
  unfoldable pub handle_response :
      Moment → ℕ → ℕ → Text → List Text → Envelope Reply → OutstandingRequest → Client → Handled
  unfolding handle_segment handle_accepted
  handle_response m left type first more e req c =
      if type == 70
      then must_call req.cb_ping Told.pong req.context c
      else if type == 96
      then respond req.cb_store_info to_store_info Told.store_info e req c
      else if type == 95
      then respond req.cb_bucket_info to_bucket_info Told.bucket_info e req c
      else if type == 94
      then respond req.cb_stream_set_info to_stream_set_info Told.stream_set_info e req c
      else if type == 93
      then respond req.cb_stream_info to_stream_info Told.stream_info e req c
      else if type == 104
      then handle_segment first more e req c
      else if type == 109
      then with_message (cast to_accept_ack (message_at 0 e))
          (λ ack. handle_accepted m left ack.0 ack.1 req c) c
      else (done false, c)

  -- The request is no longer outstanding from before its response is looked at.
  abbrev pub handle_for :
      Moment
      → ℕ
      → ℕ
      → Text
      → List Text
      → Envelope Reply
      → Text
      → Option OutstandingRequest
      → Client
      → Handled
  handle_for m left type first more e id none c =
      (throws "received a response to an unknown outstanding request", c)
  handle_for m left type first more e id (some req) c =
      handle_response m left type first more e req
        (record c { outstanding = erase id c.outstanding })

  abbrev pub handle_tagged :
      Moment → ℕ → ℕ → Text → List Text → Envelope Reply → List Text → Client → Handled
  handle_tagged m left type first more e [] c =
      (throws "received response with no tag to match to request", c)
  handle_tagged m left type first more e (id ∷ tags) c =
      handle_for m left type first more e id (find id c.outstanding) c

  unfoldable pub handle_request_response :
      Moment → ℕ → ℕ → Text → List Text → Envelope Reply → Client → Handled
  unfolding handle_response find erase
  handle_request_response m left type first more e c =
      handle_tagged m left type first more e e.tag c
