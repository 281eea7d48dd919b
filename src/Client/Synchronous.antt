-- ===== src/Client/Synchronous.antt =====
-- src/zippylog/client.cpp: the requests that wait for their answer, with the callbacks of the client that
-- keep it. They are made with a timeout of -1.
use zippylog.Prelude.{
  ℕ, ◌+◌, ◌==◌, Bool, true, false, ◌&&◌, Option, none, some, List, [], ◌∷◌, Text, if◌then◌else◌,
  Outcome, done, throws, faults,
}
use zippylog.Envelope.{Envelope}
use zippylog.Store.Contents.{StoreInfo}
use zippylog.Platform.{Moment}
use zippylog.RequestProcessor.Messages.{Request}
use zippylog.ZeroMq.{Socket}
use zippylog.Client.Messages.{
  Reply, Callback, StreamSegment, OutstandingRequest, Told, CallbackCall, Client,
}
use zippylog.Client.Requests.{Sending, new_request}
use zippylog.Client.Waiting.{send_and_process}
use zippylog.Client.Fetching.{Requests}

-- What comes from outside while the n-th request waits: bounds on the frames of a message and on the
-- rounds, the moment when its timer starts and those of the rounds, what `poll` tells in them, the interval
-- that a timer happens to have, and the identifier. The place where the answer goes holds what it
-- happened to hold, `raw`. The callbacks are those of the client.
pub record Outside : Type 0 where
  pub frames : ℕ → ℕ
  pub rounds : ℕ → ℕ
  pub start_at : ℕ → Moment
  pub round_at : ℕ → ℕ → Moment
  pub polls : ℕ → ℕ → Bool
  pub left : ℕ → ℕ
  pub id : ℕ → Text
  pub raw_segment : ℕ → StreamSegment
  pub callback_segment : Callback
  pub callback_stream_info : Callback
  pub callback_store_info : Callback

-- The socket, the client, and the number of the next request, which stands for the place of its answer.
pub record World (S : Type 0) : Type 0 where
  pub socket_state : S
  pub client : Client
  pub next : ℕ

abbrev pub is_for : Callback → ℕ → CallbackCall → Bool
is_for callback context k = (k.callback == callback) && (k.context == context)

-- `CallbackStreamSegment`, which copies the segment, `CallbackStreamInfo`, of which the length is read, 0 by
-- default, and `CallbackStoreInfo`: what the calls of them leave in the place of the answer.
abbrev pub copy_segment : Told → StreamSegment → StreamSegment
copy_segment (Told.segment path offset segment) s = segment
copy_segment _ s = s

unfoldable pub kept_segment : Callback → ℕ → List CallbackCall → StreamSegment → StreamSegment
kept_segment callback context [] s = s
kept_segment callback context (k ∷ ks) s =
    kept_segment callback context ks
      (if is_for callback context k then copy_segment k.told s else s)

abbrev pub copy_length : Told → ℕ → ℕ
copy_length (Told.stream_info info) n = elim info.length [ none ↦ 0 | some m ↦ m ]
copy_length _ n = n

unfoldable pub kept_length : Callback → ℕ → List CallbackCall → ℕ → ℕ
kept_length callback context [] n = n
kept_length callback context (k ∷ ks) n =
    kept_length callback context ks (if is_for callback context k then copy_length k.told n else n)

abbrev pub copy_store_info : Told → StoreInfo → StoreInfo
copy_store_info (Told.store_info info) i = info
copy_store_info _ i = i

unfoldable pub kept_store_info : Callback → ℕ → List CallbackCall → StoreInfo → StoreInfo
kept_store_info callback context [] i = i
kept_store_info callback context (k ∷ ks) i =
    kept_store_info callback context ks
      (if is_for callback context k then copy_store_info k.told i else i)

module _ {S : Type 0} (socket : Socket S) (serialize : Request → Text → Option Text)
    (open_protocol open_raw : Text → Option (Envelope Reply)) (parse : ℕ → ℕ → Text → Option Reply)
    (outside : Outside) where
  abbrev pub waited_for : Request → OutstandingRequest → World S → Sending S
  waited_for request r w =
      let n = w.next in
      send_and_process socket serialize open_protocol open_raw parse (outside.frames n)
        (outside.rounds n) (outside.start_at n) (outside.round_at n) (outside.polls n)
        (outside.left n) none (outside.id n) request r w.socket_state w.client

  -- The answer, where the request gives true, with what the request leaves.
  abbrev pub answered :
      {A : Type 0} → (List CallbackCall → A) → ℕ → Sending S → Outcome (Option A) × World S
  answered kept n (done true, s, c) =
      (done (some (kept c.called)), record { socket_state = s; client = c; next = n + 1 })
  answered kept n (done false, s, c) =
      (done none, record { socket_state = s; client = c; next = n + 1 })
  answered kept n (throws e, s, c) =
      (throws e, record { socket_state = s; client = c; next = n + 1 })
  answered kept n (faults, s, c) = (faults, record { socket_state = s; client = c; next = n + 1 })

  unfoldable pub synchronous_segment : Text → ℕ → World S → Outcome (Option StreamSegment) × World S
  unfolding send_and_process kept_segment
  synchronous_segment path start_offset w =
      let n = w.next in
      answered (λ called. kept_segment outside.callback_segment n called (outside.raw_segment n)) n
        (waited_for
          (Request.get_stream_segment (record {
            path = some path;
            start_offset = some start_offset;
            max_response_bytes = none;
            max_response_envelopes = none;
          }))
          (record (new_request n) { cb_stream_segment = some outside.callback_segment }) w)

  unfoldable pub synchronous_length : Text → World S → Outcome (Option ℕ) × World S
  unfolding send_and_process kept_length
  synchronous_length path w =
      let n = w.next in
      answered (λ called. kept_length outside.callback_stream_info n called 0) n
        (waited_for (Request.get_stream_info (some path))
          (record (new_request n) { cb_stream_info = some outside.callback_stream_info }) w)

  unfoldable pub synchronous_store_info : World S → Outcome (Option StoreInfo) × World S
  unfolding send_and_process kept_store_info
  synchronous_store_info w =
      let n = w.next in
      answered
        (λ called. kept_store_info outside.callback_store_info n called (record { buckets = [] })) n
        (waited_for Request.get_store_info
          (record (new_request n) { cb_store_info = some outside.callback_store_info }) w)

  -- The requests that `GetStream` and `Mirror` make.
  unfoldable pub client_requests : Requests (World S)
  unfolding synchronous_segment synchronous_length synchronous_store_info
  client_requests = record {
    stream_length = synchronous_length;
    stream_segment = synchronous_segment;
    store_info = synchronous_store_info;
  }
