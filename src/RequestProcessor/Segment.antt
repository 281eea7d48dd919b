-- ===== src/RequestProcessor/Segment.antt =====
-- src/zippylog/request_processor.cpp: `ProcessGetStream`, which sends a segment of a stream.
pub mod Rounds
pub mod Limits
pub mod Fuel
use Prim.Native.String.{String}
use zippylog.Prelude.{
  ℕ, zero, suc, ◌+◌, ◌-◌, ◌^◌, ◌%◌, Bool, true, false, Option, none, some, List, [], ◌∷◌, ◌++◌,
  Text, bytes, ltb, ◌==◌, if◌then◌else◌, Outcome, done, throws,
}
use zippylog.Store.Path.{parse_path}
use zippylog.Envelope.{Envelope, add_tag, get_message}
use zippylog.Stream.{InputStream, next_envelope_size, read_envelope, set_absolute_offset}
use zippylog.RequestProcessor.Messages.{Request, Response, ErrorCode, Log, SegmentRequest}
use zippylog.RequestProcessor.State.{
  Environment, Process, ◌>>=◌, return, throw, fault, lift, log, push, answer, refuse, envelope_of,
  populate_error_response, check_path,
}
use zippylog.RequestProcessor.Info.{ResponseStatus, authoritative, logged}

-- What the loop of `ProcessGetStream` keeps in its variables.
pub record Reading : Type 0 where
  pub stream : InputStream
  pub bytes_left : ℕ
  pub envelopes_left : ℕ
  pub bytes_read : ℕ
  pub envelopes_read : ℕ

-- `uint32` arithmetic.
abbrev pub minus_uint32 : ℕ → ℕ → ℕ
minus_uint32 a b = (a + 2 ^ 32 - b) % 2 ^ 32

abbrev pub plus_uint32 : ℕ → ℕ → ℕ
plus_uint32 a b = (a + b) % 2 ^ 32

-- The server's bound, where the client does not set a lower one.
unfoldable pub lowered : ℕ → Option ℕ → ℕ
lowered bound none = bound
lowered bound (some n) = if ltb n bound then n else bound

-- `AddTag` for each tag of the request.
unfoldable pub add_tags : List Text → Envelope Request → Envelope Request
add_tags [] e = e
add_tags (t ∷ ts) e = add_tags ts (add_tag t e)

module _ (env : Environment) where
  -- The rounds of `while (true)`, on `fuel`: each takes an envelope off the file. The envelopes
  -- that it reads come first in the result.
  unfoldable pub read_more : ℕ → Reading → List (Envelope Request) × Reading
  read_more zero r = ([], r)
  read_more (suc fuel) r =
      let sized = next_envelope_size env.coded r.stream in
      if sized.0 == 0
      then ([], record r { stream = sized.1 })
      else (let got = read_envelope env.coded sized.1 in
          elim got.0 [
            | none ↦ ([], record r { stream = got.1 })
            | some (e, size) ↦
                let counted : Reading = record r {
                  stream = got.1;
                  bytes_read = plus_uint32 r.bytes_read size;
                  envelopes_read = plus_uint32 r.envelopes_read 1;
                } in
                let next : Reading = record counted {
                  envelopes_left = minus_uint32 r.envelopes_left 1;
                  bytes_left = minus_uint32 r.bytes_left size;
                } in
                let rest = read_more fuel next in
                if ltb r.bytes_left size
                then (e ∷ [], counted)
                else if r.envelopes_left == 1
                then (e ∷ [], record counted { envelopes_left = 0 })
                else (e ∷ rest.0, rest.1)
          ])

  -- After the first envelope, of `size` bytes with its prefix. The loop ends after as many rounds as
  -- there are envelopes left, so that is its fuel.
  unfoldable pub read_segment : InputStream → ℕ → ℕ → ℕ → List (Envelope Request) × Reading
  unfolding read_more
  read_segment stream size bytes_left envelopes_left =
      let first : Reading = record {
        stream = stream;
        bytes_left = bytes_left;
        envelopes_left = minus_uint32 envelopes_left 1;
        bytes_read = size;
        envelopes_read = 1;
      } in
      if ltb size bytes_left
      then (if minus_uint32 envelopes_left 1 == 0
          then ([], first)
          else read_more (minus_uint32 envelopes_left 1)
              (record first { bytes_left = minus_uint32 bytes_left size }))
      else ([], first)

  unfoldable pub push_all : List (Envelope Request) → Process Unit
  push_all [] = return tt
  push_all (e ∷ es) = do tt ← push e; push_all es

  -- The body behind the checks: the start message, the envelopes and the end message.
  unfoldable pub send_segment :
      Envelope Request → SegmentRequest → Text → InputStream → Process Unit
  unfolding read_segment push_all envelope_of populate_error_response add_tags lowered
  send_segment request get path stream =
      let sized = next_envelope_size env.coded stream in
      let got = read_envelope env.coded sized.1 in
      let no_envelope : Process Unit = (do
        tt ← log Log.get_invalid_offset
        refuse env ErrorCode.invalid_stream_offset "no envelopes found at requested stream offset"
            tt) in
      if sized.0 == 0 then no_envelope else elim got.0 [
        | none ↦ no_envelope
        | some (e, size) ↦
            let bytes_left = lowered env.get_stream_max_bytes get.max_response_bytes in
            let envelopes_left = lowered env.get_stream_max_envelopes get.max_response_envelopes in
            let segment = read_segment got.1 size bytes_left envelopes_left in
            (do
              start ← envelope_of env (Response.segment_start path get.start_offset)
              tt ← push (add_tags request.tag start)
              tt ← push e
              tt ← push_all segment.0
              answer env (
                  Response.segment_end segment.1.envelopes_read segment.1.bytes_read
                    segment.1.stream.offset))
      ]

  -- `Store::GetInputStream` of a path.
  unfoldable pub input_stream_at : Text → Outcome (Option InputStream)
  input_stream_at path = elim (parse_path path) [
    | none ↦ done none
    | some r ↦ env.get_input_stream r.bucket r.set r.stream
  ]

  unfoldable pub get_segment : Envelope Request → SegmentRequest → Process Unit
  unfolding send_segment input_stream_at check_path populate_error_response
  get_segment request get = elim get.path [
    | none ↦ (do
      tt ← log Log.receive_invalid_get
      refuse env ErrorCode.empty_field "required field 'path' is not set" tt)
    | some path ↦ (do
      valid ← check_path env path true true true
      if valid
          then elim get.start_offset [
            | none ↦ (do
              tt ← log Log.receive_invalid_get
              refuse env ErrorCode.empty_field "required field 'start_offset' is not set" tt)
            | some start_offset ↦ (do
              opened ← lift (input_stream_at path)
              elim opened [
                | none ↦ (do
                  tt ← log Log.get_invalid_stream
                  refuse env ErrorCode.path_not_found "requested stream could not be found" tt)
                | some stream ↦
                    send_segment request get path (
                      if start_offset == 0 then stream else set_absolute_offset start_offset stream)
              ])
          ]
          else return tt)
  ]

  unfoldable pub process_get_stream : Envelope Request → Process ResponseStatus
  unfolding get_segment populate_error_response
  process_get_stream request =
      logged "GetStream"
        (elim (get_message env.parse_message 0 request).0 [
          | none ↦ (do
            tt ← log Log.receive_invalid_get
            refuse env ErrorCode.unknown_request_type "error parsing get message... weird" tt)
          | some (Request.get_stream_segment get) ↦ get_segment request get
          | some _ ↦ fault
        ])
        (return authoritative)
