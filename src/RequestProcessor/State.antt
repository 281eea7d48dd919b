-- ===== src/RequestProcessor/State.antt =====
-- src/zippylog/request_processor.cpp: what a `RequestProcessor` works with while it answers one
-- request, `PopulateErrorResponse`, the macros of the file, `CheckPath` and `CheckMessageVersion`.
pub mod Paths
use Prim.Native.String.{String}
use zippylog.Prelude.{
  ℕ, zero, suc, ◌+◌, Bool, true, false, not, ◌&&◌, Option, none, some, List, [], ◌∷◌, ◌++◌, Text,
  bytes, length, ltb, ◌==◌, if◌then◌else◌, Outcome, done, throws, faults,
}
use zippylog.Store.Path.{parse_path}
use zippylog.Store.Backend.{Backend}
use zippylog.Envelope.{Envelope, new_envelope, add_message, get_message}
use zippylog.Stream.{InputStream, CodedInput}
use zippylog.RequestProcessor.Messages.{
  Request, Response, ErrorCode, Log, SubscriptionInfo, HandlerResult,
}

-- A call of the implementation behind the processor.
pub data Call : Type 0 where
  handle_subscription_request : SubscriptionInfo → Call
  handle_subscribe_keepalive : Envelope Request → Call
  handle_write_envelopes : Text → List (Envelope Request) → Bool → Call

-- What the processor reads: its parameters, the store as it stands while the request is answered,
-- the parsing and the serialising of messages, Lua, the clock with what its n-th reading gives, and
-- the implementation, which answers a call by the calls that came before. The keepalive handler is
-- given the output and may change it.
pub record Environment : Type 0 where
  pub get_stream_max_bytes : ℕ
  pub get_stream_max_envelopes : ℕ
  pub backend : Backend
  pub get_input_stream : Text → Text → Text → Outcome (Option InputStream)
  pub coded : CodedInput Request
  pub parse_envelope : Text → Option (Envelope Request)
  pub parse_message : ℕ → ℕ → Text → Option Request
  pub serialize : Response → Option Text
  pub enumeration : Response → ℕ
  pub load_lua : Text → Option Text
  pub clock : ℕ → ℕ
  pub subscription_request : List Call → SubscriptionInfo → Outcome HandlerResult
  pub subscribe_keepalive :
      List Call
      → Envelope Request
      → List (Envelope Request)
      → Outcome HandlerResult × List (Envelope Request)
  pub write_envelopes : List Call → Text → List (Envelope Request) → Bool → Outcome HandlerResult

-- `output` is the vector of response envelopes, `logs` what went to the logger and `calls` the calls
-- of the implementation, each in order; `readings` counts those of the clock for responses.
pub record Progress : Type 0 where
  pub output : List (Envelope Request)
  pub logs : List Log
  pub calls : List Call
  pub readings : ℕ

abbrev pub Result : Type 0 → Type 0
Result A = Outcome A × Progress

-- A part of a handler: an exception keeps what was done before it.
abbrev pub Process : Type 0 → Type 0
Process A = Progress → Result A

abbrev pub return : {A : Type 0} → A → Process A
return a p = (done a, p)

abbrev pub andthen : {A B : Type 0} → (A → Process B) → Result A → Result B
andthen f (done a, p) = f a p
andthen f (throws e, p) = (throws e, p)
andthen f (faults, p) = (faults, p)

infixl 5 ◌>>=◌
abbrev pub ◌>>=◌ : {A B : Type 0} → Process A → (A → Process B) → Process B
(m >>= f) p = andthen f (m p)

abbrev pub throw : {A : Type 0} → String → Process A
throw e p = (throws e, p)

abbrev pub fault : {A : Type 0} → Process A
fault p = (faults, p)

abbrev pub lift : {A : Type 0} → Outcome A → Process A
lift o p = (o, p)

-- `LOG_MESSAGE`, which is taken to return: where 0MQ refuses to send it (the context has ended), it would
-- throw zmq::error_t instead, also out of the handlers of exceptions.
abbrev pub log : Log → Process Unit
log l p = (done tt, record p { logs = p.logs ++ l ∷ [] })

abbrev pub push : Envelope Request → Process Unit
push e p = (done tt, record p { output = p.output ++ e ∷ [] })

abbrev pub record_call : Call → Process Unit
record_call c p = (done tt, record p { calls = p.calls ++ c ∷ [] })

module _ (env : Environment) where
  -- `add_to_envelope` on an envelope that was made before; its result is ignored.
  unfoldable pub add_to_envelope : Response → Envelope Request → Envelope Request
  add_to_envelope r e = (add_message (env.serialize r) 1 (env.enumeration r) e).0

  -- A new envelope with one message.
  unfoldable pub envelope_of : Response → Process (Envelope Request)
  unfolding add_to_envelope
  envelope_of r p = (
    done (add_to_envelope r (new_envelope (env.clock p.readings))),
    record p { readings = p.readings + 1 },
  )

  abbrev pub answer : Response → Process Unit
  answer r = envelope_of r >>= push

  unfoldable pub populate_error_response : ErrorCode → Text → Process Unit
  populate_error_response code message = do
    tt ← log (Log.send_error_response message)
    answer (Response.error code message)

  -- `OBTAIN_MESSAGE`: `none` where the macro jumps to the end.
  unfoldable pub obtain_message : Envelope Request → Process (Option Request)
  unfolding populate_error_response
  obtain_message e = elim (get_message env.parse_message 0 e).0 [
    | some m ↦ return (some m)
    | none ↦ (do
      tt ← log Log.embedded_message_parse_failure
      tt ←
          populate_error_response ErrorCode.unknown_request_type
            (bytes "error parsing message in envelope")
      return none)
  ]

  -- An error response, and the result that the caller is to give.
  abbrev pub refuse : {A : Type 0} → ErrorCode → String → A → Process A
  refuse code message a = do tt ← populate_error_response code (bytes message); return a

  unfoldable pub check_path : Text → Bool → Bool → Bool → Process Bool
  unfolding populate_error_response
  check_path path require_bucket require_set require_stream = elim (parse_path path) [
    | none ↦ refuse ErrorCode.invalid_path "supplied path does not parse" false
    | some r ↦
        if require_bucket && (length r.bucket == 0)
        then refuse ErrorCode.invalid_path "path does not contain a bucket component" false
        else if require_set && (length r.set == 0)
        then refuse ErrorCode.invalid_path "path does not contain a stream set component" false
        else if require_stream && (length r.stream == 0)
        then refuse ErrorCode.invalid_path "path does not contain a stream component" false
        else if require_bucket && not (env.backend.bucket_exists r.bucket)
        then refuse ErrorCode.path_not_found "bucket does not exist" false
        else if require_set && not (env.backend.stream_set_exists r.bucket r.set)
        then refuse ErrorCode.path_not_found "stream set does not exist" false
        else if require_stream && not (env.backend.stream_exists r.bucket r.set r.stream)
        then refuse ErrorCode.path_not_found "stream does not exist" false
        else return true
  ]

  unfoldable pub check_message_version : ℕ → ℕ → Process Bool
  unfolding populate_error_response
  check_message_version seen_version supported_version =
      if not (seen_version == supported_version)
      then refuse ErrorCode.unsupported_operation_message_version
          "the version of the message operation is not supported by the server" false
      else return true
