-- ===== src/RequestProcessor/Dispatch.antt =====
-- src/zippylog/request_processor.cpp: `ProcessRequest`, `ProcessMessages` and what `Pump` sends.
pub mod Answers
pub mod Lua
use zippylog.Prelude.{
  ℕ, zero, suc, ◌+◌, Bool, true, false, not, ◌||◌, Option, none, some, List, [], ◌∷◌, ◌++◌, Text,
  bytes, drop, length, get_elem?, is_empty, ltb, ◌==◌, if◌then◌else◌, Outcome, done, throws, faults,
}
use zippylog.Envelope.{Envelope}
use zippylog.RequestProcessor.Messages.{Request, ErrorCode, Log}
use zippylog.RequestProcessor.State.{
  Environment, Progress, Result, Process, ◌>>=◌, return, fault, log, refuse,
  populate_error_response,
}
use zippylog.RequestProcessor.Info.{
  ResponseStatus, authoritative, deferred, process_ping, process_features, process_store_info,
  process_bucket_info, process_stream_set_info, process_stream_info,
}
use zippylog.RequestProcessor.Segment.{add_tags, process_get_stream}
use zippylog.RequestProcessor.Subscriptions.{
  process_subscribe_store_changes, process_subscribe_envelopes, process_subscribe_keepalive,
  process_subscribe_cancel,
}
use zippylog.RequestProcessor.Writes.{
  process_write_envelope, process_register_plugin, process_unregister_plugin, process_plugin_status,
}

-- The tags of the request on the first response.
unfoldable pub tag_first : List Text → List (Envelope Request) → List (Envelope Request)
tag_first tags [] = []
tag_first tags (e ∷ es) = add_tags tags e ∷ es

module _ (env : Environment) where
  -- The `switch` of `ProcessRequest`, over the numbers that the messages have.
  unfoldable pub handle : List Text → ℕ → Envelope Request → Process ResponseStatus
  unfolding populate_error_response
  handle identities type request =
      if type == 91
      then process_ping env request
      else if type == 72
      then process_features env request
      else if type == 73
      then process_store_info env request
      else if type == 74
      then process_bucket_info env request
      else if type == 75
      then process_stream_set_info env request
      else if type == 76
      then process_stream_info env request
      else if type == 92
      then process_get_stream env request
      else if type == 80
      then process_subscribe_store_changes env identities request
      else if type == 81
      then process_subscribe_envelopes env identities request
      else if type == 82
      then process_subscribe_keepalive env request
      else if type == 83
      then process_subscribe_cancel env request
      else if type == 78
      then process_write_envelope env request
      else if type == 111
      then process_register_plugin env request
      else if type == 112
      then process_unregister_plugin env request
      else if type == 116
      then process_plugin_status env request
      else (do
        tt ← log (Log.unknown_request_type type)
        refuse env ErrorCode.unknown_request_type "server does not know how to process the request"
            authoritative)

  -- What stands in front of the `switch`.
  unfoldable pub dispatch : List Text → Envelope Request → Process ResponseStatus
  unfolding handle populate_error_response
  dispatch identities request =
      if is_empty request.message
      then (do
        tt ← log Log.empty_envelope
        refuse env ErrorCode.empty_envelope "envelope contains no messages" authoritative)
      else elim request.message_namespace [
        | [] ↦ (do
          tt ← log Log.invalid_message_enumeration
          refuse env ErrorCode.missing_enumerations
              "message received without namespace or type enumerations" authoritative)
        | ns ∷ _ ↦ elim request.message_type [
          | [] ↦ (do
            tt ← log Log.invalid_message_enumeration
            refuse env ErrorCode.missing_enumerations
                "message received without namespace or type enumerations" authoritative)
          | type ∷ _ ↦
              if not (ns == 1)
              then (do
                tt ← log Log.invalid_message_enumeration
                refuse env ErrorCode.invalid_message_namespace "message namespace is not zippylog's"
                    authoritative)
              else handle identities type request
        ]
      ]

  -- `SEND_RESPONSE`: an authoritative result has to come with an output.
  unfoldable pub send_response : List Text → ResponseStatus → Process ResponseStatus
  unfolding tag_first
  send_response tags deferred p = (done deferred, p)
  send_response tags authoritative p =
      if is_empty p.output
      then (faults, p)
      else (done authoritative, record p { output = tag_first tags p.output })

  unfoldable pub process_request : List Text → Envelope Request → Process ResponseStatus
  unfolding dispatch send_response
  process_request identities request = do
    status ← dispatch identities request
    send_response request.tag status

  -- `catch ( ... )` around `ProcessRequest`, and `CREATE_OUTPUT`. A failed assertion is no exception.
  unfoldable pub catch_all : List Text → Result ResponseStatus → Result Unit
  unfolding populate_error_response tag_first
  catch_all tags (done deferred, p) = (done tt, p)
  catch_all tags (done authoritative, p) = if is_empty p.output then (faults, p) else (done tt, p)
  catch_all tags (throws e, p) =
      let reported =
        (populate_error_response env ErrorCode.general_error_processing
          (bytes "exception when processing request") p).1 in
      (done tt, record reported { output = tag_first tags reported.output })
  catch_all tags (faults, p) = (faults, p)

  -- `Envelope(*initial, 1)`: none where it throws.
  unfoldable pub request_envelope : Text → Option (Envelope Request)
  request_envelope initial =
      if ltb 2 (length initial) then env.parse_envelope (drop 1 initial) else none

  unfoldable pub process_initial : List Text → Text → Process Unit
  unfolding request_envelope process_request catch_all populate_error_response
  process_initial identities [] = do
    tt ← log Log.receive_empty_message
    refuse env ErrorCode.empty_message "empty 0MQ message received" tt
  process_initial identities (version ∷ data_) =
      if not (version == 1)
      then (do
        tt ← log Log.unknown_message_version
        refuse env ErrorCode.unknown_message_format_version
            "protocol message version not understood. server only supports version 1" tt)
      else if is_empty data_
      then refuse env ErrorCode.protocol_no_envelope
          "protocol version 1 0MQ message received without an envelope" tt
      else elim (request_envelope (version ∷ data_)) [
        | none ↦ (do
          tt ← log (Log.envelope_parse_failure none)
          refuse env ErrorCode.envelope_parse_failure "error parsing envelope" tt)
        | some request ↦ (λ p. catch_all request.tag (process_request identities request p))
      ]

  -- The messages of the container behind its identities; only the first is looked at.
  unfoldable pub process_messages : List Text → List Text → Process Unit
  unfolding process_initial
  process_messages identities [] p = (done tt, record p { output = [] })
  process_messages identities (initial ∷ _) p =
      process_initial identities initial (record p { output = [] })

-- The frames that `Pump` sends, each with whether more follow: the first envelope, and then the loop
-- over all of them, since `begin()++` gives the place before the step.
abbrev pub with_more : List (Envelope Request) → List (Envelope Request × Bool)
with_more [] = []
with_more (e ∷ []) = (e, false) ∷ []
with_more (e ∷ e' ∷ es) = (e, true) ∷ with_more (e' ∷ es)

unfoldable pub sent : List (Envelope Request) → List (Envelope Request × Bool)
sent [] = []
sent (e ∷ []) = (e, false) ∷ []
sent (e ∷ e' ∷ es) = (e, true) ∷ with_more (e ∷ e' ∷ es)
