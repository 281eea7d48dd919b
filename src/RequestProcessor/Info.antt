-- ===== src/RequestProcessor/Info.antt =====
-- src/zippylog/request_processor.cpp: the handlers that describe the server and its store.
use Prim.Native.String.{String}
use zippylog.Prelude.{
  ◌+◌, true, false, Option, none, some, [], ◌∷◌, Text, bytes, if◌then◌else◌, done,
}
use zippylog.Store.Path.{root_path, parse_path, parse_bucket_path, parse_stream_set_path}
use zippylog.Store.Contents
use zippylog.Envelope.{Envelope, new_envelope}
use zippylog.RequestProcessor.Messages.{Request, Response, ErrorCode, Log, Features}
use zippylog.RequestProcessor.State.{
  Environment, Process, ◌>>=◌, return, fault, log, push, answer, refuse, envelope_of,
  add_to_envelope, populate_error_response, obtain_message, check_path,
}

pub data ResponseStatus : Type 0 where
  authoritative : ResponseStatus
  deferred : ResponseStatus

-- What stands between the two log messages that most handlers write; an exception skips the second.
abbrev pub logged : {A : Type 0} → String → Process Unit → Process A → Process A
logged name body rest = do
  tt ← log (Log.begin_process name)
  tt ← body
  tt ← log (Log.end_process name)
  rest

module _ (env : Environment) where
  unfoldable pub process_ping : Envelope Request → Process ResponseStatus
  unfolding envelope_of
  process_ping e = do tt ← answer env Response.pong; return authoritative

  unfoldable pub feature_specification : Features
  feature_specification = record {
    supported_message_formats = 1 ∷ [];
    supported_request_types = 91 ∷ 72 ∷ 73 ∷ 74 ∷ 75 ∷ 76 ∷ 92 ∷ 78 ∷ 79 ∷ 80 ∷ 81 ∷ 82 ∷ 83 ∷ [];
    supported_request_names =
        bytes "PingV1"
        ∷ bytes "GetFeaturesV1"
        ∷ bytes "GetStoreInfoV1"
        ∷ bytes "GetBucketInfoV1"
        ∷ bytes "GetStreamSetInfoV1"
        ∷ bytes "GetStreamInfoV1"
        ∷ bytes "GetStreamSegmentV1"
        ∷ bytes "WriteEnvelopeV1"
        ∷ bytes "WriteEnvelopeFromMessagesV1"
        ∷ bytes "SubscribeStoreChangesV1"
        ∷ bytes "SubscribeEnvelopesV1"
        ∷ bytes "SubscribeKeepaliveV1"
        ∷ bytes "SubscribeCancelV1"
        ∷ [];
    max_stream_segment_bytes = env.get_stream_max_bytes;
    max_stream_segment_envelopes = env.get_stream_max_envelopes;
  }

  unfoldable pub process_features : Envelope Request → Process ResponseStatus
  unfolding envelope_of feature_specification
  process_features e = do
    tt ← answer env (Response.features feature_specification)
    return authoritative

  unfoldable pub process_store_info : Envelope Request → Process ResponseStatus
  unfolding envelope_of obtain_message
  process_store_info e =
      logged "StoreInfo"
        (do
          obtained ← obtain_message env e
          elim obtained [
            | none ↦ return tt
            | some m ↦ answer env (Response.store_info (Contents.store_info env.backend))
          ])
        (return authoritative)

  -- The handlers of a path have the field checked in front of the path.
  abbrev pub with_path : Option Text → (Text → Process Unit) → Process Unit
  with_path none f = refuse env ErrorCode.empty_field "required field 'path' missing" tt
  with_path (some path) f = f path

  -- The message that answers is made in the envelope that the handler made before all else.
  abbrev pub answer_in : Envelope Request → Response → Process Unit
  answer_in response r = push (add_to_envelope env r response)

  -- `Envelope response` at the head of a handler.
  abbrev pub fresh_envelope : Process (Envelope Request)
  fresh_envelope p =
      (done (new_envelope (env.clock p.readings)), record p { readings = p.readings + 1 })

  abbrev pub out_param : {A : Type 0} → A → Option A → A
  out_param initial none = initial
  out_param initial (some a) = a

  unfoldable pub process_bucket_info : Envelope Request → Process ResponseStatus
  unfolding obtain_message check_path populate_error_response add_to_envelope
  process_bucket_info e =
      logged "BucketInfo"
        (do
          response ← fresh_envelope
          obtained ← obtain_message env e
          elim obtained [
            | none ↦ return tt
            | some (Request.get_bucket_info path) ↦ with_path path λ path. do
              valid ← check_path env path true false false
              let bucket = out_param [] (parse_bucket_path path)
              if valid
                  then answer_in response
                      (Response.bucket_info (Contents.bucket_info env.backend bucket))
                  else return tt
            | some _ ↦ fault
          ])
        (return authoritative)

  unfoldable pub process_stream_set_info : Envelope Request → Process ResponseStatus
  unfolding obtain_message check_path populate_error_response add_to_envelope
  process_stream_set_info e =
      logged "StreamSetInfo"
        (do
          response ← fresh_envelope
          obtained ← obtain_message env e
          elim obtained [
            | none ↦ return tt
            | some (Request.get_stream_set_info path) ↦ with_path path λ path. do
              valid ← check_path env path true true false
              let names = out_param ([], []) (parse_stream_set_path path)
              if valid
                  then answer_in response (
                      Response.stream_set_info
                        (Contents.streamset_info env.backend names.0 names.1))
                  else return tt
            | some _ ↦ fault
          ])
        (return authoritative)

  unfoldable pub process_stream_info : Envelope Request → Process ResponseStatus
  unfolding obtain_message check_path populate_error_response add_to_envelope
  process_stream_info e =
      logged "StreamInfo"
        (do
          response ← fresh_envelope
          obtained ← obtain_message env e
          elim obtained [
            | none ↦ return tt
            | some (Request.get_stream_info path) ↦ with_path path λ path. do
              valid ← check_path env path true true true
              let r = out_param root_path (parse_path path)
              if valid
                  then answer_in response (
                      Response.stream_info
                        (Contents.stream_info env.backend r.bucket r.set r.stream).0)
                  else return tt
            | some _ ↦ fault
          ])
        (return authoritative)
