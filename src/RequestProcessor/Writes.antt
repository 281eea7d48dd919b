-- ===== src/RequestProcessor/Writes.antt =====
-- src/zippylog/request_processor.cpp: `ProcessWriteEnvelope`, and the handlers of plugins.
pub mod Calls
pub mod Handled
use zippylog.Prelude.{
  Bool, true, false, not, ◌&&◌, ◌||◌, Option, none, some, List, [], ◌∷◌, ◌++◌, Text, bytes,
  is_empty, if◌then◌else◌, done,
}
use zippylog.Store.Path.{parse_path}
use zippylog.Envelope.{Envelope}
use zippylog.RequestProcessor.Messages.{
  Request, Response, ErrorCode, Log, WriteRequest, HandlerResult, synchronous_result,
}
use zippylog.RequestProcessor.State.{
  Environment, Process, Call, ◌>>=◌, return, throw, fault, log, answer, refuse, envelope_of,
  populate_error_response, obtain_message, check_path,
}
use zippylog.RequestProcessor.Info.{ResponseStatus, authoritative, deferred, logged}
use zippylog.RequestProcessor.Subscriptions.{value}

module _ (env : Environment) where
  -- The envelopes that parse; each of the others is logged. The constructor refuses an empty buffer
  -- with an exception of another class, which is not caught here.
  unfoldable pub parse_all : List Text → Process (List (Envelope Request))
  parse_all [] = return []
  parse_all ([] ∷ ss) = throw "0 size data buffer"
  parse_all ((c ∷ t) ∷ ss) =
      let s : Text = c ∷ t in
      elim (env.parse_envelope s) [
        | none ↦ (do tt ← log (Log.envelope_parse_failure (some s)); parse_all ss)
        | some e ↦ (do es ← parse_all ss; return (e ∷ es))
      ]

  unfoldable pub ask_write : Text → List (Envelope Request) → Bool → Process HandlerResult
  ask_write path envs synchronous p = (
    env.write_envelopes p.calls path envs synchronous,
    record p { calls = p.calls ++ Call.handle_write_envelopes path envs synchronous ∷ [] },
  )

  -- No envelope, no call: the result is the default one.
  unfoldable pub write_all : Text → List (Envelope Request) → Bool → Process HandlerResult
  unfolding ask_write
  write_all path [] synchronous = return synchronous_result
  write_all path (e ∷ es) synchronous = ask_write path (e ∷ es) synchronous

  unfoldable pub acknowledge_write : HandlerResult → Process Unit
  unfolding envelope_of
  acknowledge_write result =
      if result.have_error
      then throw "not implemented"
      else if not result.is_write
      then throw "return from request processor write envelopes implementation not sane"
      else (do written ← value result.envelopes_written; answer env (Response.write_ack written))

  -- A path to a stream set has to exist, one to a stream has not.
  unfoldable pub check_write_path : Text → Process Bool
  unfolding check_path populate_error_response
  check_write_path path = elim (parse_path path) [
    | none ↦ (do
      tt ← populate_error_response env ErrorCode.invalid_path (bytes "invalid path: " ++ path)
      return false)
    | some r ↦
        if is_empty r.stream
        then (if is_empty r.set
            then (do
              tt ←
                  populate_error_response env ErrorCode.invalid_path
                    (bytes "path not to a stream set or stream: " ++ path)
              return false)
            else check_path env path true true false)
        else return true
  ]

  unfoldable pub write_parsed : WriteRequest → Text → Process Unit
  unfolding parse_all write_all acknowledge_write
  write_parsed m path = do
    envs ← parse_all m.envelope
    result ← write_all path envs m.synchronous
    if (m.acknowledge || m.synchronous) && not result.deferred
        then acknowledge_write result
        else return tt

  unfoldable pub write_request : WriteRequest → Process Unit
  unfolding check_write_path write_parsed populate_error_response
  write_request m = elim m.path [
    | none ↦ refuse env ErrorCode.empty_field "required field 'path' missing" tt
    | some path ↦ (do
      valid ← check_write_path path
      if not valid
          then return tt
          else if is_empty m.envelope
          then refuse env ErrorCode.empty_field "no envelopes specified in request" tt
          else write_parsed m path)
  ]

  -- Authoritative where there is an output.
  abbrev pub status_of_output : Process ResponseStatus
  status_of_output p = (done (if is_empty p.output then deferred else authoritative), p)

  abbrev pub write_obtained : Option Request → Process Unit
  write_obtained none = return tt
  write_obtained (some (Request.write_envelope m)) = write_request m
  write_obtained (some _) = fault

  unfoldable pub process_write_envelope : Envelope Request → Process ResponseStatus
  unfolding write_request obtain_message
  process_write_envelope request =
      logged "WriteEnvelope" (obtain_message env request >>= write_obtained) status_of_output

  unfoldable pub process_register_plugin : Envelope Request → Process ResponseStatus
  unfolding obtain_message
  process_register_plugin request = do
    obtained ← obtain_message env request
    elim obtained [ none ↦ return deferred | some _ ↦ throw "not implemented" ]

  unfoldable pub process_unregister_plugin : Envelope Request → Process ResponseStatus
  process_unregister_plugin request = throw "not implemented"

  unfoldable pub process_plugin_status : Envelope Request → Process ResponseStatus
  process_plugin_status request = throw "not implemented"
