-- ===== src/RequestProcessor/Pump/Examples.antt =====
-- Tests of the model of `Pump` of src/zippylog/request_processor.cpp on concrete inputs, and its theorem at
-- such inputs.
use zippylog.Prelude.{◌≡◌, refl, true, false, none, some, List, [], ◌∷◌, ◌++◌, Text, bytes, done}
use zippylog.Envelope.{
  Envelope, new_envelope, add_tag, add_message, get_message, get_cached, cache_for, fill, parse_at,
}
use zippylog.Store.Path.{parse_path}
use zippylog.Stream.{next_envelope_size, set_absolute_offset, read_envelope}
use zippylog.Device.{make_work_done}
use zippylog.ZeroMq.{last_part, Part, receive_message, receive_more}
use zippylog.ZeroMq.Delivery
use zippylog.ZeroMq.Queue.{queue, queue-IsWired, queue-IsOpen}
use zippylog.RequestProcessor.Messages.{Request}
use zippylog.RequestProcessor.State.{Environment, Progress}
use zippylog.RequestProcessor.Segment.{process_get_stream}
use zippylog.RequestProcessor.Dispatch.{process_messages}
use zippylog.RequestProcessor.Examples.{server, idle, an_envelope, three_envelopes}
use zippylog.RequestProcessor.Pump.{pump}
use zippylog.RequestProcessor.Pump.Twice.{ended, pump-sends_twice}

-- A server with a stream, and a request for a segment of it.
abbrev stream_server : Environment
stream_server = record server {
  get_input_stream = λ b s t. done (some three_envelopes);
  parse_envelope = λ t. some (record (an_envelope t) { message_type = 92 ∷ [] });
  parse_message = λ ns type t. some (
      Request.get_stream_segment (record {
        path = some (bytes "/acme/web/2010");
        start_offset = some 1;
        max_response_bytes = none;
        max_response_envelopes = some 2;
      }));
}

abbrev clients : List Text
clients = bytes "c" ∷ []

abbrev request : Text
request = 1 ∷ bytes "get"

abbrev result : Progress
result = (process_messages stream_server clients (request ∷ []) idle).1

-- The start of the segment, with the tags of the request twice, and its end.
abbrev segment_start : Envelope Request
segment_start = record {
  create_time = some 100;
  message = bytes "r" ∷ [];
  message_namespace = 1 ∷ [];
  message_type = 69 ∷ [];
  tag = bytes "tag" ∷ bytes "tag" ∷ [];
  messages = none;
}

abbrev segment_end : Envelope Request
segment_end = record segment_start { create_time = some 101; tag = [] }

processed : process_messages stream_server clients (request ∷ []) idle ≡ (done tt, result)
unfolding process_messages process_get_stream get_message get_cached cache_for new_envelope fill
    parse_at parse_path next_envelope_size set_absolute_offset read_envelope
processed = refl

answered :
    result.output
    ≡ segment_start ∷ an_envelope (7 ∷ 7 ∷ []) ∷ an_envelope (8 ∷ 8 ∷ 8 ∷ []) ∷ segment_end ∷ []
unfolding process_messages process_get_stream get_message get_cached cache_for new_envelope fill
    parse_at parse_path next_envelope_size set_absolute_offset read_envelope add_tag add_message
answered = refl

abbrev coming : List Part
coming = (bytes "c", true) ∷ ([], true) ∷ (request, false) ∷ []

got :
    receive_message queue 3 (last_part false) coming
    ≡ (some true, record { identities = clients; messages = request ∷ [] }, [])
unfolding receive_message receive_more
got = refl

abbrev payload : Envelope Request → Text
payload e = bytes "e"

abbrev frame : Text
frame = 1 ∷ bytes "e"

pump-sends_twice_example :
    let r = pump queue stream_server (λ e. some (payload e)) true 3 coming idle in
    (r.0 ≡ done make_work_done)
    × (r.1
        ≡ []
          ++ (Delivery.with_more clients
              ++ ([], true) ∷ (frame, true) ∷ ended (frame ∷ frame ∷ frame ∷ frame ∷ [])))
    × (r.2 ≡ result)
pump-sends_twice_example =
    pump-sends_twice queue (λ ps. ps) queue-IsWired queue-IsOpen stream_server
      (λ e. some (payload e)) payload (λ e. refl) 3 coming [] idle result clients (request ∷ [])
      segment_start (an_envelope (7 ∷ 7 ∷ [])) (an_envelope (8 ∷ 8 ∷ 8 ∷ []) ∷ segment_end ∷ []) got
      processed answered

-- Five frames for four envelopes.
five_frames :
    ended (frame ∷ frame ∷ frame ∷ frame ∷ [])
    ≡ (frame, true) ∷ (frame, true) ∷ (frame, true) ∷ (frame, false) ∷ []
unfolding ended
five_frames = refl
