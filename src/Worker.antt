-- ===== src/Worker.antt =====
-- src/zippylog/device/server_worker.cpp: `ServerRequestProcessor`, the implementation behind the request
-- processor of a server.
pub mod Subscribing
mod Examples
use Prim.Native.String.{String}
use zippylog.Prelude.{
  ℕ, Bool, true, false, Option, none, some, List, Text, Outcome, done, throws, faults,
}
use zippylog.Envelope.{Envelope}
use zippylog.RequestProcessor.Messages.{
  Request, SubscriptionInfo, HandlerResult, make_deferred, make_subscription_accepted,
}
use zippylog.RequestProcessor.Record.{SubscriptionRecord, to_protocol_buffer}
use zippylog.ZeroMq.{last_part, Sent, Socket, is_nonzero, send_envelope}

abbrev pub accepted : {S : Type 0} → Text → Sent × S → Outcome HandlerResult × S
accepted id (sent, s) = elim (is_nonzero sent) [
  | true ↦ (done (make_subscription_accepted id 0), s)
  | false ↦ (throws "unhandled error", s)
]

abbrev pub with_id : Text → SubscriptionRecord → SubscriptionRecord
with_id id m = record m { id = some id }

module _ {S : Type 0} (socket : Socket S) where
  -- The socket of the updates of subscriptions; what sending returns is ignored.
  unfoldable pub handle_subscribe_keepalive : Option Text → S → Outcome HandlerResult × S
  unfolding send_envelope make_deferred
  handle_subscribe_keepalive request s =
      (done make_deferred, (send_envelope socket request false (last_part false) s).1)

  -- `serialize` makes the bytes of an envelope with the record in it.
  abbrev pub send_record :
      (SubscriptionRecord → Option Text)
      → Text
      → S
      → Outcome SubscriptionRecord
      → Outcome HandlerResult × S
  send_record serialize id s (done m) =
      accepted id (send_envelope socket (serialize (with_id id m)) false (last_part false) s)
  send_record serialize id s (throws e) = (throws e, s)
  send_record serialize id s faults = (faults, s)

  -- The socket of the subscriptions. `id` is what `CreateUUID` gives.
  unfoldable pub handle_subscription_request :
      (SubscriptionRecord → Option Text) → Text → SubscriptionInfo → S → Outcome HandlerResult × S
  unfolding to_protocol_buffer send_envelope make_subscription_accepted
  handle_subscription_request serialize id subscription s =
      send_record serialize id s (to_protocol_buffer subscription)

unfoldable pub handle_write_envelopes :
    Text → List (Envelope Request) → Bool → Outcome HandlerResult
handle_write_envelopes path to_write synchronous =
    throws "TODO implement Worker::HandleWriteEnvelopes"
