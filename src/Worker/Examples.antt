-- ===== src/Worker/Examples.antt =====
-- The theorem of the model of src/zippylog/device/server_worker.cpp at concrete sockets.
use zippylog.Prelude.{ℕ, ◌≡◌, refl, true, false, none, some, List, [], ◌∷◌, bytes, done, throws}
use zippylog.Platform.{Moment}
use zippylog.RequestProcessor.Messages.{
  SubscriptionInfo, new_subscription, store_change, make_subscription_accepted,
}
use zippylog.RequestProcessor.Record.{
  SubscriptionRecord, store_change_record, to_protocol_buffer, record_type,
}
use zippylog.Manager.Registration.{remove_expired_subscriptions}
use zippylog.ZeroMq.{Part, transfer_message}
use zippylog.ZeroMq.Queue.{queue, queue-IsWired, queue-IsOpen}
use zippylog.Reactor.{StreamReading}
use zippylog.Reactor.Pump.{Events, Reactor, pump}
use zippylog.Worker.{handle_subscription_request}
use zippylog.Worker.Subscribing.{subscribing-loses}

abbrev nothing_read : StreamReading ℕ
nothing_read = record {
  coded = record { read_varint = λ t. none; read_message = λ n t. (none, t) };
  serialize = λ e. none;
  get_input_stream = λ path. done none;
  rounds = 0;
}

abbrev acme : SubscriptionInfo
acme = record new_subscription { type = store_change; paths = bytes "/acme" ∷ [] }

abbrev idle : Reactor (List Part) (List Part)
idle = record {
  manager = record { subscription_ttl = 60000; stream_read_offsets = []; subscriptions = [] };
  subscription_sock = [];
  store_changes_sock = [];
}

abbrev midday : Moment
midday = record { now = 1000; creates = true; sets = true; reads = true }

abbrev subscription_waits : Events
subscription_waits = record { store_changes = false; subscriptions = true; updates = false }

abbrev one_record : SubscriptionRecord
one_record = record {
  type = some store_change_record;
  id = none;
  path = bytes "/acme" ∷ [];
  lua_code = none;
  socket_identifier = [];
  filter_namespace = [];
  filter_enumeration_namespace = [];
  filter_enumeration_type = [];
}

is_recorded : to_protocol_buffer acme ≡ done one_record
unfolding to_protocol_buffer record_type
is_recorded = refl

nothing_expires : remove_expired_subscriptions (λ key. midday) [] ≡ (done 0, [])
unfolding remove_expired_subscriptions
nothing_expires = refl

subscribing-loses_example :
    let handled = handle_subscription_request queue (λ m. some (bytes "r")) (bytes "id") acme [] in
    (handled.0 ≡ done (make_subscription_accepted (bytes "id") 0))
    × ((v : List Part) × (u : List Part) × (transfer_message queue queue 1 handled.1 []
          ≡ (some true, v, u))
        × (let pumped =
              pump nothing_read
                (λ t. none)
                (λ ns type t. none)
                queue
                queue
                8
                (λ key. midday)
                midday
                (some subscription_waits)
                (record idle { subscription_sock = u }) in
            (pumped.0 ≡ throws "didn't receive valid payload on subscriptions sock")
            × (pumped.1.manager.subscriptions ≡ [])))
subscribing-loses_example =
    subscribing-loses nothing_read (λ t. none) (λ ns type t. none) queue queue queue (λ ps. ps)
      (λ ps. ps) queue-IsWired queue-IsWired (λ m. some (bytes "r")) (bytes "id") (bytes "r") acme
      one_record [] idle 7 (λ key. midday) midday subscription_waits 0 [] queue-IsOpen queue-IsOpen
      refl refl is_recorded refl refl refl nothing_expires
