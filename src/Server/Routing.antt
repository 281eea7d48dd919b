-- ===== src/Server/Routing.antt =====
-- src/zippylog/device/server.cpp, `Pump`: which message is passed on, and where it goes.
use zippylog.Prelude.{
  ℕ, ◌≤◌, ◌<◌, arith, ◌≡◌, refl, ap, ◌∙◌, Bool, true, false, Option, List, ◌++◌, length, Outcome,
  done,
}
use zippylog.Device.{PumpResult, make_work_done}
use zippylog.Platform.{Moment, Timer, is_signaled}
use zippylog.ZeroMq.{Part, Socket, transfer_message}
use zippylog.ZeroMq.Transfer.{IsMessage, IsOpen, Takes, Adds, transfer-enough}
use zippylog.Server.{
  send_client_message, receive_client_message, passed_on, Sockets, Source, logger, workers,
  streaming, worker_subscriptions, store_changes_input, worker_streaming_notify, clients, Server,
  Serving, log, flush_if_due, check_if_due, process_sockets, pump,
}

-- The precedence of the sockets: the log first, then what leaves the server, and requests last.
unfoldable pub rank : Source → ℕ
rank logger = 0
rank workers = 1
rank streaming = 2
rank worker_subscriptions = 3
rank store_changes_input = 4
rank worker_streaming_notify = 5
rank clients = 6

-- The socket that is read, and the one to which its messages go; the log goes to the store.
unfoldable pub source_of : {S : Type 0} → Source → Sockets S → S
source_of logger s = s.logger
source_of workers s = s.workers
source_of streaming s = s.streaming
source_of worker_subscriptions s = s.worker_subscriptions
source_of store_changes_input s = s.store_changes_input
source_of worker_streaming_notify s = s.worker_streaming_notify
source_of clients s = s.clients

unfoldable pub target_of : {S : Type 0} → Source → Sockets S → S
target_of logger s = s.logger
target_of workers s = s.clients
target_of streaming s = s.clients
target_of worker_subscriptions s = s.streaming_subscriptions
target_of store_changes_input s = s.store_changes_output
target_of worker_streaming_notify s = s.streaming_streaming_notify
target_of clients s = s.workers

-- What a call leaves that passes a message on from a source: what still waits there, what is under way
-- behind it, and the rest.
pub record Moved {S Disk : Type 0} (coming going : S → List Part) (source : Source)
    (ps rest : List Part) (s after : Server S Disk) : Type 0 where
  pub left : coming (source_of source after.sockets) ≡ rest
  pub sent : going (target_of source after.sockets) ≡ going (target_of source s.sockets) ++ ps
  pub devices : after.devices ≡ s.devices
  pub outputs : after.outputs ≡ s.outputs

module _ {S Disk : Type 0} (socket : Socket S) (serving : Serving Disk)
    (coming going : S → List Part) (takes : Takes socket coming) (adds : Adds socket going)
    (takes_all : IsOpen socket) where
  -- Where no timer is due.
  quiet :
      (m n : Moment) (t u : Timer) (s : Server S Disk)
      → is_signaled m s.stream_flush_timer ≡ (done false, t)
      → is_signaled n s.thread_check_timer ≡ (done false, u)
      → pump socket serving m n s
        ≡ process_sockets socket serving false
            (record s { stream_flush_timer = t; thread_check_timer = u })
  unfolding pump flush_if_due check_if_due
  quiet m n t u s h k = rw (h, pump) (rw (k, check_if_due) refl)

  -- The sockets behind a message passed on, with what is logged then.
  put_of : Source → Sockets S → S → S → Sockets S
  put_of logger k r t = k
  put_of workers k r t = record k { workers = r; clients = t }
  put_of streaming k r t = record k { streaming = r; clients = t }
  put_of worker_subscriptions k r t = record k {
    worker_subscriptions = r;
    streaming_subscriptions = t;
  }
  put_of store_changes_input k r t = record k { store_changes_input = r; store_changes_output = t }
  put_of worker_streaming_notify k r t = record k {
    worker_streaming_notify = r;
    streaming_streaming_notify = t;
  }
  put_of clients k r t = record k { clients = r; workers = t }

  logged_of : Source → Sockets S → Sockets S
  logged_of workers k = log socket serving send_client_message k
  logged_of streaming k = log socket serving send_client_message k
  logged_of clients k = log socket serving receive_client_message k
  logged_of _ k = k

  put-source :
      (source : Source) (k : Sockets S) (r t : S)
      → 0 < rank source
      → source_of source (logged_of source (put_of source k r t)) ≡ r
  unfolding source_of put_of logged_of rank log
  put-source logger k r t z = absurd (omega (arith, z))
  put-source workers k r t z = refl
  put-source streaming k r t z = refl
  put-source worker_subscriptions k r t z = refl
  put-source store_changes_input k r t z = refl
  put-source worker_streaming_notify k r t z = refl
  put-source clients k r t z = refl

  put-target :
      (source : Source) (k : Sockets S) (r t : S)
      → 0 < rank source
      → target_of source (logged_of source (put_of source k r t)) ≡ t
  unfolding target_of put_of logged_of rank log
  put-target logger k r t z = absurd (omega (arith, z))
  put-target workers k r t z = refl
  put-target streaming k r t z = refl
  put-target worker_subscriptions k r t z = refl
  put-target store_changes_input k r t z = refl
  put-target worker_streaming_notify k r t z = refl
  put-target clients k r t z = refl

  abbrev passing :
      Source → Server S Disk → Option Bool × S × S → Outcome (PumpResult × Server S Disk)
  passing source s moved =
      passed_on socket serving false (put_of source s.sockets) (logged_of source) moved s

  chosen :
      (source : Source) (s : Server S Disk)
      → 0 < rank source
      → serving.polled source ≡ true
      → ((other : Source) → rank other < rank source → serving.polled other ≡ false)
      → process_sockets socket serving false s
        ≡ passing source s (
            transfer_message socket socket serving.rounds
              (source_of source s.sockets)
              (target_of source s.sockets))
  unfolding rank source_of target_of put_of logged_of process_sockets
  chosen logger s z e h = absurd (omega (arith, z))
  chosen workers s z e h = rw (h logger (omega arith), e, process_sockets) refl
  chosen streaming s z e h =
      rw (h logger (omega arith), h workers (omega arith), e, process_sockets) refl
  chosen worker_subscriptions s z e h =
      rw
        (
          h logger (omega arith),
          h workers (omega arith),
          h streaming (omega arith),
          e,
          process_sockets,
        )
        refl
  chosen store_changes_input s z e h =
      rw
        (
          h logger (omega arith),
          h workers (omega arith),
          h streaming (omega arith),
          h worker_subscriptions (omega arith),
          e,
          process_sockets,
        )
        refl
  chosen worker_streaming_notify s z e h =
      rw
        (
          h logger (omega arith),
          h workers (omega arith),
          h streaming (omega arith),
          h worker_subscriptions (omega arith),
          h store_changes_input (omega arith),
          e,
          process_sockets,
        )
        refl
  chosen clients s z e h =
      rw
        (
          h logger (omega arith),
          h workers (omega arith),
          h streaming (omega arith),
          h worker_subscriptions (omega arith),
          h store_changes_input (omega arith),
          h worker_streaming_notify (omega arith),
          e,
          process_sockets,
        )
        refl

  routed :
      (source : Source) {ps : List Part} (message : IsMessage ps) (rest : List Part)
      (s : Server S Disk)
      → 0 < rank source
      → length ps ≤ serving.rounds
      → serving.polled source ≡ true
      → ((other : Source) → rank other < rank source → serving.polled other ≡ false)
      → coming (source_of source s.sockets) ≡ ps ++ rest
      → (after : Server S Disk) × (process_sockets socket serving false s
          ≡ done (make_work_done, after))
        × Moved coming going source ps rest s after
  routed source message rest s z f e h c =
      (let k = s.sockets in
        let moved =
          transfer-enough socket socket coming going takes adds serving.rounds message rest
            (source_of source k) (target_of source k) f takes_all c in
        let kept = logged_of source (put_of source k moved.0 moved.1) in
        (
          record s { sockets = kept },
          chosen source s z e h ∙ ap (passing source s) moved.2,
          record {
            left = ap coming (put-source source k moved.0 moved.1 z) ∙ moved.3;
            sent = ap going (put-target source k moved.0 moved.1 z) ∙ moved.4;
            devices = refl;
            outputs = refl;
          },
        ))

  -- Where no timer is due, and the first socket in the order of precedence that has something is not
  -- the logger's, the call moves the whole message that waits first there, of any number of frames
  -- that is within the bound on rounds: it leaves that socket and comes behind what is under way from
  -- the socket that the source is joined to. The call does so without an error, and neither stops a device
  -- nor writes to the store. Sockets take every frame.
  pub pump-routes :
      (source : Source) {ps : List Part} (message : IsMessage ps) (rest : List Part) (m n : Moment)
      (t u : Timer) (s : Server S Disk)
      → is_signaled m s.stream_flush_timer ≡ (done false, t)
      → is_signaled n s.thread_check_timer ≡ (done false, u)
      → 0 < rank source
      → length ps ≤ serving.rounds
      → serving.polled source ≡ true
      → ((other : Source) → rank other < rank source → serving.polled other ≡ false)
      → coming (source_of source s.sockets) ≡ ps ++ rest
      → (after : Server S Disk) × (pump socket serving m n s ≡ done (make_work_done, after))
        × Moved coming going source ps rest s after
  pump-routes source message rest m n t u s a b z f e h c =
      (let s' = record s { stream_flush_timer = t; thread_check_timer = u } in
        let r = routed source message rest s' z f e h c in
        (
          r.0,
          quiet m n t u s a b ∙ r.1,
          record { left = r.2.left; sent = r.2.sent; devices = r.2.devices; outputs = r.2.outputs },
        ))
