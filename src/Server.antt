-- ===== src/Server.antt =====
-- src/zippylog/device/server.cpp: `Server`, the device that has the others and passes messages on between
-- them.
pub mod Children
pub mod Stopping
pub mod Routing
mod Examples
use zippylog.Prelude.{
  ℕ, zero, suc, Bool, true, false, not, ◌||◌, Option, none, some, List, [], ◌∷◌, Text, is_empty,
  if◌then◌else◌, Outcome, done, throws, faults, ◌>>=◌,
}
use zippylog.Store.Output.{Outputs, System, write_envelope, flush_output_streams}
use zippylog.Platform.{Moment, Timer, Timed, is_signaled, start}
use zippylog.Device.{PumpResult, make_error, make_work_done, make_no_work_done}
use zippylog.Server.Children.{Devices, check_devices}
use zippylog.ZeroMq.{Flags, last_part, Part, Socket, send_envelope, transfer_message}

-- The messages that the server logs as it runs.
pub data ServerLog : Type 0 where
  flush_streams : ServerLog
  send_client_message : ServerLog
  receive_client_message : ServerLog

-- The sockets, each in its state.
pub record Sockets (S : Type 0) : Type 0 where
  pub clients : S
  pub workers : S
  pub streaming : S
  pub worker_subscriptions : S
  pub streaming_subscriptions : S
  pub worker_streaming_notify : S
  pub streaming_streaming_notify : S
  pub store_changes_input : S
  pub store_changes_output : S
  pub logger : S
  pub log_client : S

-- The sockets that are polled.
pub data Source : Type 0 where
  logger : Source
  workers : Source
  streaming : Source
  worker_subscriptions : Source
  store_changes_input : Source
  worker_streaming_notify : Source
  clients : Source

pub record Server (S Disk : Type 0) : Type 0 where
  pub sockets : Sockets S
  pub devices : Devices
  pub outputs : Outputs Disk
  pub stream_flush_timer : Timer
  pub thread_check_timer : Timer

abbrev pub Pumped : Type 0 → Type 0 → Type 0 → Type 0
Pumped S Disk A = Outcome (A × Server S Disk)

-- What to write the logs by, `zmq::poll`, which tells of the sockets which have something, and the fuel
-- for the loops over frames.
pub record Serving (Disk : Type 0) : Type 0 where
  pub system : System Disk
  pub root : Text
  pub write_logs : Bool
  pub log_bucket : Text
  pub log_stream_set : Text
  pub log_message : ServerLog → Option Text
  pub polled : Source → Bool
  pub rounds : ℕ

module _ {S Disk : Type 0} (socket : Socket S) (serving : Serving Disk) where
  open serving use {
    system, root, write_logs, log_bucket, log_stream_set, log_message, polled, rounds,
  }

  -- `LOG_MESSAGE`; what sending returns is ignored.
  unfoldable pub log : ServerLog → Sockets S → Sockets S
  unfolding send_envelope
  log msg s = record s {
    log_client = (send_envelope socket (log_message msg) false (last_part true) s.log_client).1;
  }

  -- What a timer tells, where it does not throw.
  abbrev pub timed_then :
      {A : Type 0}
      → Timed Bool
      → (Timer → Pumped S Disk A)
      → (Timer → Pumped S Disk A)
      → Pumped S Disk A
  timed_then (done true, t) f g = f t
  timed_then (done false, t) f g = g t
  timed_then (throws e, t) f g = throws e
  timed_then (faults, t) f g = faults

  -- The flush of the output streams; the result is `work_done`.
  unfoldable pub flush_if_due : Moment → Server S Disk → Pumped S Disk Bool
  unfolding is_signaled start log flush_output_streams
  flush_if_due m s =
      timed_then (is_signaled m s.stream_flush_timer)
        (λ t.
          timed_then (start m 0 t)
            (λ u. done (
              true,
              record s {
                sockets = log flush_streams s.sockets;
                outputs = (flush_output_streams s.outputs).1;
                stream_flush_timer = u;
              },
            ))
            (λ u. throws "could not restart stream flush timer"))
        (λ t. done (false, record s { stream_flush_timer = t }))

  -- `CheckDevices`, where it comes back, and the start of the timer.
  abbrev pub checked : Moment → Server S Disk → Outcome (Unit {0}) × Devices → Pumped S Disk Bool
  checked m s (done _, d) =
      timed_then (start m 0 s.thread_check_timer)
        (λ u. done (true, record s { devices = d; thread_check_timer = u }))
        (λ u. throws "TODO handle failure of timer to start")
  checked m s (throws e, d) = throws e
  checked m s (faults, d) = faults

  unfoldable pub check_if_due : Moment → Bool → Server S Disk → Pumped S Disk Bool
  unfolding is_signaled start check_devices
  check_if_due m work_done s =
      timed_then (is_signaled m s.thread_check_timer)
        (λ t. checked m (record s { thread_check_timer = t }) (check_devices s.devices))
        (λ t. done (work_done, record s { thread_check_timer = t }))

  abbrev pub result_of : Bool → PumpResult
  result_of work_done = if work_done then make_work_done else make_no_work_done

  -- The loop over the frames of the logger's socket.
  unfoldable pub write_frames : ℕ → Server S Disk → Pumped S Disk PumpResult
  unfolding write_envelope
  write_frames zero s = faults
  write_frames (suc fuel) s =
      let received = socket.recv (last_part false) s.sockets.logger in
      let s = record s { sockets = record s.sockets { logger = received.1 } } in
      elim received.0 [
        | none ↦ done (make_error, s)
        | some (t, more) ↦
            (let wrote =
                if write_logs
                then write_envelope system root log_bucket log_stream_set (true, t) none s.outputs
                else done (true, s.outputs) in
              elim wrote [
                | throws e ↦ throws e
                | faults ↦ faults
                | done (_, out) ↦
                    if more
                    then write_frames fuel (record s { outputs = out })
                    else done (make_work_done, record s { outputs = out })
              ])
      ]

  -- A message passed on: its two sockets, with what is logged then.
  abbrev pub passed_on :
      Bool
      → (S → S → Sockets S)
      → (Sockets S → Sockets S)
      → Option Bool × S × S
      → Server S Disk
      → Pumped S Disk PumpResult
  passed_on work_done put logged (none, r, t) s = faults
  passed_on work_done put logged (some true, r, t) s =
      done (make_work_done, record s { sockets = logged (put r t) })
  passed_on work_done put logged (some false, r, t) s =
      done (result_of work_done, record s { sockets = put r t })

  abbrev pub not_logged : Sockets S → Sockets S
  not_logged s = s

  -- One socket that has something, by the order of the tests; where none has, nothing is done, as
  -- after `rc < 1`.
  unfoldable pub process_sockets : Bool → Server S Disk → Pumped S Disk PumpResult
  unfolding write_frames log transfer_message
  process_sockets work_done s =
      let k = s.sockets in
      let move = transfer_message socket socket rounds in
      if polled logger
      then write_frames rounds s
      else if polled workers
      then passed_on work_done (λ r t. record k { workers = r; clients = t })
          (log send_client_message) (move k.workers k.clients) s
      else if polled streaming
      then passed_on work_done (λ r t. record k { streaming = r; clients = t })
          (log send_client_message) (move k.streaming k.clients) s
      else if polled worker_subscriptions
      then passed_on work_done
          (λ r t. record k { worker_subscriptions = r; streaming_subscriptions = t }) not_logged
          (move k.worker_subscriptions k.streaming_subscriptions) s
      else if polled store_changes_input
      then passed_on work_done
          (λ r t. record k { store_changes_input = r; store_changes_output = t }) not_logged
          (move k.store_changes_input k.store_changes_output) s
      else if polled worker_streaming_notify
      then passed_on false
          (λ r t. record k { worker_streaming_notify = r; streaming_streaming_notify = t })
          not_logged (move k.worker_streaming_notify k.streaming_streaming_notify) s
      else if polled clients
      then passed_on work_done (λ r t. record k { clients = r; workers = t })
          (log receive_client_message) (move k.clients k.workers) s
      else done (result_of work_done, s)

  unfoldable pub pump : Moment → Moment → Server S Disk → Pumped S Disk PumpResult
  unfolding flush_if_due check_if_due process_sockets
  pump flush_time check_time s = flush_if_due flush_time s >>= λ r.
      check_if_due check_time r.0 r.1 >>= λ r. process_sockets r.0 r.1
