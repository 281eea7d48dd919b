-- ===== src/Server/Examples.antt =====
-- Tests of the model of src/zippylog/device/server.cpp on concrete servers, and its theorems at such.
use zippylog.Prelude.{
  ℕ, ◌<◌, arith, ◌≡◌, refl, ◌⊎◌, Bool, true, false, none, some, List, [], ◌∷◌, ◌++◌, bytes, done,
  faults,
}
use zippylog.Platform.Directories.{FileType}
use zippylog.Store.Output.{System}
use zippylog.Device.{make_work_done}
use zippylog.Platform.{Moment, new_timer, is_signaled}
use zippylog.ZeroMq.{Part}
use zippylog.ZeroMq.Queue.{queue, queue-IsWired, queue-IsOpen}
use zippylog.ZeroMq.Transfer.{IsMessage, last, more}
use zippylog.Server.Children.{Child, Devices, stop_each, shutdown, check_devices}
use zippylog.Server.Stopping.{
  started, none_left, one_more, present, AreStarted, AllRun, none_left_of,
  check_devices-all_or_none,
}
use zippylog.Server.{
  Source, logger, workers, streaming, worker_subscriptions, store_changes_input,
  worker_streaming_notify, clients, Server, Serving, pump,
}
use zippylog.Server.Routing.{rank, source_of, Moved, pump-routes}

abbrev child : Bool → Child
child running = record {
  running = running;
  has_ran = true;
  thread = true;
  async_wait = true;
  waits = 1;
  trace = [];
  world = running;
}

-- One of two request processors has ended.
abbrev devices : Devices
devices = record {
  active = false;
  request_processors = some (child true) ∷ some (child false) ∷ [];
  persisted_state_reactors = some (child true) ∷ [];
  store_watcher = some (child true);
  store_writer = some (child true);
}

devices-AreStarted : AreStarted devices
devices-AreStarted = record {
  request_processors =
      one_more (started (child true) refl) (one_more (started (child false) refl) none_left);
  persisted_state_reactors = one_more (started (child true) refl) none_left;
  store_watcher = present (started (child true) refl);
  store_writer = present (started (child true) refl);
}

check_devices-all_or_none_example :
    (AllRun devices × (check_devices devices ≡ (done tt, devices)))
    ⊎ ((¬ AllRun devices) × (check_devices devices ≡ (done tt, none_left_of)))
check_devices-all_or_none_example = check_devices-all_or_none devices devices-AreStarted

all_stopped : check_devices devices ≡ (done tt, none_left_of)
unfolding check_devices
all_stopped = refl

-- A null pointer left by an exception is followed the next time.
left_null : (shutdown (record devices { request_processors = none ∷ [] })).0 ≡ faults
unfolding shutdown stop_each
left_null = refl

abbrev moment : Moment
moment = record { now = 5; creates = true; sets = true; reads = true }

abbrev files : System (Unit {0})
files = record {
  observe = λ disk. record {
    readdir = λ path. none;
    status = λ path. some (16877, 7);
    raw_type = λ path. FileType.unknown;
  };
  make_directory = λ path disk. (true, disk);
  open_output = λ path disk. done disk;
  time_of = λ t. record { year = 2011; mon = 4; mday = 1; hour = 0; min = 0; sec = 0 };
}

-- A response of a worker and a request of a client wait.
abbrev pending : Source → Bool
pending workers = true
pending clients = true
pending _ = false

abbrev serving : Serving (Unit {0})
serving = record {
  system = files;
  root = bytes "/store";
  write_logs = false;
  log_bucket = [];
  log_stream_set = [];
  log_message = λ msg. none;
  polled = pending;
  rounds = 10;
}

abbrev response : List Part
response = (bytes "id", true) ∷ (bytes "r", false) ∷ []

abbrev server : Server (List Part) (Unit {0})
server = record {
  sockets = record {
    clients = [];
    workers = response;
    streaming = [];
    worker_subscriptions = [];
    streaming_subscriptions = [];
    worker_streaming_notify = [];
    streaming_streaming_notify = [];
    store_changes_input = [];
    store_changes_output = [];
    logger = [];
    log_client = [];
  };
  devices = devices;
  outputs = record { out_streams = []; next_stream = 0; written = []; flushed = []; disk = tt };
  stream_flush_timer = new_timer 60000000;
  thread_check_timer = new_timer 5000000;
}

abbrev response-IsMessage : IsMessage response
response-IsMessage = more (bytes "id") (last (bytes "r"))

not_signaled : (us : ℕ) → is_signaled moment (new_timer us) ≡ (done false, new_timer us)
unfolding is_signaled
not_signaled us = refl

first_workers : (other : Source) → rank other < rank workers → pending other ≡ false
unfolding rank
first_workers logger h = refl
first_workers workers h = absurd (omega (arith, h))
first_workers streaming h = refl
first_workers worker_subscriptions h = refl
first_workers store_changes_input h = refl
first_workers worker_streaming_notify h = refl
first_workers clients h = absurd (omega (arith, h))

workers_rank : 0 < rank workers
unfolding rank
workers_rank = omega arith

waits : source_of workers server.sockets ≡ response ++ []
unfolding source_of
waits = refl

pump-routes_example :
    (after : Server (List Part) (Unit {0})) × (pump queue serving moment moment server
      ≡ done (make_work_done, after))
    × Moved (λ ps. ps) (λ ps. ps) workers response [] server after
pump-routes_example =
    pump-routes queue serving (λ ps. ps) (λ ps. ps) queue-IsWired.recv_takes queue-IsWired.send_adds
      queue-IsOpen workers response-IsMessage [] moment moment (new_timer 60000000)
      (new_timer 5000000) server (not_signaled 60000000) (not_signaled 5000000) workers_rank
      (omega arith) refl first_workers waits
