-- ===== src/StoreWriter/Examples.antt =====
-- Tests of the models of src/zippylog/device/store_writer.cpp and
-- src/zippylog/device/store_writer_sender.cpp, and their theorem at concrete sockets.
use zippylog.Prelude.{◌≡◌, refl, true, none, some, List, [], bytes, done}
use zippylog.Platform.Directories.{FileType}
use zippylog.Store.Output.{System, Outputs}
use zippylog.ZeroMq.{Part, to_message, send_envelope}
use zippylog.ZeroMq.Queue.{queue, queue-IsWired}
use zippylog.StoreWriter.{send_to_set, deliver_envelope, receive_error, c_string, receive_and_write}
use zippylog.StoreWriter.Unwritten.{delivered-unwritten}

-- The path of the sender has no zero byte at its end.
unterminated : c_string (bytes "/acme/web") ≡ none
unfolding c_string
unterminated = refl

abbrev system : System (Unit {0})
system = record {
  observe = λ disk. record {
    readdir = λ path. none;
    status = λ path. some (16877, 7);
    raw_type = λ path. FileType.unknown;
  };
  make_directory = λ path disk. (true, disk);
  open_output = λ path disk. done disk;
  time_of = λ t. record { year = 2011; mon = 4; mday = 1; hour = 0; min = 0; sec = 0 };
}

abbrev no_outputs : Outputs (Unit {0})
no_outputs = record { out_streams = []; next_stream = 0; written = []; flushed = []; disk = tt }

delivered :
    (deliver_envelope (some queue) (bytes "acme") (bytes "web") (some (bytes "e")) []).0 ≡ done true
unfolding deliver_envelope send_to_set send_envelope to_message
delivered = refl

delivered-unwritten_example :
    (u : List Part) × (u ≡ [])
    × (receive_and_write system
          (bytes "/store")
          queue
          3
          no_outputs
          (deliver_envelope (some queue) (bytes "acme") (bytes "web") (some (bytes "e")) []).1
        ≡ (done (receive_error, no_outputs), u))
delivered-unwritten_example =
    delivered-unwritten queue (λ ps. ps) queue-IsWired system (bytes "/store") no_outputs 1
      (bytes "acme") (bytes "web") (bytes "e") [] refl refl delivered
