-- ===== src/Store/Output.antt =====
-- src/zippylog/store.cpp, the open output streams of a store: `ObtainOutputStream`,
-- `WriteEnvelope`, `FlushOutputStreams`, and `SimpleDirectoryStore::CreateOutputStream` with the
-- functions that make directories. A pointer to a stream is a number, the next one for each `new`.
-- The clock, the directories and the opening of a file are parameters.
pub mod Streams
pub mod Writes
use zippylog.Prelude.{
  ℕ, ◌+◌, Bool, true, false, Option, none, some, List, [], ◌∷◌, ◌++◌, Text, text_eq, Outcome, done,
  throws, faults, if◌then◌else◌,
}
use zippylog.Platform.Directories.{FileSystem, path_is_directory}
use zippylog.Store.Path.{extension, bucket_path, streamset_path, stream_path}
use zippylog.Store.Simple.{path_to_filesystem_path}
use zippylog.Store.StreamName.{Time, stream_name_for_time}

-- `last_write_time` is -1, `none`, in every record that the code makes.
pub record OpenOutputStream : Type 0 where
  pub stream : ℕ
  pub last_write_time : Option ℕ

pub record Outputs (Disk : Type 0) : Type 0 where
  pub out_streams : List (Text × OpenOutputStream)
  pub next_stream : ℕ
  pub written : List (ℕ × Text)
  pub flushed : List ℕ
  pub disk : Disk

-- `std::map` from store paths: `find`, and assignment to an entry.
unfoldable pub find : Text → List (Text × OpenOutputStream) → Option OpenOutputStream
find k [] = none
find k ((j, v) ∷ m) = if text_eq j k then some v else find k m

unfoldable pub assign :
    Text → OpenOutputStream → List (Text × OpenOutputStream) → List (Text × OpenOutputStream)
assign k v [] = (k, v) ∷ []
assign k v ((j, w) ∷ m) = if text_eq j k then (k, v) ∷ m else (j, w) ∷ assign k v m

-- What the system tells of the paths for `PathIsDirectory`, `MakeDirectory`, the constructor of
-- `FileOutputStream`, which may throw, and the time; a negative time, `none`, is the present.
pub record System (Disk : Type 0) : Type 0 where
  pub observe : Disk → FileSystem
  pub make_directory : Text → Disk → Bool × Disk
  pub open_output : Text → Disk → Outcome Disk
  pub time_of : Option ℕ → Time

module _ {Disk : Type 0} (sys : System Disk) (root : Text) where
  open sys use {observe, make_directory, open_output, time_of}

  unfoldable pub ensure_directory : Text → Disk → Bool × Disk
  unfolding path_is_directory
  ensure_directory path disk =
      if path_is_directory (observe disk) (path_to_filesystem_path root path)
      then (true, disk)
      else make_directory (path_to_filesystem_path root path) disk

  -- `false` is the result NULL.
  unfoldable pub create_output_stream : Text → Text → Text → Disk → Outcome (Bool × Disk)
  unfolding ensure_directory
  create_output_stream bucket set stream disk =
      let (have_bucket, d1) = ensure_directory (bucket_path bucket) disk in
      let (have_set, d2) = ensure_directory (streamset_path bucket set) d1 in
      let opened : Outcome (Bool × Disk) =
        elim (open_output
          (path_to_filesystem_path root (stream_path bucket set stream ++ extension)) d2) [
            | done d3 ↦ done (true, d3)
            | throws e ↦ throws e
            | faults ↦ faults
          ] in
      if have_bucket then if have_set then opened else done (false, d2) else done (false, d1)

  -- The record of a stream that is open already, or of a new one.
  unfoldable pub open_stream :
      Text → Text → Text → Outputs Disk → Outcome (Option OpenOutputStream × Outputs Disk)
  unfolding find assign create_output_stream
  open_stream bucket set stream s = elim (find (stream_path bucket set stream) s.out_streams) [
    | some os ↦ done (some os, s)
    | none ↦ elim (create_output_stream bucket set stream s.disk) [
      | throws e ↦ throws e
      | faults ↦ faults
      | done (created, disk) ↦
          if created
          then (let os : OpenOutputStream = record {
            stream = s.next_stream;
            last_write_time = none;
          } in
              done (
                some os,
                record s {
                  out_streams = assign (stream_path bucket set stream) os s.out_streams;
                  next_stream = s.next_stream + 1;
                  disk = disk;
                },
              ))
          else done (none, record s { disk = disk })
    ]
  ]

  unfoldable pub obtain_output_stream :
      Text → Text → ℕ → Option ℕ → Outputs Disk → Outcome (Option OpenOutputStream × Outputs Disk)
  unfolding open_stream
  obtain_output_stream bucket set seconds_per_file time s =
      elim (stream_name_for_time (time_of time) seconds_per_file) [
        | throws e ↦ throws e
        | faults ↦ faults
        | done stream ↦ open_stream bucket set stream s
      ]

  -- Both overloads of `WriteEnvelope`, with the result of that of the stream and the bytes that it writes
  -- behind their size: the bytes of an envelope are written with the result true, and an envelope that
  -- does not serialize with the result false.
  unfoldable pub write_envelope :
      Text → Text → Bool × Text → Option ℕ → Outputs Disk → Outcome (Bool × Outputs Disk)
  unfolding obtain_output_stream
  write_envelope bucket set write time s = elim (obtain_output_stream bucket set 3600 time s) [
    | throws e ↦ throws e
    | faults ↦ faults
    | done (found, s') ↦ elim found [
      | none ↦ done (false, s')
      | some os ↦ done (write.0, record s' { written = s'.written ++ (os.stream, write.1) ∷ [] })
    ]
  ]

unfoldable pub streams_of : List (Text × OpenOutputStream) → List ℕ
streams_of [] = []
streams_of ((k, os) ∷ m) = os.stream ∷ streams_of m

unfoldable pub flush_output_streams : {Disk : Type 0} → Outputs Disk → Bool × Outputs Disk
unfolding streams_of
flush_output_streams s = (true, record s { flushed = s.flushed ++ streams_of s.out_streams })
