-- ===== src/Stream/Output.antt =====
-- src/zippylog/stream.cpp: `OutputStream` and `FileOutputStream`, which write the envelopes of a stream. The
-- coded output stream of protocol buffers writes into a buffer, which a flush brings to the file.
use zippylog.Prelude.{
  ℕ, Bool, true, false, not, ◌&&◌, [], ◌∷◌, ◌++◌, Text, length, is_empty, if◌then◌else◌, Outcome,
  done, throws,
}
use zippylog.Envelope.{Envelope}

-- `cos` tells if there is a coded output stream.
pub record OutputStream : Type 0 where
  pub file : Text
  pub buffered : Text
  pub cos : Bool

-- The system and protocol buffers: if the file is opened and can be asked for its size, what is in it
-- when a buffer is written behind what it has, if that succeeds, and if the file is flushed then;
-- `WriteVarint32`, and the size of an envelope and what its serialization writes.
pub record CodedOutput (Message : Type 0) : Type 0 where
  pub opens : Bool
  pub stats : Bool
  pub put : Text → Text → Bool × Text
  pub flushes : Bool
  pub varint : ℕ → Text
  pub byte_size : Envelope Message → ℕ
  pub serialize : Envelope Message → Bool × Text

module _ {Message : Type 0} (coded : CodedOutput Message) where
  open coded use {opens, stats, put, flushes, varint, byte_size, serialize}

  abbrev pub write_raw : Text → OutputStream → OutputStream
  write_raw t s = record s { buffered = s.buffered ++ t }

  unfoldable pub flush : OutputStream → Bool × OutputStream
  flush s =
      let r = put s.file s.buffered in
      (flushes && r.0, record s { file = r.1; buffered = []; cos = true })

  unfoldable pub write_stream_header : OutputStream → Bool × OutputStream
  unfolding flush
  write_stream_header s = if not s.cos then (false, s) else flush (write_raw (1 ∷ []) s)

  -- `WriteEnvelope` of an envelope, and of the bytes of one.
  unfoldable pub write_envelope : Envelope Message → OutputStream → Bool × OutputStream
  write_envelope e s =
      if not s.cos
      then (false, s)
      else (let r = serialize e in (r.0, write_raw r.1 (write_raw (varint (byte_size e)) s)))

  unfoldable pub write_bytes : Text → OutputStream → Bool × OutputStream
  write_bytes t s =
      if not s.cos then (false, s) else (true, write_raw t (write_raw (varint (length t)) s))

  unfoldable pub write_data : Text → OutputStream → Bool × OutputStream
  write_data t s = if not s.cos then (false, s) else (true, write_raw t s)

  abbrev headed : Bool × OutputStream → Outcome OutputStream
  headed (true, s) = done s
  headed (false, s) = throws "could not write stream header to new stream"

  abbrev pub new_output : Text → OutputStream
  new_output file = record { file = file; buffered = []; cos = true }

  -- The constructor, on a file with what is in it, which is nothing for one that is created.
  unfoldable pub open_output : Text → Outcome OutputStream
  unfolding write_stream_header
  open_output file =
      if not opens
      then throws "could not open file"
      else if not stats
      then throws "could not stat file opened for writing. weird"
      else if is_empty file
      then headed (write_stream_header (new_output file))
      else done (new_output file)

  -- The destructor: what is in the file then.
  unfoldable pub close_output : OutputStream → Text
  close_output s = (put s.file s.buffered).1
