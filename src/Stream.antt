-- ===== src/Stream.antt =====
-- src/zippylog/stream.cpp: `InputStream` and `FileInputStream`, which read the envelopes of a
-- stream, and the bytes that an `OutputStream` writes. The coded input stream of protocol buffers is
-- a parameter that reads from the bytes that are left of the file.
pub mod Output
pub mod Sessions
pub mod RoundTrip
mod Examples
use zippylog.Prelude.{
  ℕ, ◌+◌, ◌%◌, ◌^◌, Bool, true, false, Option, none, some, [], ◌∷◌, Text, drop, leb, ◌==◌,
  if◌then◌else◌, Outcome, done, throws,
}
use zippylog.Envelope.{Envelope}

-- `CodedInputStream`: `ReadVarint32`, and the parsing of an envelope from the next `size` bytes, with
-- the bytes that are left where it succeeds and where it does not.
pub record CodedInput (Message : Type 0) : Type 0 where
  pub read_varint : Text → Option (ℕ × Text)
  pub read_message : ℕ → Text → Option (Envelope Message) × Text

-- `coded_input_stream_read_bytes` only says when the coded stream is built anew, which leaves the
-- position as it is.
pub record InputStream : Type 0 where
  pub file : Text
  pub rest : Text
  pub have_next_size : Bool
  pub next_size : ℕ
  pub offset : ℕ

-- The length of the size in front of an envelope, as `ReadEnvelope` counts it.
unfoldable pub prefix_length : ℕ → ℕ
prefix_length size =
    if leb size 127 then 1 else if leb size 16383 then 2 else if leb size 2097151 then 3 else 4

-- The constructor, which reads the version.
unfoldable pub open_input : Text → Outcome InputStream
open_input [] = throws "could not read stream version or stream version not supported"
open_input (v ∷ rest) =
    if v == 1
    then done
        (record { file = v ∷ rest; rest = rest; have_next_size = false; next_size = 0; offset = 1 })
    else throws "could not read stream version or stream version not supported"

-- Seeking behind the end of a file succeeds, and nothing is left to read there.
unfoldable pub set_absolute_offset : ℕ → InputStream → InputStream
set_absolute_offset target s = record s { rest = drop target s.file; offset = target }

module _ {Message : Type 0} (coded : CodedInput Message) where
  unfoldable pub next_envelope_size : InputStream → ℕ × InputStream
  next_envelope_size s =
      if s.have_next_size then (s.next_size, s) else elim (coded.read_varint s.rest) [
        | none ↦ (0, s)
        | some (n, rest) ↦ (n, record s { rest = rest; have_next_size = true; next_size = n })
      ]

  -- The envelope with the bytes read, a `uint32`; `none` where the result is false.
  unfoldable pub finish_read :
      ℕ
      → InputStream
      → Option (Envelope Message) × Text
      → Option (Envelope Message × ℕ) × InputStream
  unfolding prefix_length
  finish_read size s (none, rest) = (none, record s { rest = rest; have_next_size = false })
  finish_read size s (some e, rest) =
      let bytes_read = (size + prefix_length size) % 2 ^ 32 in
      (
        some (e, bytes_read),
        record s { rest = rest; have_next_size = false; offset = s.offset + bytes_read },
      )

  unfoldable pub read_envelope : InputStream → Option (Envelope Message × ℕ) × InputStream
  unfolding next_envelope_size finish_read
  read_envelope s =
      let sized = next_envelope_size s in
      if sized.0 == 0
      then (none, sized.1)
      else finish_read sized.0 sized.1 (coded.read_message sized.0 sized.1.rest)
