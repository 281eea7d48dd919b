-- ===== src/Stream/RoundTrip.antt =====
-- src/zippylog/stream.cpp: what is written to a stream, in one session or later, is read from it.
use zippylog.Prelude.{
  ℕ, ◌+◌, ◌^◌, ◌%◌, ◌<◌, arith, ◌≡◌, refl, false, none, some, List, [], ◌∷◌, ◌++◌, ◌==◌, Text,
  length, length-append, done,
}
use zippylog.Envelope.{Envelope}
use zippylog.Stream.{
  CodedInput, InputStream, prefix_length, open_input, next_envelope_size, finish_read,
  read_envelope,
}
use zippylog.Stream.Output.{CodedOutput}
use zippylog.Stream.Sessions.{session, frames, IsWriting, session-new, session-more}

-- The envelopes that are read one after the other.
pub data Reads {Message : Type 0} (coded : CodedInput Message)
    : InputStream → List (Envelope Message) → InputStream → Type 0 where
  stop : (s : InputStream) → Reads coded s [] s
  next :
      {s u v : InputStream} {e : Envelope Message} {es : List (Envelope Message)} {n : ℕ}
      → read_envelope coded s ≡ (some (e, n), u)
      → Reads coded u es v
      → Reads coded s (e ∷ es) v

-- What protocol buffers promise of the numbers below 2^28: they are read as they were written, in as
-- many bytes as `ReadEnvelope` counts. At the end of the file there is no number.
pub record AgreeOn {Message : Type 0} (input : CodedInput Message) (output : CodedOutput Message)
    : Type 0 where
  pub reads_varint :
      (n : ℕ) (rest : Text)
      → n < 2 ^ 28
      → input.read_varint (output.varint n ++ rest) ≡ some (n, rest)
  pub varint_length : (n : ℕ) → n < 2 ^ 28 → length (output.varint n) ≡ prefix_length n
  pub at_end : input.read_varint [] ≡ none

module _ {Message : Type 0} (input : CodedInput Message) (output : CodedOutput Message) where
  -- Bytes that are parsed to an envelope, also with others behind them.
  pub record IsParsed (t : Text) (e : Envelope Message) : Type 0 where
    pub has_bytes : 0 < length t
    pub is_short : length t < 2 ^ 28
    pub parses : (rest : Text) → input.read_message (length t) (t ++ rest) ≡ (some e, rest)

  pub data AreParsed : List Text → List (Envelope Message) → Type 0 where
    no_more : AreParsed [] []
    one_more :
        {t : Text} {e : Envelope Message} {ts : List Text} {es : List (Envelope Message)}
        → IsParsed t e
        → AreParsed ts es
        → AreParsed (t ∷ ts) (e ∷ es)

  parsed-append :
      {ts us : List Text} {es ds : List (Envelope Message)}
      → AreParsed ts es
      → AreParsed us ds
      → AreParsed (ts ++ us) (es ++ ds)
  parsed-append no_more q = q
  parsed-append (one_more p ps) q = one_more p (parsed-append ps q)

  -- A stream between two envelopes.
  abbrev between : Text → Text → ℕ → ℕ → InputStream
  between file rest n offset = record {
    file = file;
    rest = rest;
    have_next_size = false;
    next_size = n;
    offset = offset;
  }

  not_zero : (n : ℕ) → 0 < n → (n == 0) ≡ false
  not_zero n h = ground arith

  unwrapped : (n : ℕ) → n < 2 ^ 28 → (n + prefix_length n) % 2 ^ 32 ≡ n + prefix_length n
  unfolding prefix_length
  unwrapped n h = ground arith

  read-one :
      (t : Text) (e : Envelope Message) (ts : List Text) (file : Text) (n offset : ℕ)
      → AgreeOn input output
      → IsParsed t e
      → read_envelope input (between file (frames output (t ∷ ts)) n offset) ≡ (
        some (e, length t + prefix_length (length t)),
        between file (frames output ts) (length t) (offset + (length t + prefix_length (length t))),
      )
  unfolding read_envelope next_envelope_size finish_read frames
  read-one t e ts file n offset a p =
      (let size = length t in
        rw
          (
            a.reads_varint size (t ++ frames output ts) p.is_short,
            not_zero size p.has_bytes,
            p.parses (frames output ts),
            unwrapped size p.is_short,
            read_envelope,
          )
          refl)

  -- All of them, up to the end of the file.
  read-all :
      {ts : List Text} {es : List (Envelope Message)}
      → AreParsed ts es
      → AgreeOn input output
      → (file : Text) (n offset : ℕ)
      → (m end : ℕ) × Reads input
          (between file (frames output ts) n offset)
          es
          (between file [] m end)
        × (end ≡ offset + length (frames output ts))
  unfolding frames
  read-all no_more a file n offset = (n, offset, stop _, omega arith)
  read-all (one_more {t} {e} {ts} p ps) a file n offset =
      (let r = read-all ps a file (length t) (offset + (length t + prefix_length (length t))) in
        (
          r.0,
          r.1,
          next (read-one t e ts file n offset a p) r.2,
          omega (
            arith,
            r.3,
            a.varint_length (length t) p.is_short,
            length-append (output.varint (length t)) (t ++ frames output ts),
            length-append t (frames output ts),
          ),
        ))

  no_size :
      (m file_end : ℕ) (file : Text)
      → AgreeOn input output
      → (read_envelope input (between file [] m file_end)).0 ≡ none
  unfolding read_envelope next_envelope_size
  no_size m file_end file a = rw (a.at_end, read_envelope) refl

  -- Envelopes are written to a new file in one session, and others to the same file in a later one. Each
  -- is written by its bytes, at least one and less than 2^28, which are parsed to it whatever follows.
  -- Then the file opens as a stream, all envelopes are read from it in the order of writing, the offset
  -- behind them is the length of the file, and no other is read. The file takes what is written.
  pub sessions-read :
      {ts us : List Text} {es ds : List (Envelope Message)}
      → AgreeOn input output
      → IsWriting output
      → AreParsed ts es
      → AreParsed us ds
      → (first file : Text) × (s v : InputStream) × (session output [] ts ≡ done first)
        × (session output first us ≡ done file)
        × (open_input file ≡ done s)
        × Reads input s (es ++ ds) v
        × (v.offset ≡ length file)
        × ((read_envelope input v).0 ≡ none)
  unfolding open_input
  sessions-read {ts} {us} a w p q =
      (let file = 1 ∷ frames output (ts ++ us) in
        let r = read-all (parsed-append p q) a file 0 1 in
        (
          1 ∷ frames output ts,
          file,
          between file (frames output (ts ++ us)) 0 1,
          between file [] r.0 r.1,
          session-new output ts w,
          session-more output ts us w,
          refl,
          r.2,
          omega (arith, r.3),
          no_size r.0 r.1 file a,
        ))
