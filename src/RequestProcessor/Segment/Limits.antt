-- ===== src/RequestProcessor/Segment/Limits.antt =====
-- src/zippylog/request_processor.cpp, `ProcessGetStream`: a segment takes the envelopes as they stand
-- in the stream, within the bounds of the request.
use zippylog.Prelude.{
  ℕ, ◌^◌, ◌≤◌, ◌<◌, ◌≡◌, ◌≢◌, refl, subst, false, some, [], ◌∷◌, ltb, ◌==◌, arith, Bool-cases, inl,
  inr,
}
use zippylog.Envelope.{Envelope}
use zippylog.Stream.{InputStream, next_envelope_size, read_envelope, finish_read}
use zippylog.RequestProcessor.Messages.{Request}
use zippylog.RequestProcessor.State.{Environment}
use zippylog.RequestProcessor.Segment.{Reading, minus_uint32, plus_uint32, read_more, read_segment}
use zippylog.RequestProcessor.Segment.Rounds.{
  IsWithin, after, next-IsWithin, last-IsWithin, more-IsWithin,
}

-- The variables before the first envelope is counted.
abbrev pub before : InputStream → ℕ → ℕ → Reading
before s bytes_left envelopes_left = record {
  stream = s;
  bytes_left = bytes_left;
  envelopes_left = envelopes_left;
  bytes_read = 0;
  envelopes_read = 0;
}

pair-path : {A B : Type 0} {a a' : A} {b b' : B} → a ≡ a' → b ≡ b' → Path (A × B) (a, b) (a', b')
pair-path p q = cc

module _ (env : Environment) where
  read-size :
      (s s' : InputStream) (e : Envelope Request) (n : ℕ)
      → read_envelope env.coded s ≡ (some (e, n), s')
      → n < 2 ^ 32
  unfolding read_envelope next_envelope_size finish_read
  read-size s s' e n h = ground arith

  module _ (s s' : InputStream) (e : Envelope Request) (size bytes_left envelopes_left : ℕ)
      (z : (next_envelope_size env.coded s).0 ≢ 0)
      (h : read_envelope env.coded (next_envelope_size env.coded s).1 ≡ (some (e, size), s'))
      (one : 1 ≤ envelopes_left) (envelopes : envelopes_left < 2 ^ 32)
      (bytes : bytes_left < 2 ^ 32) where
    abbrev start : Reading
    start = before s bytes_left envelopes_left

    abbrev left : ℕ
    left = minus_uint32 envelopes_left 1

    -- The bytes that are counted do not wrap at the first envelope.
    first-bytes : plus_uint32 0 size ≡ size
    first-bytes = omega (arith, read-size (next_envelope_size env.coded s).1 s' e size h)

    only-IsWithin : IsWithin env.coded start envelopes_left (
      e ∷ [],
      record {
        stream = s';
        bytes_left = bytes_left;
        envelopes_left = left;
        bytes_read = size;
        envelopes_read = 1;
      },
    )
    only-IsWithin =
        subst
          (λ b. IsWithin env.coded start b.0 (
            e ∷ [],
            record {
              stream = s';
              bytes_left = bytes_left;
              envelopes_left = left;
              bytes_read = b.1;
              envelopes_read = 1;
            },
          ))
          (pair-path (omega arith) first-bytes)
          (last-IsWithin env.coded start left size left e s' z h)

    -- The variables in front of the loop, with what `bytes_read` holds.
    abbrev looping : ℕ → Reading
    looping bytes_read = record {
      stream = s';
      bytes_left = minus_uint32 bytes_left size;
      envelopes_left = left;
      bytes_read = bytes_read;
      envelopes_read = 1;
    }

    further-IsWithin :
        size ≤ bytes_left
        → (left == 0) ≡ false
        → IsWithin env.coded start envelopes_left
            (e ∷ (read_more env left (looping size)).0, (read_more env left (looping size)).1)
    further-IsWithin le more =
        subst
          (λ b.
            IsWithin env.coded start b.0
              (e ∷ (read_more env left (looping b.1)).0, (read_more env left (looping b.1)).1))
          (pair-path (omega arith) first-bytes)
          (next-IsWithin env.coded start left size e s' (read_more env left (after start size s')) z
            h le bytes
            (more-IsWithin env left (after start size s') refl (record {
              one = ground arith;
              envelopes = omega arith;
              bytes = omega arith;
              bytes_read = omega arith;
              envelopes_read = omega arith;
            })))

  -- Where a stream has an envelope to read and the bound on envelopes is at least one, the envelopes
  -- of the segment are the next ones of the stream in their order, as many as are counted; there are
  -- no more than the bound on envelopes, the bytes of all but the last are within the bound on bytes,
  -- and the bytes and the offset that the segment reports are those of the reads.
  pub read_segment-IsWithin :
      (s s' : InputStream) (e : Envelope Request) (size bytes_left envelopes_left : ℕ)
      → (next_envelope_size env.coded s).0 ≢ 0
      → read_envelope env.coded (next_envelope_size env.coded s).1 ≡ (some (e, size), s')
      → 1 ≤ envelopes_left
      → envelopes_left < 2 ^ 32
      → bytes_left < 2 ^ 32
      → IsWithin env.coded (before s bytes_left envelopes_left) envelopes_left (
        e ∷ (read_segment env s' size bytes_left envelopes_left).0,
        (read_segment env s' size bytes_left envelopes_left).1,
      )
  unfolding read_segment
  read_segment-IsWithin s s' e size bytes_left envelopes_left z h one envelopes bytes =
      elim (Bool-cases (ltb size bytes_left)) [
        | inr full ↦
            rw full (only-IsWithin s s' e size bytes_left envelopes_left z h one envelopes bytes)
        | inl room ↦ rw room (elim (Bool-cases (minus_uint32 envelopes_left 1 == 0)) [
          | inl none_left ↦
              rw none_left
                (only-IsWithin s s' e size bytes_left envelopes_left z h one envelopes bytes)
          | inr more ↦ rw more (
              further-IsWithin s s' e size bytes_left envelopes_left z h one envelopes bytes
                (ground arith) more)
        ])
      ]
