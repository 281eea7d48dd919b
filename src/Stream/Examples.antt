-- ===== src/Stream/Examples.antt =====
-- Tests of the model of src/zippylog/stream.cpp on concrete streams, and its theorem at such streams, with
-- numbers in groups of seven bits, the lowest first, as protocol buffers write them.
use zippylog.Prelude.{
  ℕ, zero, suc, ◌+◌, ◌-◌, ◌*◌, ◌/◌, ◌%◌, ◌^◌, ◌<◌, arith, ◌≡◌, refl, ap, inl, inr, true, false,
  Bool-cases, Option, none, some, [], ◌∷◌, ◌++◌, Text, length, drop, take, ltb, if◌then◌else◌, done,
}
use zippylog.Envelope.{Envelope, new_envelope}
use zippylog.Stream.{
  CodedInput, InputStream, prefix_length, open_input, next_envelope_size, read_envelope,
}
use zippylog.Stream.Output.{
  CodedOutput, write_bytes, open_output, close_output, write_stream_header, flush,
}
use zippylog.Stream.Sessions.{session, write_each, IsWriting}
use zippylog.Stream.RoundTrip.{Reads, AgreeOn, IsParsed, no_more, one_more, sessions-read}

-- A number in at most so many groups behind the first.
unfoldable groups : ℕ → ℕ → Text
groups zero n = n ∷ []
groups (suc more) n =
    let rest = groups more (n / 128) in if ltb n 128 then n ∷ [] else (128 + n % 128) ∷ rest

abbrev above : ℕ → Option (ℕ × Text) → Option (ℕ × Text)
above b none = none
above b (some (m, rest)) = some (b - 128 + 128 * m, rest)

unfoldable ungrouped : Text → Option (ℕ × Text)
ungrouped [] = none
ungrouped (b ∷ bs) = let rest = ungrouped bs in if ltb b 128 then some (b, bs) else above b rest

-- The numbers that so many groups hold.
abbrev bound : ℕ → ℕ
bound zero = 128
bound (suc more) = 128 * bound more

continued :
    (b m n : ℕ) (bs rest : Text)
    → ltb b 128 ≡ false
    → ungrouped bs ≡ some (m, rest)
    → b - 128 + 128 * m ≡ n
    → ungrouped (b ∷ bs) ≡ some (n, rest)
unfolding ungrouped
continued b m n bs rest e u v = rw (e, u, ungrouped) (ap (λ k. some (k, rest)) v)

ungrouped-groups :
    (more n : ℕ) (rest : Text) → n < bound more → ungrouped (groups more n ++ rest) ≡ some (n, rest)
unfolding groups ungrouped
ungrouped-groups zero n rest h = ground arith
ungrouped-groups (suc more) n rest h = elim (Bool-cases (ltb n 128)) [
  | inl e ↦ rw (e, groups) (rw (e, ungrouped) refl)
  | inr e ↦
      rw (e, groups)
        (continued (128 + n % 128) (n / 128) n (groups more (n / 128) ++ rest) rest (ground arith)
          (ungrouped-groups more (n / 128) rest (omega (arith, h))) (omega arith))
]

length-groups : (n : ℕ) → n < 2 ^ 28 → length (groups 3 n) ≡ prefix_length n
unfolding groups prefix_length
length-groups n h = ground arith

abbrev input : CodedInput ℕ
input = record {
  read_varint = ungrouped;
  read_message = λ n t. (some (record (new_envelope 0) { message = take n t ∷ [] }), drop n t);
}

abbrev output : CodedOutput ℕ
output = record {
  opens = true;
  stats = true;
  put = λ file t. (true, file ++ t);
  flushes = true;
  varint = groups 3;
  byte_size = λ e. 0;
  serialize = λ e. (false, []);
}

abbrev an_envelope : Text → Envelope ℕ
an_envelope t = record (new_envelope 0) { message = t ∷ [] }

input-AgreeOn : AgreeOn input output
unfolding ungrouped
input-AgreeOn = record {
  reads_varint = λ n rest h. ungrouped-groups 3 n rest (omega (arith, h));
  varint_length = length-groups;
  at_end = refl;
}

output-IsWriting : IsWriting output
output-IsWriting = record { opens = refl; stats = refl; flushes = refl; puts = λ file t. refl }

three_bytes : IsParsed input output (7 ∷ 8 ∷ 9 ∷ []) (an_envelope (7 ∷ 8 ∷ 9 ∷ []))
three_bytes = record { has_bytes = omega arith; is_short = omega arith; parses = λ rest. refl }

one_byte : IsParsed input output (5 ∷ []) (an_envelope (5 ∷ []))
one_byte = record { has_bytes = omega arith; is_short = omega arith; parses = λ rest. refl }

sessions-read_example :
    (first file : Text) × (s v : InputStream) × (session output [] ((7 ∷ 8 ∷ 9 ∷ []) ∷ [])
      ≡ done first)
    × (session output first ((5 ∷ []) ∷ []) ≡ done file)
    × (open_input file ≡ done s)
    × Reads input s (an_envelope (7 ∷ 8 ∷ 9 ∷ []) ∷ an_envelope (5 ∷ []) ∷ []) v
    × (v.offset ≡ length file)
    × ((read_envelope input v).0 ≡ none)
sessions-read_example =
    sessions-read input output input-AgreeOn output-IsWriting (one_more three_bytes no_more)
      (one_more one_byte no_more)

-- An envelope of no bytes is written, and the stream cannot be read beyond it: its size is remembered, and
-- is 0 whenever an envelope is read.
empty_envelope : session output [] ([] ∷ (5 ∷ []) ∷ []) ≡ done (1 ∷ 0 ∷ 1 ∷ 5 ∷ [])
unfolding session open_output write_stream_header flush write_each write_bytes close_output groups
empty_envelope = refl

abbrev behind_empty : InputStream
behind_empty = record {
  file = 1 ∷ 0 ∷ 1 ∷ 5 ∷ [];
  rest = 1 ∷ 5 ∷ [];
  have_next_size = true;
  next_size = 0;
  offset = 1;
}

stuck :
    (read_envelope input (record behind_empty { rest = 0 ∷ 1 ∷ 5 ∷ []; have_next_size = false })
      ≡ (none, behind_empty))
    × (read_envelope input behind_empty ≡ (none, behind_empty))
unfolding read_envelope next_envelope_size ungrouped
stuck = (refl, refl)
