-- ===== src/RequestProcessor/Segment/Rounds.antt =====
-- src/zippylog/request_processor.cpp, `ProcessGetStream`: the rounds of the loop that reads a
-- segment.
use zippylog.Prelude.{
  ℕ, zero, suc, ◌+◌, ◌-◌, ◌%◌, ◌^◌, ◌≤◌, ◌<◌, ◌≡◌, ◌≢◌, refl, ap, ◌∙◌, false, Option, none, some,
  List, [], ◌∷◌, map, length, drop_last, ltb, ◌==◌, arith, Bool-cases, inl, inr,
}
use zippylog.Envelope.{Envelope}
use zippylog.Stream.{InputStream, CodedInput, next_envelope_size, read_envelope, finish_read}
use zippylog.RequestProcessor.Messages.{Request}
use zippylog.RequestProcessor.State.{Environment}
use zippylog.RequestProcessor.Segment.{Reading, minus_uint32, plus_uint32, read_more}

abbrev pub sum : List ℕ → ℕ
sum [] = 0
sum (n ∷ ns) = n + sum ns

-- The reads of a stream, one behind the other, with the bytes that each reports.
pub data Reads (coded : CodedInput Request)
    : InputStream → List (Envelope Request × ℕ) → InputStream → Type 0 where
  stop : {s : InputStream} → Reads coded s [] s
  next :
      {s s' s'' : InputStream} {e : Envelope Request} {n : ℕ} {items : List (Envelope Request × ℕ)}
      → (next_envelope_size coded s).0 ≢ 0
      → read_envelope coded (next_envelope_size coded s).1 ≡ (some (e, n), s')
      → Reads coded s' items s''
      → Reads coded s ((e, n) ∷ items) s''

abbrev pub sizes : List (Envelope Request × ℕ) → List ℕ
sizes items = map (λ i. i.1) items

-- What the loop made of `r`: `items` are the envelopes that it read.
pub record IsWithin (coded : CodedInput Request) (r : Reading) (n : ℕ)
    (result : List (Envelope Request) × Reading) : Type 0 where
  pub items : List (Envelope Request × ℕ)
  pub end : InputStream
  pub reads : Reads coded r.stream items end
  pub envelopes : map (λ i. i.0) items ≡ result.0
  pub offset : result.1.stream.offset ≡ end.offset
  pub count : length items ≤ n
  pub bytes : sum (drop_last (sizes items)) ≤ r.bytes_left
  pub bytes_read : result.1.bytes_read ≡ (r.bytes_read + sum (sizes items)) % 2 ^ 32
  pub envelopes_read : result.1.envelopes_read ≡ (r.envelopes_read + length items) % 2 ^ 32

-- The variables behind a round that is not the last.
abbrev pub after : Reading → ℕ → InputStream → Reading
after r size s' = record {
  stream = s';
  bytes_left = minus_uint32 r.bytes_left size;
  envelopes_left = minus_uint32 r.envelopes_left 1;
  bytes_read = plus_uint32 r.bytes_read size;
  envelopes_read = plus_uint32 r.envelopes_read 1;
}

sum-drop_last :
    (ns : List ℕ) (n bound : ℕ)
    → n ≤ bound
    → sum (drop_last ns) ≤ bound - n
    → sum (drop_last (n ∷ ns)) ≤ bound
sum-drop_last [] n bound h k = omega arith
sum-drop_last (m ∷ ns) n bound h k = omega arith

module _ (coded : CodedInput Request) where
  next-offset : (s : InputStream) → (next_envelope_size coded s).1.offset ≡ s.offset
  unfolding next_envelope_size
  next-offset s = ground arith

  -- A read that fails leaves the offset.
  failed-offset : (s s' : InputStream) → read_envelope coded s ≡ (none, s') → s'.offset ≡ s.offset
  unfolding read_envelope next_envelope_size finish_read
  failed-offset s s' h = ground arith

  empty-IsWithin :
      (r : Reading) (n : ℕ) (s : InputStream)
      → s.offset ≡ r.stream.offset
      → r.bytes_read < 2 ^ 32
      → r.envelopes_read < 2 ^ 32
      → IsWithin coded r n ([], record r { stream = s })
  empty-IsWithin r n s o hb he = record {
    items = [];
    end = r.stream;
    reads = stop;
    envelopes = refl;
    offset = o;
    count = omega arith;
    bytes = omega arith;
    bytes_read = omega arith;
    envelopes_read = omega arith;
  }

  -- One more read in front of what `IsWithin` says of the rest.
  pub next-IsWithin :
      (r : Reading) (n size : ℕ) (e : Envelope Request) (s' : InputStream)
      (rest : List (Envelope Request) × Reading)
      → (next_envelope_size coded r.stream).0 ≢ 0
      → read_envelope coded (next_envelope_size coded r.stream).1 ≡ (some (e, size), s')
      → size ≤ r.bytes_left
      → r.bytes_left < 2 ^ 32
      → IsWithin coded (after r size s') n rest
      → IsWithin coded r (suc n) (e ∷ rest.0, rest.1)
  next-IsWithin r n size e s' rest z h le small w = record {
    items = (e, size) ∷ w.items;
    end = w.end;
    reads = next z h w.reads;
    envelopes = ap (◌∷◌ e) w.envelopes;
    offset = w.offset;
    count = omega (arith, w.count);
    bytes = sum-drop_last (sizes w.items) size r.bytes_left le (omega (arith, w.bytes));
    bytes_read = omega (arith, w.bytes_read);
    envelopes_read = omega (arith, w.envelopes_read);
  }

  -- The last round: nothing is read after it.
  pub last-IsWithin :
      (r : Reading) (n size left : ℕ) (e : Envelope Request) (s' : InputStream)
      → (next_envelope_size coded r.stream).0 ≢ 0
      → read_envelope coded (next_envelope_size coded r.stream).1 ≡ (some (e, size), s')
      → IsWithin coded r (suc n) (
        e ∷ [],
        record r {
          stream = s';
          bytes_read = plus_uint32 r.bytes_read size;
          envelopes_read = plus_uint32 r.envelopes_read 1;
          envelopes_left = left;
        },
      )
  last-IsWithin r n size left e s' z h = record {
    items = (e, size) ∷ [];
    end = s';
    reads = next z h stop;
    envelopes = refl;
    offset = refl;
    count = omega arith;
    bytes = omega arith;
    bytes_read = omega arith;
    envelopes_read = omega arith;
  }

-- The values of `uint32` variables, with an envelope left to read.
pub record IsReady (r : Reading) : Type 0 where
  pub one : 1 ≤ r.envelopes_left
  pub envelopes : r.envelopes_left < 2 ^ 32
  pub bytes : r.bytes_left < 2 ^ 32
  pub bytes_read : r.bytes_read < 2 ^ 32
  pub envelopes_read : r.envelopes_read < 2 ^ 32

after-IsReady :
    (r : Reading) (size : ℕ) (s' : InputStream)
    → IsReady r
    → (r.envelopes_left == 1) ≡ false
    → IsReady (after r size s')
after-IsReady r size s' ready more = record {
  one = ground (arith, ready.one, ready.envelopes);
  envelopes = omega arith;
  bytes = omega arith;
  bytes_read = omega arith;
  envelopes_read = omega arith;
}

-- The loop on as much fuel as there are envelopes left.
module _ (env : Environment) where
  -- A round, by what the read gives.
  round :
      (n : ℕ) (r : Reading)
      → r.envelopes_left ≡ suc n
      → IsReady r
      → ((r' : Reading)
          → r'.envelopes_left ≡ n
          → IsReady r'
          → IsWithin env.coded r' n (read_more env n r'))
      → ((next_envelope_size env.coded r.stream).0 == 0) ≡ false
      → (got : Option (Envelope Request × ℕ) × InputStream)
      → read_envelope env.coded (next_envelope_size env.coded r.stream).1 ≡ got
      → IsWithin env.coded r (suc n) (read_more env (suc n) r)
  unfolding read_more
  round n r el ready ih z (none, s') h =
      rw (z, ap (λ x. x.0) h, ap (λ x. x.1) h)
        (empty-IsWithin env.coded r (suc n) s'
          (failed-offset env.coded (next_envelope_size env.coded r.stream).1 s' h
            ∙ next-offset env.coded r.stream)
          ready.bytes_read ready.envelopes_read)
  round n r el ready ih z (some (e, size), s') h =
      rw (z, ap (λ x. x.0) h, ap (λ x. x.1) h)
        (elim (Bool-cases (ltb r.bytes_left size)) [
          | inl over ↦
              rw over (last-IsWithin env.coded r n size r.envelopes_left e s' (ground arith) h)
          | inr within ↦ rw within (elim (Bool-cases (r.envelopes_left == 1)) [
            | inl one ↦ rw one (last-IsWithin env.coded r n size 0 e s' (ground arith) h)
            | inr more ↦ rw more (
                next-IsWithin env.coded r n size e s' (read_more env n (after r size s'))
                  (ground arith) h (ground arith) ready.bytes
                  (ih (after r size s') (omega arith) (after-IsReady r size s' ready more)))
          ])
        ])

  zero_left : (r : Reading) → r.envelopes_left ≡ 0 → IsReady r → ⊥
  zero_left r el ready = omega (arith, ready.one)

  pub more-IsWithin :
      (n : ℕ) (r : Reading)
      → r.envelopes_left ≡ n
      → IsReady r
      → IsWithin env.coded r n (read_more env n r)
  unfolding read_more
  more-IsWithin zero r el ready = elim (zero_left r el ready) [ ]
  more-IsWithin (suc n) r el ready =
      elim (Bool-cases ((next_envelope_size env.coded r.stream).0 == 0)) [
        | inl z ↦ rw z (
            empty-IsWithin env.coded r (suc n) (next_envelope_size env.coded r.stream).1
              (next-offset env.coded r.stream) ready.bytes_read ready.envelopes_read)
        | inr z ↦
            round n r el ready (more-IsWithin n) z
              (read_envelope env.coded (next_envelope_size env.coded r.stream).1) refl
      ]
