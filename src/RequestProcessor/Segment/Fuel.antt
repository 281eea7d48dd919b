-- ===== src/RequestProcessor/Segment/Fuel.antt =====
-- src/zippylog/request_processor.cpp, `ProcessGetStream`: the fuel of the loop is enough.
use zippylog.Prelude.{
  ℕ, zero, suc, ◌^◌, ◌≤◌, ◌<◌, ◌≡◌, refl, ap, inl, inr, false, Option, none, some, ◌∷◌, ltb, ◌==◌,
  arith, Bool-cases,
}
use zippylog.Envelope.{Envelope}
use zippylog.Stream.{InputStream, next_envelope_size, read_envelope}
use zippylog.RequestProcessor.Messages.{Request}
use zippylog.RequestProcessor.State.{Environment}
use zippylog.RequestProcessor.Segment.{Reading, read_more}
use zippylog.RequestProcessor.Segment.Rounds.{after}

module _ (env : Environment) where
  -- A round on two amounts of fuel, by what the read gives.
  round :
      (n m : ℕ) (r : Reading)
      → ((size : ℕ) (s' : InputStream)
          → (r.envelopes_left == 1) ≡ false
          → read_more env m (after r size s') ≡ read_more env n (after r size s'))
      → ((next_envelope_size env.coded r.stream).0 == 0) ≡ false
      → (got : Option (Envelope Request × ℕ) × InputStream)
      → read_envelope env.coded (next_envelope_size env.coded r.stream).1 ≡ got
      → read_more env (suc m) r ≡ read_more env (suc n) r
  unfolding read_more
  round n m r ih z (none, s') h = rw (z, ap (λ x. x.0) h, ap (λ x. x.1) h) refl
  round n m r ih z (some (e, size), s') h =
      rw (z, ap (λ x. x.0) h, ap (λ x. x.1) h)
        (elim (Bool-cases (ltb r.bytes_left size)) [
          | inl over ↦ rw over refl
          | inr within ↦ rw within (elim (Bool-cases (r.envelopes_left == 1)) [
            | inl one ↦ rw one refl
            | inr more ↦ rw more (ap (λ x. (e ∷ x.0, x.1)) (ih size s' more))
          ])
        ])

  enough :
      (n m : ℕ) (r : Reading)
      → r.envelopes_left ≡ n
      → 1 ≤ n
      → n < 2 ^ 32
      → n ≤ m
      → read_more env m r ≡ read_more env n r
  unfolding read_more
  enough zero m r e one small le = elim one [ ]
  enough (suc n) zero r e one small le = elim le [ ]
  enough (suc n) (suc m) r e one small le =
      elim (Bool-cases ((next_envelope_size env.coded r.stream).0 == 0)) [
        | inl z ↦ rw z refl
        | inr z ↦
            round n m r
              (λ size s' more.
                enough n m (after r size s') (omega arith) (ground arith) (omega arith)
                  (omega arith))
              z (read_envelope env.coded (next_envelope_size env.coded r.stream).1) refl
      ]

  -- With at least one envelope left to send, the loop ends by itself within as many rounds: on any
  -- amount of fuel that is not less it reads the same envelopes and leaves the same variables.
  pub read_more_enough :
      (fuel : ℕ) (r : Reading)
      → 1 ≤ r.envelopes_left
      → r.envelopes_left < 2 ^ 32
      → r.envelopes_left ≤ fuel
      → read_more env fuel r ≡ read_more env r.envelopes_left r
  read_more_enough fuel r one small le = enough r.envelopes_left fuel r refl one small le
