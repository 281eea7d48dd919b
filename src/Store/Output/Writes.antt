-- ===== src/Store/Output/Writes.antt =====
-- Writes of envelopes by `Store::WriteEnvelope` of src/zippylog/store.cpp.
use mathlib.Core.List.{append_assoc}
use zippylog.Prelude.{
  ℕ, ◌≡◌, refl, ap, ◌∙◌, inl, inr, Bool, true, Option, none, some, [], ◌∷◌, ◌++◌, Text, Outcome,
  done, throws, faults, arith,
}
use zippylog.Store.StreamName.Names.{IsTime}
use zippylog.Store.StreamName.Periods.{SamePeriod}
use zippylog.Store.Output.{OpenOutputStream, Outputs, System, obtain_output_stream, write_envelope}
use zippylog.Store.Output.Streams.{
  obtain_again, Opened, reused, failed, created, open_stream-Opened, obtained_name,
}

module _ {Disk : Type 0} (sys : System Disk) (root b c : Text) where
  abbrev Wrote : Text → Option ℕ → Outputs Disk → Outputs Disk → Type 0
  Wrote x time s s' =
      (os : OpenOutputStream) × (u : Outputs Disk) × (obtain_output_stream sys root b c 3600 time s
        ≡ done (some os, u))
      × (s' ≡ record u { written = u.written ++ (os.stream, x) ∷ [] })

  write_cases :
      (ok : Bool) (x : Text) (time : Option ℕ) (s : Outputs Disk) {s' : Outputs Disk}
      (o : Outcome (Option OpenOutputStream × Outputs Disk))
      → obtain_output_stream sys root b c 3600 time s ≡ o
      → write_envelope sys root b c (ok, x) time s ≡ done (true, s')
      → Wrote x time s s'
  unfolding write_envelope
  write_cases ok x time s (throws _) h e = absurd (ground arith)
  write_cases ok x time s faults h e = absurd (ground arith)
  write_cases ok x time s (done (none, u)) h e = absurd (ground arith)
  write_cases ok x time s (done (some os, u)) h e = (os, u, h, ground arith)

  write-again :
      (y : Bool × Text) (time : Option ℕ) (u : Outputs Disk) (os : OpenOutputStream)
      → obtain_output_stream sys root b c 3600 time u ≡ done (some os, u)
      → write_envelope sys root b c y time u
        ≡ done (y.0, record u { written = u.written ++ (os.stream, y.1) ∷ [] })
  unfolding write_envelope
  write-again y time u os h = ground arith

  Opened-written :
      {k : Text} {s u : Outputs Disk} {r : Option OpenOutputStream}
      → Opened k s r u
      → u.written ≡ s.written
  Opened-written (reused os e) = refl
  Opened-written (failed d e) = refl
  Opened-written (created d e) = refl

  obtain-written :
      (time : Option ℕ) (s : Outputs Disk) {r : Option OpenOutputStream} {u : Outputs Disk}
      → obtain_output_stream sys root b c 3600 time s ≡ done (r, u)
      → u.written ≡ s.written
  obtain-written time s e =
      let (t, _, o) = obtained_name sys root b c 3600 time s e in
      Opened-written (open_stream-Opened sys root b c t s o)

  -- Once an envelope is written with the result true, another for the same stream set and the same hour
  -- goes to the same stream: what the stream's own function writes of it comes behind the first, the
  -- result is that of this function, and nothing else is written.
  pub write_twice :
      (ok : Bool) (x : Text) (y : Bool × Text) (time later : Option ℕ) (s : Outputs Disk)
      {s' : Outputs Disk}
      → write_envelope sys root b c (ok, x) time s ≡ done (true, s')
      → IsTime (sys.time_of time)
      → IsTime (sys.time_of later)
      → SamePeriod 3600 (sys.time_of time) (sys.time_of later)
      → (stream : ℕ) × (s'.written ≡ s.written ++ (stream, x) ∷ [])
        × (write_envelope sys root b c y later s'
            ≡ done (y.0, record s' { written = s.written ++ (stream, x) ∷ (stream, y.1) ∷ [] }))
  write_twice ok x y time later s {s'} e ht hu p =
      let (os, u, o, q) =
        write_cases ok x time s (obtain_output_stream sys root b c 3600 time s) refl e in
      let before : u.written ≡ s.written = obtain-written time s o in
      let first : s'.written ≡ s.written ++ (os.stream, x) ∷ [] =
        ap (λ v. v.written) q ∙ ap (λ w. w ++ (os.stream, x) ∷ []) before in
      let again : obtain_output_stream sys root b c 3600 later s' ≡ done (some os, s') =
        obtain_again sys root b c 3600 time s later s' o (ap (λ v. v.out_streams) q) ht hu
          (inr (inl refl)) p in
      (
        os.stream,
        first,
        write-again y later s' os again
            ∙ ap (λ w. done (y.0, record s' { written = w }))
                (ap (λ w. w ++ (os.stream, y.1) ∷ []) first
                  ∙ append_assoc s.written ((os.stream, x) ∷ []) ((os.stream, y.1) ∷ [])),
      )
