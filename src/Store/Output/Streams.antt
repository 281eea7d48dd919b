-- ===== src/Store/Output/Streams.antt =====
-- One open stream for each path: `Store::ObtainOutputStream` of src/zippylog/store.cpp.
use zippylog.Prelude.{
  ℕ, ◌+◌, ◌≡◌, refl, sym, ap, subst, done-injective, ◌∙◌, inl, inr, true, false, Bool, Option, none,
  some, List, [], ◌∷◌, Text, text_eq, text_eq_iff, text_eq_self, Outcome, done, throws, faults,
  Option-cases, if◌then◌else◌, arith,
}
use zippylog.Store.Path.{stream_path}
use zippylog.Store.StreamName.{stream_name_for_time}
use zippylog.Store.StreamName.Names.{IsAllowed, IsTime}
use zippylog.Store.StreamName.Periods.{SamePeriod, same_stream_iff}
use zippylog.Store.Output.{
  OpenOutputStream, Outputs, System, find, assign, create_output_stream, open_stream,
  obtain_output_stream,
}

find-assign :
    (k j : Text) (v : OpenOutputStream) (m : List (Text × OpenOutputStream))
    → find j (assign k v m) ≡ (if text_eq k j then some v else find j m)
unfolding find assign
find-assign k j v [] = refl
find-assign k j v ((i, w) ∷ m) =
    ground (arith, text_eq_iff k j, text_eq_iff i k, text_eq_iff i j, find-assign k j v m)

abbrev fresh : {Disk : Type 0} → Outputs Disk → OpenOutputStream
fresh s = record { stream = s.next_stream; last_write_time = none }

-- The three ways in which a stream is obtained, or not.
pub data Opened {Disk : Type 0} (k : Text) (s : Outputs Disk)
    : Option OpenOutputStream → Outputs Disk → Type 0 where
  reused : (os : OpenOutputStream) → find k s.out_streams ≡ some os → Opened k s (some os) s
  failed : (d : Disk) → find k s.out_streams ≡ none → Opened k s none (record s { disk = d })
  created :
      (d : Disk)
      → find k s.out_streams ≡ none
      → Opened k s (some (fresh s)) (record s {
        out_streams = assign k (fresh s) s.out_streams;
        next_stream = s.next_stream + 1;
        disk = d;
      })

module _ {Disk : Type 0} (sys : System Disk) (root b c t : Text) (s : Outputs Disk) where
  open-reused :
      (os : OpenOutputStream)
      → find (stream_path b c t) s.out_streams ≡ some os
      → open_stream sys root b c t s ≡ done (some os, s)
  unfolding open_stream
  open-reused os e = ground arith

  open-new :
      (o : Outcome (Bool × Disk))
      → find (stream_path b c t) s.out_streams ≡ none
      → create_output_stream sys root b c t s.disk ≡ o
      → open_stream sys root b c t s ≡ elim o [
        | throws e ↦ throws e
        | faults ↦ faults
        | done (true, d) ↦ done (
          some (fresh s),
          record s {
            out_streams = assign (stream_path b c t) (fresh s) s.out_streams;
            next_stream = s.next_stream + 1;
            disk = d;
          },
        )
        | done (false, d) ↦ done (none, record s { disk = d })
      ]
  unfolding open_stream
  open-new o e h = ground arith

  result-Opened :
      {q r : Option OpenOutputStream} {u s' : Outputs Disk}
      → open_stream sys root b c t s ≡ done (q, u)
      → open_stream sys root b c t s ≡ done (r, s')
      → Opened (stream_path b c t) s q u
      → Opened (stream_path b c t) s r s'
  result-Opened {q} {r} {u} {s'} h e o =
      subst (λ (p : Option OpenOutputStream × Outputs Disk). Opened (stream_path b c t) s p.0 p.1)
        {x = (q, u)} {y = (r, s')} (done-injective (sym h ∙ e)) o

  new-Opened :
      (o : Outcome (Bool × Disk)) {r : Option OpenOutputStream} {s' : Outputs Disk}
      → find (stream_path b c t) s.out_streams ≡ none
      → create_output_stream sys root b c t s.disk ≡ o
      → open_stream sys root b c t s ≡ done (r, s')
      → Opened (stream_path b c t) s r s'
  new-Opened (throws x) absent h e = absurd (ground (arith, open-new (throws x) absent h))
  new-Opened faults absent h e = absurd (ground (arith, open-new faults absent h))
  new-Opened (done (true, d)) absent h e =
      result-Opened (open-new (done (true, d)) absent h) e (created d absent)
  new-Opened (done (false, d)) absent h e =
      result-Opened (open-new (done (false, d)) absent h) e (failed d absent)

  pub open_stream-Opened :
      {r : Option OpenOutputStream} {s' : Outputs Disk}
      → open_stream sys root b c t s ≡ done (r, s')
      → Opened (stream_path b c t) s r s'
  open_stream-Opened e = elim (Option-cases (find (stream_path b c t) s.out_streams)) [
    | inl absent ↦ new-Opened (create_output_stream sys root b c t s.disk) absent refl e
    | inr (os, found) ↦ result-Opened (open-reused os found) e (reused os found)
  ]

-- What was obtained is found afterwards.
Opened-find :
    {Disk : Type 0} {k : Text} {s s' : Outputs Disk} {os : OpenOutputStream}
    → Opened k s (some os) s'
    → find k s'.out_streams ≡ some os
Opened-find {Disk} {k} {s} {os} o = found o refl
  where
    found :
        {r : Option OpenOutputStream} {u : Outputs Disk}
        → Opened k s r u
        → r ≡ some os
        → find k u.out_streams ≡ some os
    found (reused os' e) q = e ∙ q
    found (failed d e) q = cc
    found (created d e) q = ground (arith, find-assign k k (fresh s) s.out_streams, text_eq_self k)

obtain-named :
    {Disk : Type 0} (sys : System Disk) (root b c : Text) (n : ℕ) (time : Option ℕ)
    (s : Outputs Disk) (t : Text)
    → stream_name_for_time (sys.time_of time) n ≡ done t
    → obtain_output_stream sys root b c n time s ≡ open_stream sys root b c t s
unfolding obtain_output_stream
obtain-named sys root b c n time s t e = rw (e, obtain_output_stream)

module _ {Disk : Type 0} (sys : System Disk) (root : Text) (b c : Text) (n : ℕ)
    (time : Option ℕ) where
  pub obtained_name :
      (s : Outputs Disk) {r : Option OpenOutputStream} {s' : Outputs Disk}
      → obtain_output_stream sys root b c n time s ≡ done (r, s')
      → (t : Text) × (stream_name_for_time (sys.time_of time) n ≡ done t)
        × (open_stream sys root b c t s ≡ done (r, s'))
  unfolding obtain_output_stream
  obtained_name s e = ground arith

  -- A stream that was obtained is obtained again, with nothing changed, at every time of the same
  -- period and in every state in which the same streams are open, whatever the system would answer. The
  -- times are of the calendar, and files of so many seconds are allowed.
  pub obtain_again :
      (s : Outputs Disk) {os : OpenOutputStream} {s' : Outputs Disk} (later : Option ℕ)
      (u : Outputs Disk)
      → obtain_output_stream sys root b c n time s ≡ done (some os, s')
      → u.out_streams ≡ s'.out_streams
      → IsTime (sys.time_of time)
      → IsTime (sys.time_of later)
      → IsAllowed n
      → SamePeriod n (sys.time_of time) (sys.time_of later)
      → obtain_output_stream sys root b c n later u ≡ done (some os, u)
  obtain_again s {os} {s'} later u e q ht hu k p =
      let (t, named, o) = obtained_name s e in
      let same : stream_name_for_time (sys.time_of later) n ≡ done t =
        sym ((same_stream_iff _ _ ht hu n k).1 p) ∙ named in
      obtain-named sys root b c n later u t same
      ∙ open-reused sys root b c t u os
          (ap (find (stream_path b c t)) q ∙ Opened-find (open_stream-Opened sys root b c t s o))
