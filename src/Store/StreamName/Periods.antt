-- ===== src/Store/StreamName/Periods.antt =====
-- Which times share a stream, by `Store::StreamNameForTime` of src/zippylog/store.cpp.
use native.Mathlib.Nat.{div-add-mod', add-mul-div_right, div-div-eq-div-mul, mul_assoc, mul_comm}
use Prim.Native.String.{String}
use zippylog.Prelude.{
  ℕ, ◌+◌, ◌*◌, ◌/◌, ◌%◌, ◌<◌, ◌≤◌, ◌≡◌, refl, sym, ap, ◌∙◌, ◌≢◌, ◌↔◌, inl, inr, List, [], ◌∷◌, ◌++◌,
  Text, All, done, throws, done-injective, ◌||◌, print_padded, IsDigit, print_padded-IsDigit,
  value_from, value-print_padded, ltb, arith, Bool-cases,
}
use zippylog.Store.StreamName.{
  Time, dash, dashed, day_fields, hour_fields, slot, slot_fields, stream_name_for_time,
}
use zippylog.Store.StreamName.Names.{IsAllowed, IsTime, printed, stream_name-printed}

abbrev second_of_day : Time → ℕ
second_of_day t = t.hour * 3600 + t.min * 60 + t.sec

-- Both times lie on one day, and in one part of it, where the day is cut into parts of so many
-- seconds.
pub record SamePeriod (n : ℕ) (t u : Time) : Type 0 where
  pub same_year : t.year ≡ u.year
  pub same_month : t.mon ≡ u.mon
  pub same_day : t.mday ≡ u.mday
  pub same_part : second_of_day t / n ≡ second_of_day u / n

print-injective : (width a b : ℕ) → print_padded width a ≡ print_padded width b → a ≡ b
print-injective width a b e =
    sym (value-print_padded width a) ∙ (ap (value_from 0) e ∙ value-print_padded width b)

-- A text of digits ends at the first dash.
first_dash :
    (a b x y : Text)
    → All IsDigit a
    → All IsDigit b
    → a ++ dash ∷ x ≡ b ++ dash ∷ y
    → (a ≡ b) × (x ≡ y)
first_dash [] [] x y h k e = (refl, ground arith)
first_dash [] (d ∷ b) x y h k e = absurd (ground arith)
first_dash (c ∷ a) [] x y h k e = absurd (ground arith)
first_dash (c ∷ a) (d ∷ b) x y h k e =
    let (p, q) = first_dash a b x y h.1 k.1 (ground arith) in (ground arith, q)

-- So fields of digits are read back from the dashed text, one by one.
dashed-cons :
    (w a b : ℕ) (f g : Text) (fs gs : List Text)
    → dashed (print_padded w a ∷ f ∷ fs) ≡ dashed (print_padded w b ∷ g ∷ gs)
    → (a ≡ b) × (dashed (f ∷ fs) ≡ dashed (g ∷ gs))
unfolding dashed
dashed-cons w a b f g fs gs e =
    let (p, q) =
      first_dash (print_padded w a) (print_padded w b) _ _ (print_padded-IsDigit w a)
        (print_padded-IsDigit w b) e in
    (print-injective w a b p, q)

dashed-last : (w a b : ℕ) → dashed (print_padded w a ∷ []) ≡ dashed (print_padded w b ∷ []) → a ≡ b
unfolding dashed
dashed-last w a b e = print-injective w a b e

module _ (t u : Time) where
  day-eq :
      dashed (day_fields t) ≡ dashed (day_fields u)
      → (t.year ≡ u.year) × (t.mon ≡ u.mon) × (t.mday ≡ u.mday)
  day-eq e =
      let (y, e1) = dashed-cons 4 t.year u.year _ _ _ _ e in
      let (m, e2) = dashed-cons 2 t.mon u.mon _ _ _ _ e1 in (y, m, dashed-last 2 t.mday u.mday e2)

  hour-eq :
      dashed (hour_fields t) ≡ dashed (hour_fields u)
      → (t.year ≡ u.year) × (t.mon ≡ u.mon) × (t.mday ≡ u.mday) × (t.hour ≡ u.hour)
  hour-eq e =
      let (y, e1) = dashed-cons 4 t.year u.year _ _ _ _ e in
      let (m, e2) = dashed-cons 2 t.mon u.mon _ _ _ _ e1 in
      let (d, e3) = dashed-cons 2 t.mday u.mday _ _ _ _ e2 in
      (y, m, d, dashed-last 2 t.hour u.hour e3)

  slot-eq :
      (n : ℕ)
      → dashed (slot_fields t n) ≡ dashed (slot_fields u n)
      → (t.year ≡ u.year)
        × (t.mon ≡ u.mon)
        × (t.mday ≡ u.mday)
        × (t.hour ≡ u.hour)
        × (slot t n ≡ slot u n)
  slot-eq n e =
      let (y, e1) = dashed-cons 4 t.year u.year _ _ _ _ e in
      let (m, e2) = dashed-cons 2 t.mon u.mon _ _ _ _ e1 in
      let (d, e3) = dashed-cons 2 t.mday u.mday _ _ _ _ e2 in
      let (h, e4) = dashed-cons 2 t.hour u.hour _ _ _ _ e3 in
      let (s, e5) = dashed-cons 3 (slot t n) (slot u n) _ _ _ _ e4 in (y, m, d, h, s)

module _ (n : ℕ) (lo : 4 ≤ n) (e : 3600 % n ≡ 0) where
  hour_parts : 3600 ≡ 3600 / n * n
  hour_parts = omega (arith, div-add-mod' 3600 n)

  hour_seconds : (h : ℕ) → h * 3600 ≡ h * (3600 / n) * n
  hour_seconds h = ap (λ x. h * x) hour_parts ∙ sym (mul_assoc h (3600 / n) n)

  part-eq : (t : Time) → second_of_day t / n ≡ (t.min * 60 + t.sec) / n + t.hour * (3600 / n)
  part-eq t =
      ap (λ x. x / n) {y = t.min * 60 + t.sec + t.hour * (3600 / n) * n}
        (omega (arith, hour_seconds t.hour))
      ∙ add-mul-div_right (t.min * 60 + t.sec) (t.hour * (3600 / n)) {z = n} (omega arith)

  part_in_hour : (t : Time) → second_of_day t / n / (3600 / n) ≡ second_of_day t / 3600
  part_in_hour t =
      div-div-eq-div-mul (second_of_day t) n (3600 / n)
      ∙ ap (λ x. second_of_day t / x) (mul_comm n (3600 / n) ∙ sym hour_parts)

  -- The hour and the slot in it say which part of the day a time lies in.
  part_iff :
      (t u : Time)
      → IsTime t
      → IsTime u
      → (second_of_day t / n ≡ second_of_day u / n) ↔ ((t.hour ≡ u.hour) × (slot t n ≡ slot u n))
  part_iff t u ht hu = (
    (λ p.
        let same : second_of_day t / 3600 ≡ second_of_day u / 3600 =
          sym (part_in_hour t) ∙ (ap (λ x. x / (3600 / n)) p ∙ part_in_hour u) in
        let hours : t.hour ≡ u.hour = omega (arith, ht.minute, ht.second, hu.minute, hu.second) in
        (hours, omega (arith, part-eq t, part-eq u, ap (λ (x : ℕ). x * (3600 / n)) hours))),
    (λ (h, s). omega (arith, part-eq t, part-eq u, ap (λ (x : ℕ). x * (3600 / n)) h)),
  )

printed-slot : (t : Time) (n : ℕ) → n < 3600 → printed t n ≡ dashed (slot_fields t n)
printed-slot t n h = ground arith

module _ (t u : Time) (ht : IsTime t) (hu : IsTime u) where
  day_case : (printed t 86400 ≡ printed u 86400) ↔ SamePeriod 86400 t u
  day_case = (
    (λ e.
        let (y, m, d) = day-eq t u e in
        record {
          same_year = y;
          same_month = m;
          same_day = d;
          same_part = omega (arith, ht.hour, ht.minute, ht.second, hu.hour, hu.minute, hu.second);
        }),
    (λ s i. dashed (
        print_padded 4 (s.same_year i)
        ∷ print_padded 2 (s.same_month i)
        ∷ print_padded 2 (s.same_day i)
        ∷ [])),
  )

  hour_case : (printed t 3600 ≡ printed u 3600) ↔ SamePeriod 3600 t u
  hour_case = (
    (λ e.
        let (y, m, d, h) = hour-eq t u e in
        record {
          same_year = y;
          same_month = m;
          same_day = d;
          same_part = omega (arith, h, ht.minute, ht.second, hu.minute, hu.second);
        }),
    (λ s.
        let h : t.hour ≡ u.hour =
          omega (arith, s.same_part, ht.minute, ht.second, hu.minute, hu.second) in
        λ i. dashed (
          print_padded 4 (s.same_year i)
          ∷ print_padded 2 (s.same_month i)
          ∷ print_padded 2 (s.same_day i)
          ∷ print_padded 2 (h i)
          ∷ [])),
  )

  slot_case :
      (n : ℕ)
      → 4 ≤ n
      → 3600 % n ≡ 0
      → (dashed (slot_fields t n) ≡ dashed (slot_fields u n)) ↔ SamePeriod n t u
  slot_case n lo e = (
    (λ q.
        let (y, m, d, h, s) = slot-eq t u n q in
        record {
          same_year = y;
          same_month = m;
          same_day = d;
          same_part = (part_iff n lo e t u ht hu).1 (h, s);
        }),
    (λ q.
        let (h, s) = (part_iff n lo e t u ht hu).0 q.same_part in
        λ i. dashed (
          print_padded 4 (q.same_year i)
          ∷ print_padded 2 (q.same_month i)
          ∷ print_padded 2 (q.same_day i)
          ∷ print_padded 2 (h i)
          ∷ print_padded 3 (s i)
          ∷ print_padded 3 (3600 / n)
          ∷ [])),
  )

  printed_iff : (n : ℕ) → IsAllowed n → (printed t n ≡ printed u n) ↔ SamePeriod n t u
  printed_iff n (inl e) = rw e day_case
  printed_iff n (inr (inl e)) = rw e hour_case
  printed_iff n (inr (inr (lo, hi, e))) =
      rw (printed-slot t n hi, printed-slot u n hi) (slot_case n lo e)

  -- Two times of the calendar have the same stream exactly when they lie on one day and in one of
  -- the parts of so many seconds into which it is cut.
  pub same_stream_iff :
      (n : ℕ)
      → IsAllowed n
      → (stream_name_for_time t n ≡ stream_name_for_time u n) ↔ SamePeriod n t u
  same_stream_iff n k =
      let (to, from) = printed_iff n k in
      (
        (λ e. to (
            done-injective
              (sym (stream_name-printed t n ht k) ∙ (e ∙ stream_name-printed u n hu k)))),
        (λ s.
            stream_name-printed t n ht k ∙ (ap done (from s) ∙ sym (stream_name-printed u n hu k))),
      )

-- A number of seconds that is not permitted is refused, whatever the time, and one that is permitted
-- is not.
pub stream_name-throws_iff :
    (t : Time) (n : ℕ)
    → IsTime t
    → ((e : String) × (stream_name_for_time t n ≡ throws e)) ↔ ¬ (IsAllowed n)
unfolding stream_name_for_time
stream_name-throws_iff t n h = (
  (λ (e, q) k. ground (arith, stream_name-printed t n h k)),
  (λ k.
      let not_day : n ≢ 86400 = λ q. k (inl q) in
      let not_hour : n ≢ 3600 = λ q. k (inr (inl q)) in
      elim (Bool-cases (ltb 3600 n || ltb n 4)) [
        | inl out ↦ ("seconds_per_file value not valid", ground arith)
        | inr within ↦
            let lo : 4 ≤ n = ground arith in
            let hi : n < 3600 = ground arith in
            let uneven : 3600 % n ≢ 0 = λ q. k (inr (inr (lo, hi, q))) in
            ("seconds_per_file does not divide into 3600 evenly", ground arith)
      ]),
)
