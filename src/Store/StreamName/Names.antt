-- ===== src/Store/StreamName/Names.antt =====
-- The names that `Store::StreamNameForTime` of src/zippylog/store.cpp gives.
use native.Mathlib.Nat.{div-add-mod', div-lt_iff_lt-mul}
use zippylog.Prelude.{
  ℕ, ◌+◌, ◌*◌, ◌/◌, ◌%◌, ◌<◌, ◌≤◌, ◌≡◌, ap, ◌⊎◌, inl, inr, true, List, [], ◌∷◌, Text, All,
  All-append, done, print_padded, IsDigit, length-print_padded, print_padded-IsDigit, take_all,
  length, length-append, ltb, ◌==◌, if◌then◌else◌, arith,
}
use zippylog.Store.Path.Grammar.{IsNameChar, IsPlain}
use zippylog.Store.StreamName.{
  Time, dash, dashed, sprintf, day_fields, hour_fields, slot, slot_fields, stream_name_for_time,
}

-- The seconds that a stream may cover: a day, an hour, or a part of an hour of four seconds or more.
abbrev pub IsAllowed : ℕ → Type 0
IsAllowed n = (n ≡ 86400) ⊎ ((n ≡ 3600) ⊎ ((4 ≤ n) × (n < 3600) × (3600 % n ≡ 0)))

-- A time of the Gregorian calendar; a leap second is no second of it.
pub record IsTime (t : Time) : Type 0 where
  pub four_digits : t.year < 10000
  pub month : t.mon < 13
  pub day : t.mday < 32
  pub hour : t.hour < 24
  pub minute : t.min < 60
  pub second : t.sec < 60

IsDigit-IsPlain : (s : Text) → All IsDigit s → IsPlain s
IsDigit-IsPlain [] h = tt
IsDigit-IsPlain (c ∷ s) h = (inl h.0, IsDigit-IsPlain s h.1)

dashed-IsPlain : (fs : List Text) → All (All IsDigit) fs → IsPlain (dashed fs)
unfolding dashed
dashed-IsPlain [] h = tt
dashed-IsPlain (a ∷ []) h = IsDigit-IsPlain a h.0
dashed-IsPlain (a ∷ b ∷ fs) h =
    All-append IsNameChar a _ (IsDigit-IsPlain a h.0) (ground arith, dashed-IsPlain (b ∷ fs) h.1)

length-dashed :
    (a b : Text) (fs : List Text)
    → length (dashed (a ∷ b ∷ fs)) ≡ length a + 1 + length (dashed (b ∷ fs))
unfolding dashed
length-dashed a b fs = omega (arith, length-append a (dash ∷ dashed (b ∷ fs)))

sprintf_fits :
    (size used : ℕ) (s : Text) → length s ≡ used → used < size → sprintf size used s ≡ done s
sprintf_fits size used s e h =
    let fits : ltb (length s) size ≡ true = ground arith in
    rw fits (ap done (take_all used s (omega arith)))

module _ (n : ℕ) (k : 4 ≤ n) (e : 3600 % n ≡ 0) where
  slots : 3600 ≡ 3600 / n * n
  slots = omega (arith, div-add-mod' 3600 n)

  slots_bound : 3600 / n < 1000
  slots_bound = (div-lt_iff_lt-mul (omega arith)).1 (omega arith)

  pub slot-le : (t : Time) → IsTime t → slot t n ≤ 3600 / n
  slot-le t h =
      let below : (t.min * 60 + t.sec) / n < 3600 / n =
        (div-lt_iff_lt-mul {k = n} {x = t.min * 60 + t.sec} {y = 3600 / n} (omega arith)).1
          (omega (arith, slots, h.minute, h.second)) in
      omega arith

module _ (t : Time) (h : IsTime t) where
  year_width : length (print_padded 4 t.year) ≡ 4
  year_width = length-print_padded 3 t.year h.four_digits

  mon_width : length (print_padded 2 t.mon) ≡ 2
  mon_width = length-print_padded 1 t.mon (omega (arith, h.month))

  mday_width : length (print_padded 2 t.mday) ≡ 2
  mday_width = length-print_padded 1 t.mday (omega (arith, h.day))

  hour_width : length (print_padded 2 t.hour) ≡ 2
  hour_width = length-print_padded 1 t.hour (omega (arith, h.hour))

  length-day : length (dashed (day_fields t)) ≡ 10
  unfolding dashed
  length-day = omega (
    arith,
    year_width,
    mon_width,
    mday_width,
    length-dashed (print_padded 4 t.year) (print_padded 2 t.mon) (print_padded 2 t.mday ∷ []),
    length-dashed (print_padded 2 t.mon) (print_padded 2 t.mday) [],
  )

  length-hour : length (dashed (hour_fields t)) ≡ 13
  unfolding dashed
  length-hour = omega (
    arith,
    year_width,
    mon_width,
    mday_width,
    hour_width,
    length-dashed (print_padded 4 t.year) (print_padded 2 t.mon)
        (print_padded 2 t.mday ∷ print_padded 2 t.hour ∷ []),
    length-dashed (print_padded 2 t.mon) (print_padded 2 t.mday) (print_padded 2 t.hour ∷ []),
    length-dashed (print_padded 2 t.mday) (print_padded 2 t.hour) [],
  )

  length-slots :
      (a b : ℕ)
      → a < 1000
      → b < 1000
      → length (dashed (print_padded 2 t.hour ∷ print_padded 3 a ∷ print_padded 3 b ∷ [])) ≡ 10
  unfolding dashed
  length-slots a b ha hb = omega (
    arith,
    hour_width,
    length-print_padded 2 a ha,
    length-print_padded 2 b hb,
    length-dashed (print_padded 2 t.hour) (print_padded 3 a) (print_padded 3 b ∷ []),
    length-dashed (print_padded 3 a) (print_padded 3 b) [],
  )

  length-slot : (n : ℕ) → 4 ≤ n → 3600 % n ≡ 0 → length (dashed (slot_fields t n)) ≡ 21
  length-slot n k e =
      let rest =
        print_padded 2 t.hour ∷ print_padded 3 (slot t n) ∷ print_padded 3 (3600 / n) ∷ [] in
      omega (
        arith,
        year_width,
        mon_width,
        mday_width,
        length-slots (slot t n) (3600 / n) (omega (arith, slot-le n k e t h, slots_bound n k e))
            (slots_bound n k e),
        length-dashed (print_padded 4 t.year) (print_padded 2 t.mon) (print_padded 2 t.mday ∷ rest),
        length-dashed (print_padded 2 t.mon) (print_padded 2 t.mday) rest,
        length-dashed (print_padded 2 t.mday) (print_padded 2 t.hour)
            (print_padded 3 (slot t n) ∷ print_padded 3 (3600 / n) ∷ []),
      )

-- What is printed for each kind of stream.
abbrev pub printed : Time → ℕ → Text
printed t n =
    dashed
      (if n == 86400 then day_fields t else if n == 3600 then hour_fields t else slot_fields t n)

pub stream_name-printed :
    (t : Time) (n : ℕ) → IsTime t → IsAllowed n → stream_name_for_time t n ≡ done (printed t n)
unfolding stream_name_for_time
stream_name-printed t n h (inl e) =
    rw e (sprintf_fits 11 10 (dashed (day_fields t)) (length-day t h) (omega arith))
stream_name-printed t n h (inr (inl e)) =
    rw e (sprintf_fits 14 13 (dashed (hour_fields t)) (length-hour t h) (omega arith))
stream_name-printed t n h (inr (inr (lo, hi, e))) =
    let fits : sprintf 22 21 (dashed (slot_fields t n)) ≡ done (dashed (slot_fields t n)) =
      sprintf_fits 22 21 (dashed (slot_fields t n)) (length-slot t h n lo e) (omega arith) in
    ground (arith, fits)

printed-digits :
    (t : Time) (n : ℕ)
    → All
        (All IsDigit)
        (if n == 86400 then day_fields t else if n == 3600 then hour_fields t else slot_fields t n)
printed-digits t n = ground (
  arith,
  print_padded-IsDigit 4 t.year,
  print_padded-IsDigit 2 t.mon,
  print_padded-IsDigit 2 t.mday,
  print_padded-IsDigit 2 t.hour,
  print_padded-IsDigit 3 (slot t n),
  print_padded-IsDigit 3 (3600 / n),
)

printed_long : (t : Time) (n : ℕ) → IsTime t → IsAllowed n → 10 ≤ length (printed t n)
printed_long t n h (inl e) = rw e (omega (arith, length-day t h))
printed_long t n h (inr (inl e)) = rw e (omega (arith, length-hour t h))
printed_long t n h (inr (inr (lo, hi, e))) = ground (arith, length-slot t h n lo e)

-- For a time of the calendar and a permitted number of seconds the name is made without writing
-- past the array, and it is a name that may stand in a store path.
pub stream_name-IsPlain :
    (t : Time) (n : ℕ)
    → IsTime t
    → IsAllowed n
    → (s : Text) × (stream_name_for_time t n ≡ done s) × IsPlain s × (10 ≤ length s)
stream_name-IsPlain t n h k = (
  printed t n,
  stream_name-printed t n h k,
  dashed-IsPlain _ (printed-digits t n),
  printed_long t n h k,
)
