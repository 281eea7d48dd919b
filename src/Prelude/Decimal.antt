-- ===== src/Prelude/Decimal.antt =====
-- Decimal printing: `%d` and `%0Nd` of the C library at numbers that are not negative.
use mathlib.Core.Path.{◌≡◌, refl, ap, ◌∙◌}
use mathlib.Core.List.{[], ◌∷◌, ◌++◌}
use mathlib.Core.Logic.{inl, inr}
use Prim.Native.Nat.{ℕ, zero, suc, ◌+◌, ◌-◌, ◌*◌, ◌/◌, ◌%◌, ◌^◌, ◌<◌, ◌≤◌}
use native.Mathlib.Omega.{arith}
use native.Mathlib.Nat.{pow-suc}
use zippylog.Prelude.Tests.{ltb, if◌then◌else◌, Bool-cases}
use zippylog.Prelude.Lists.{length, All, length-append, All-append}
use zippylog.Prelude.Texts.{Text}

digits_within : ℕ → ℕ → Text
digits_within zero n = []
digits_within (suc fuel) n =
    let front = digits_within fuel (n / 10) in
    if ltb n 10 then (b'0' + n) ∷ [] else front ++ (b'0' + n % 10) ∷ []

zeros : ℕ → Text
zeros zero = []
zeros (suc n) = b'0' ∷ zeros n

-- A number has fewer digits than its successor counts.
pub print_decimal : ℕ → Text
unfolding digits_within
print_decimal n = digits_within (suc n) n

unfoldable pub print_padded : ℕ → ℕ → Text
unfolding print_decimal zeros
print_padded width n = zeros (width - length (print_decimal n)) ++ print_decimal n

abbrev pub IsDigit : ℕ → Type 0
IsDigit c = (b'0' ≤ c) × (c ≤ b'9')

-- The number that digits stand for, behind those that are read already.
unfoldable pub value_from : ℕ → Text → ℕ
value_from acc [] = acc
value_from acc (c ∷ s) = value_from (acc * 10 + (c - b'0')) s

pub value_from-append :
    (acc : ℕ) (s t : Text) → value_from acc (s ++ t) ≡ value_from (value_from acc s) t
unfolding value_from
value_from-append acc [] t = refl
value_from-append acc (c ∷ s) t = value_from-append (acc * 10 + (c - b'0')) s t

value_from-snoc :
    (acc : ℕ) (s : Text) (c : ℕ) → value_from acc (s ++ c ∷ []) ≡ value_from acc s * 10 + (c - b'0')
unfolding value_from
value_from-snoc acc s c = value_from-append acc s (c ∷ [])

value_small : (n : ℕ) → value_from 0 ((b'0' + n) ∷ []) ≡ n
unfolding value_from
value_small n = omega arith

value-digits : (fuel n : ℕ) → n < fuel → value_from 0 (digits_within fuel n) ≡ n
unfolding digits_within
value-digits zero n h = elim h [ ]
value-digits (suc fuel) n h = elim (Bool-cases (ltb n 10)) [
  | inl small ↦ rw small (value_small n)
  | inr large ↦ rw large (
      value_from-snoc 0 (digits_within fuel (n / 10)) (b'0' + n % 10)
      ∙ omega (arith, value-digits fuel (n / 10) (ground arith)))
]

digits-IsDigit : (fuel n : ℕ) → All IsDigit (digits_within fuel n)
unfolding digits_within
digits-IsDigit zero n = tt
digits-IsDigit (suc fuel) n = elim (Bool-cases (ltb n 10)) [
  | inl small ↦ rw small (ground arith)
  | inr large ↦ rw large (All-append IsDigit _ _ (digits-IsDigit fuel (n / 10)) (omega arith))
]

-- A number below 10 ^ (k + 1) has k + 1 digits at most.
length-digits : (k fuel n : ℕ) → n < 10 ^ suc k → length (digits_within fuel n) ≤ suc k
unfolding digits_within
length-digits k zero n h = omega arith
length-digits zero (suc fuel) n h = elim (Bool-cases (ltb n 10)) [
  | inl small ↦ rw small (omega arith)
  | inr large ↦ absurd (ground arith)
]
length-digits (suc k) (suc fuel) n h = elim (Bool-cases (ltb n 10)) [
  | inl small ↦ rw small (omega arith)
  | inr large ↦ rw large (
      omega (
        arith,
        length-append (digits_within fuel (n / 10)) ((b'0' + n % 10) ∷ []),
        length-digits k fuel (n / 10) (omega (arith, pow-suc 10 (suc k))),
      ))
]

length-zeros : (n : ℕ) → length (zeros n) ≡ n
unfolding zeros
length-zeros zero = refl
length-zeros (suc n) = ap suc (length-zeros n)

zeros-IsDigit : (n : ℕ) → All IsDigit (zeros n)
unfolding zeros
zeros-IsDigit zero = tt
zeros-IsDigit (suc n) = (omega arith, zeros-IsDigit n)

value-zeros : (n : ℕ) (s : Text) → value_from 0 (zeros n ++ s) ≡ value_from 0 s
unfolding zeros value_from
value-zeros zero s = refl
value-zeros (suc n) s = value-zeros n s

-- A padded number has the width that is asked for, as long as it is not too large for it.
pub length-print_padded : (k n : ℕ) → n < 10 ^ suc k → length (print_padded (suc k) n) ≡ suc k
unfolding print_padded print_decimal
length-print_padded k n h = omega (
  arith,
  length-append (zeros (suc k - length (digits_within (suc n) n))) (digits_within (suc n) n),
  length-zeros (suc k - length (digits_within (suc n) n)),
  length-digits k (suc n) n h,
)

pub print_padded-IsDigit : (width n : ℕ) → All IsDigit (print_padded width n)
unfolding print_padded print_decimal
print_padded-IsDigit width n =
    All-append IsDigit (zeros _) _ (zeros-IsDigit _) (digits-IsDigit (suc n) n)

pub value-print_padded : (width n : ℕ) → value_from 0 (print_padded width n) ≡ n
unfolding print_padded print_decimal
value-print_padded width n =
    value-zeros _ (digits_within (suc n) n) ∙ value-digits (suc n) n (omega arith)

-- A padded number is never shorter than its width.
pub print_padded_wide : (width n : ℕ) → width ≤ length (print_padded width n)
unfolding print_padded print_decimal
print_padded_wide width n = omega (
  arith,
  length-append (zeros (width - length (digits_within (suc n) n))) (digits_within (suc n) n),
  length-zeros (width - length (digits_within (suc n) n)),
)
