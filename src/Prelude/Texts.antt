-- ===== src/Prelude/Texts.antt =====
-- A `std::string` is the list of its bytes. Here are the operations of the standard library that
-- the code uses on strings.
use Prim.Native.Nat.{ℕ, suc, ◌+◌}
use Prim.Native.Char.{code}
use Prim.Native.String.{String}
use mathlib.Core.Path.{◌≡◌, refl}
use mathlib.Core.Logic.{◌↔◌, ◌≢◌}
use mathlib.Core.Bool.{Bool, true, false, ◌&&◌}
use mathlib.Core.List.{List, [], ◌∷◌, ◌++◌}
use mathlib.Core.Option
use mathlib.Core.Option.{Option, none, some}
use native.Mathlib.Omega.{arith}
use zippylog.Prelude.Tests.{◌==◌, if◌then◌else◌}
use zippylog.Prelude.Lists.{length, take, drop, All}

abbrev pub Text : Type 0
Text = List ℕ

-- The bytes of an ASCII literal.
abbrev pub bytes : String → Text
bytes String.[] = []
bytes (String.◌∷◌ c s) = code c ∷ bytes s

unfoldable pub text_eq : Text → Text → Bool
text_eq [] [] = true
text_eq [] (_ ∷ _) = false
text_eq (_ ∷ _) [] = false
text_eq (a ∷ s) (b ∷ t) = (a == b) && text_eq s t

pub text_eq_self : (s : Text) → text_eq s s ≡ true
unfolding text_eq
text_eq_self [] = refl
text_eq_self (a ∷ s) = ground (arith, text_eq_self s)

pub text_eq_sound : (s t : Text) → text_eq s t ≡ true → s ≡ t
unfolding text_eq
text_eq_sound [] [] h = refl
text_eq_sound [] (_ ∷ _) h = cc
text_eq_sound (_ ∷ _) [] h = cc
text_eq_sound (a ∷ s) (b ∷ t) h = ground (arith, text_eq_sound s t)

pub text_eq_iff : (s t : Text) → (text_eq s t ≡ true) ↔ (s ≡ t)
text_eq_iff s t = (text_eq_sound s t, λ e. rw e (text_eq_self t))

abbrev pub is_empty {ℓ} : {A : Type ℓ} → List A → Bool
is_empty [] = true
is_empty (_ ∷ _) = false

-- The place of the first `c`.
unfoldable pub find_char : ℕ → Text → Option ℕ
find_char c [] = none
find_char c (x ∷ s) = if x == c then some 0 else Option.map suc (find_char c s)

-- `s.find_first_of(c, off)`; `none` is `npos`.
unfoldable pub find_first_of : ℕ → Text → ℕ → Option ℕ
unfolding find_char
find_first_of c s off = Option.map (λ k. off + k) (find_char c (drop off s))

-- `s.substr(pos, n)` where `pos` is at most the length.
abbrev pub substr : Text → ℕ → ℕ → Text
substr s pos n = take n (drop pos s)

pub find_char-append :
    (c : ℕ) (s t : Text) → All (λ x. x ≢ c) s → find_char c (s ++ c ∷ t) ≡ some (length s)
unfolding find_char
find_char-append c [] t h = ground arith
find_char-append c (x ∷ s) t h = ground (arith, find_char-append c s t h.1)

pub find_char_absent : (c : ℕ) (s : Text) → All (λ x. x ≢ c) s → find_char c s ≡ none
unfolding find_char
find_char_absent c [] h = refl
find_char_absent c (x ∷ s) h = ground (arith, find_char_absent c s h.1)
