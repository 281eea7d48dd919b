-- ===== src/Store/Path/Validation.antt =====
-- `Store::ValidatePath` of src/zippylog/store.cpp accepts the paths of the grammar and no others.
use zippylog.Prelude.{
  ℕ, ◌+◌, ◌<◌, ◌≡◌, refl, ◌≢◌, ◌⊎◌, inl, inr, true, [], ◌∷◌, ◌++◌, Text, text_eq_iff, text_eq_self,
  arith, ◌∙◌, ap,
}
use zippylog.Store.Path.{slash, extension, validate_from, validate_path}
use zippylog.Store.Path.Grammar.{IsNameChar, IsPlain, is_name_char_iff, IsNameChar-ne-slash}

module _ (prev seen : ℕ) where
  pub validate-slash :
      (rest : Text)
      → prev ≢ slash
      → seen < 3
      → validate_from prev seen (slash ∷ rest) ≡ validate_from slash (seen + 1) rest
  unfolding validate_from
  validate-slash rest h k = ground arith

  pub validate-name_char :
      (c : ℕ) (rest : Text)
      → IsNameChar c
      → validate_from prev seen (c ∷ rest) ≡ validate_from c seen rest
  unfolding validate_from
  validate-name_char c rest h = ground (arith, is_name_char_iff c, IsNameChar-ne-slash c h)

validate-append :
    (prev seen : ℕ) (s rest : Text)
    → prev ≢ slash
    → seen < 3
    → IsPlain s
    → validate_from prev seen (s ++ slash ∷ rest) ≡ validate_from slash (seen + 1) rest
validate-append prev seen [] rest p k h = validate-slash prev seen rest p k
validate-append prev seen (c ∷ s) rest p k h =
    validate-name_char prev seen c (s ++ slash ∷ rest) h.0
    ∙ validate-append c seen s rest (IsNameChar-ne-slash c h.0) k h.1

-- A field that is not empty may follow a slash.
pub validate-field :
    (prev seen : ℕ) (s rest : Text)
    → s ≢ []
    → seen < 3
    → IsPlain s
    → validate_from prev seen (s ++ slash ∷ rest) ≡ validate_from slash (seen + 1) rest
validate-field prev seen [] rest p k h = absurd (p refl)
validate-field prev seen (c ∷ s) rest p k h =
    validate-name_char prev seen c (s ++ slash ∷ rest) h.0
    ∙ validate-append c seen s rest (IsNameChar-ne-slash c h.0) k h.1

pub validate-IsPlain : (prev seen : ℕ) (s : Text) → IsPlain s → validate_from prev seen s ≡ true
unfolding validate_from
validate-IsPlain prev seen [] h = refl
validate-IsPlain prev seen (c ∷ s) h =
    validate-name_char prev seen c s h.0 ∙ validate-IsPlain c seen s h.1

pub validate-file : (prev : ℕ) (s : Text) → IsPlain s → validate_from prev 3 (s ++ extension) ≡ true
unfolding validate_from
validate-file prev [] h = ground (arith, text_eq_self extension)
validate-file prev (c ∷ s) h =
    validate-name_char prev 3 c (s ++ extension) h.0 ∙ validate-file c s h.1

-- What an accepted rest is, in the first two fields and in the last.
abbrev Splits : ℕ → ℕ → Text → Type 0
Splits prev seen q =
    IsPlain q
    ⊎ ((s : Text) × (rest : Text) × IsPlain s
        × (prev ≡ slash → s ≢ [])
        × (q ≡ s ++ slash ∷ rest)
        × (validate_from slash (seen + 1) rest ≡ true))

Splits-cons :
    (prev seen c : ℕ) (q : Text) → IsNameChar c → Splits c seen q → Splits prev seen (c ∷ q)
Splits-cons prev seen c q h (inl n) = inl (h, n)
Splits-cons prev seen c q h (inr (s, rest, n, _, e, v)) =
    inr (c ∷ s, rest, (h, n), (λ _ k. cc), ap (◌∷◌ c) e, v)

Splits-slash :
    (prev seen : ℕ) (q : Text)
    → prev ≢ slash
    → validate_from slash (seen + 1) q ≡ true
    → Splits prev seen (slash ∷ q)
Splits-slash prev seen q h v = inr ([], q, tt, (λ e _. h e), refl, v)

validated_char :
    (prev seen c : ℕ) (q : Text)
    → validate_from prev seen (c ∷ q) ≡ true
    → seen < 3
    → ((c ≡ slash) × (prev ≢ slash) × (validate_from c (seen + 1) q ≡ true))
      ⊎ (IsNameChar c × (validate_from c seen q ≡ true))
unfolding validate_from
validated_char prev seen c q v k = ground (arith, is_name_char_iff c)

split_field :
    (prev seen : ℕ) (q : Text) → validate_from prev seen q ≡ true → seen < 3 → Splits prev seen q
split_field prev seen [] v k = inl tt
split_field prev seen (c ∷ q) v k = elim (validated_char prev seen c q v k) [
  | inl (e, p, w) ↦ rw e (Splits-slash prev seen q p (rw e at w))
  | inr (n, w) ↦ Splits-cons prev seen c q n (split_field c seen q w k)
]

-- The last field: a name, or a name and the extension.
abbrev pub IsFinal : Text → Type 0
IsFinal q = (s : Text) × IsPlain s × ((q ≡ s) ⊎ (q ≡ s ++ extension))

IsFinal-cons : (c : ℕ) (q : Text) → IsNameChar c → IsFinal q → IsFinal (c ∷ q)
IsFinal-cons c q h (s, n, inl e) = (c ∷ s, (h, n), inl (ap (◌∷◌ c) e))
IsFinal-cons c q h (s, n, inr e) = (c ∷ s, (h, n), inr (ap (◌∷◌ c) e))

validated_last_char :
    (prev c : ℕ) (q : Text)
    → validate_from prev 3 (c ∷ q) ≡ true
    → (IsNameChar c × (validate_from c 3 q ≡ true)) ⊎ (c ∷ q ≡ extension)
unfolding validate_from
validated_last_char prev c q v = ground (arith, is_name_char_iff c, text_eq_iff (c ∷ q) extension)

last_field-IsFinal : (prev : ℕ) (q : Text) → validate_from prev 3 q ≡ true → IsFinal q
last_field-IsFinal prev [] v = ([], tt, inl refl)
last_field-IsFinal prev (c ∷ q) v = elim (validated_last_char prev c q v) [
  | inl (n, w) ↦ IsFinal-cons c q n (last_field-IsFinal c q w)
  | inr e ↦ ([], tt, inr e)
]

-- The three shapes that an accepted path has.
pub data Shape (p : Text) : Type 0 where
  one : (b : Text) → IsPlain b → p ≡ slash ∷ b → Shape p
  two : (b s : Text) → b ≢ [] → IsPlain b → IsPlain s → p ≡ slash ∷ (b ++ slash ∷ s) → Shape p
  three :
      (b s t : Text)
      → b ≢ []
      → IsPlain b
      → s ≢ []
      → IsPlain s
      → IsFinal t
      → p ≡ slash ∷ (b ++ slash ∷ (s ++ slash ∷ t))
      → Shape p

set-Shape :
    (p b q : Text) → b ≢ [] → IsPlain b → p ≡ slash ∷ (b ++ slash ∷ q) → Splits slash 2 q → Shape p
set-Shape p b q h n e (inl m) = two b q h n m e
set-Shape p b q h n e (inr (s, t, m, k, e', v)) =
    three b s t h n (k refl) m (last_field-IsFinal slash t v)
      (e ∙ ap (λ x. slash ∷ (b ++ slash ∷ x)) e')

bucket-Shape : (p q : Text) → p ≡ slash ∷ q → Splits slash 1 q → Shape p
bucket-Shape p q e (inl n) = one q n e
bucket-Shape p q e (inr (b, r, n, h, e', v)) =
    set-Shape p b r (h refl) n (e ∙ ap (◌∷◌ slash) e') (split_field slash 2 r v (omega arith))

validated_start :
    (p : Text)
    → validate_path p ≡ true
    → (q : Text) × (p ≡ slash ∷ q) × (validate_from slash 1 q ≡ true)
unfolding validate_path
validated_start [] v = cc
validated_start (c ∷ q) v = let e : c ≡ slash = ground arith in (q, ap (λ x. x ∷ q) e, ground arith)

pub validate_path-Shape : (p : Text) → validate_path p ≡ true → Shape p
validate_path-Shape p v =
    let (q, e, w) = validated_start p v in
    bucket-Shape p q e (split_field slash 1 q w (omega arith))

validate-start : (q : Text) → validate_from slash 1 q ≡ true → validate_path (slash ∷ q) ≡ true
unfolding validate_path
validate-start q h = h

last-validated : (q : Text) → IsFinal q → validate_from slash 3 q ≡ true
last-validated q (s, n, inl e) = rw e (validate-IsPlain slash 3 s n)
last-validated q (s, n, inr e) = rw e (validate-file slash s n)

pub Shape-validate_path : (p : Text) → Shape p → validate_path p ≡ true
Shape-validate_path p (one b n e) = rw e (validate-start b (validate-IsPlain slash 1 b n))
Shape-validate_path p (two b s h n m e) =
    rw e (
      validate-start _
        (validate-field slash 1 b s h (omega arith) n ∙ validate-IsPlain slash 2 s m))
Shape-validate_path p (three b s t h n k m l e) = rw e (
    validate-start _ (
      validate-field slash 1 b _ h (omega arith) n
      ∙ (validate-field slash 2 s t k (omega arith) m ∙ last-validated t l)))
