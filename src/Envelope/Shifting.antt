-- ===== src/Envelope/Shifting.antt =====
-- src/zippylog/envelope.cpp, `Envelope::RemoveMessage`: one round of its loop, on the lists and on the
-- cache.
use zippylog.Prelude.{
  ℕ, zero, suc, ◌+◌, ◌≤◌, ◌<◌, ◌≡◌, refl, sym, ap, subst, ◌∙◌, ◌⊎◌, inl, inr, true, false, Option,
  none, some, some-injective, List, [], ◌∷◌, ◌++◌, Text, length, get_elem?, set, take, drop,
  drop_last, ltb, leb, arith, Outcome, done, faults, ◌>>=◌,
}
use zippylog.Envelope.{Envelope, read, remove_last, shift_cached, shift_down}

module _ {ℓ} {A : Type ℓ} where
  pub get_elem?-some : (xs : List A) (i : ℕ) → i < length xs → (a : A) × (get_elem? xs i ≡ some a)
  get_elem?-some [] i h = elim h [ ]
  get_elem?-some (x ∷ xs) zero h = (x, refl)
  get_elem?-some (x ∷ xs) (suc i) h = get_elem?-some xs i (omega arith)

  pub length-set : (xs : List A) (i : ℕ) (a : A) → length (set xs i a) ≡ length xs
  length-set [] i a = refl
  length-set (x ∷ xs) zero a = refl
  length-set (x ∷ xs) (suc i) a = ap suc (length-set xs i a)

  -- The list without the element at `k`.
  abbrev pub without : ℕ → List A → List A
  without k xs = take k xs ++ drop (suc k) xs

  pub without-last : (xs : List A) (k : ℕ) → length xs ≡ suc k → drop_last xs ≡ without k xs
  without-last [] k h = ground arith
  without-last (x ∷ []) zero h = refl
  without-last (x ∷ []) (suc k) h = ground arith
  without-last (x ∷ y ∷ xs) zero h = ground arith
  without-last (x ∷ y ∷ xs) (suc k) h = ap (◌∷◌ x) (without-last (y ∷ xs) k (omega (arith, h)))

  -- A round of the loop leaves what is to be left in the end.
  pub without-set :
      (xs : List A) (k : ℕ) (a : A)
      → get_elem? xs (suc k) ≡ some a
      → without (suc k) (set xs k a) ≡ without k xs
  without-set [] k a h = cc
  without-set (x ∷ []) zero a h = cc
  without-set (x ∷ y ∷ xs) zero a h = ap (λ v. v ∷ xs) (sym (some-injective _ _ h))
  without-set (x ∷ xs) (suc k) a h = ap (◌∷◌ x) (without-set xs k a h)

  pub remove_last-done : (xs : List A) → 0 < length xs → remove_last xs ≡ done (drop_last xs)
  remove_last-done [] h = elim h [ ]
  remove_last-done (x ∷ xs) h = refl

pub between : (k count l : ℕ) → k + 1 ≡ count → suc k ≤ l → l < count → ⊥
between k count l h p q = omega arith

pub leb_yes : (a b : ℕ) → a ≤ b → leb a b ≡ true
leb_yes a b h = ground arith

pub ltb_no : (a b : ℕ) → b ≤ a → ltb a b ≡ false
ltb_no a b h = ground arith

leb_no : (a b : ℕ) → b < a → leb a b ≡ false
leb_no a b h = ground arith

pub bind-done {ℓ κ} :
    {A : Type ℓ} {B : Type κ} {o : Outcome A} {a : A} (f : A → Outcome B)
    → o ≡ done a
    → (o >>= f) ≡ f a
bind-done f h = ap (λ x. x >>= f) h

pub bind-faults {ℓ κ} :
    {A : Type ℓ} {B : Type κ} {o : Outcome A} (f : A → Outcome B) → o ≡ faults → (o >>= f) ≡ faults
bind-faults f h = ap (λ x. x >>= f) h

pub read-done {ℓ} :
    {A : Type ℓ} (xs : List A) (i : ℕ) (a : A) → get_elem? xs i ≡ some a → read xs i ≡ done a
read-done xs i a h = rw (h, read) refl

module _ {Message : Type 0} where
  pub shift_cached-moves :
      (k : ℕ) (c : List (Option Message)) (m : Option Message)
      → suc k ≤ length c
      → get_elem? c (suc k) ≡ some m
      → shift_cached k (some c) ≡ done (some (set c k m))
  unfolding shift_cached
  shift_cached-moves k c m l q = rw (leb_yes (suc k) (length c) l, q) refl

  -- The cache in front of the round that fills the slot `k`: there is none, it has an entry for each
  -- message, or it ends before the messages that move.
  unfoldable pub IsSafe : ℕ → ℕ → Option (List (Option Message)) → Type 0
  IsSafe k count none = Unit
  IsSafe k count (some c) = (count ≤ length c) ⊎ (length c ≤ k)

  pub shift_cached-IsSafe :
      (k count : ℕ) (c : Option (List (Option Message)))
      → IsSafe k count c
      → suc k < count
      → (c' : Option (List (Option Message))) × (shift_cached k c ≡ done c')
        × IsSafe (suc k) count c'
  unfolding IsSafe shift_cached
  shift_cached-IsSafe k count none h l = (none, refl, tt)
  shift_cached-IsSafe k count (some c) (inl h) l =
      let (m, q) = get_elem?-some c (suc k) (omega arith) in
      (
        some (set c k m),
        shift_cached-moves k c m (omega arith) q,
        inl (subst (λ n. count ≤ n) (sym (length-set c k m)) h),
      )
  shift_cached-IsSafe k count (some c) (inr h) l =
      (some c, rw (leb_no (suc k) (length c) (omega arith)) refl, inr (omega arith))

  pub next_round :
      (rounds k : ℕ) (e : Envelope Message) (b : Text) (n t : ℕ)
      (c : Option (List (Option Message)))
      → get_elem? e.message (suc k) ≡ some b
      → get_elem? e.message_namespace (suc k) ≡ some n
      → get_elem? e.message_type (suc k) ≡ some t
      → shift_cached k e.messages ≡ done c
      → shift_down (suc rounds) k e
        ≡ shift_down rounds (suc k) (record e {
          message = set e.message k b;
          message_namespace = set e.message_namespace k n;
          message_type = set e.message_type k t;
          messages = c;
        })
  unfolding shift_down
  next_round rounds k e b n t c pb pn pt pc =
      bind-done _ (read-done e.message (suc k) b pb)
      ∙ bind-done _ (read-done e.message_namespace (suc k) n pn)
      ∙ bind-done _ (read-done e.message_type (suc k) t pt)
      ∙ bind-done _ pc
