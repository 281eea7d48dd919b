-- ===== src/Store/Uri/Accepted.antt =====
-- The URIs that `Store::CreateStore` of src/zippylog/store.cpp accepts.
use zippylog.Prelude.{
  ℕ, suc, ◌+◌, ◌-◌, ◌≤◌, ◌≡◌, refl, sym, ap, subst, length-take, ◌∙◌, ◌↔◌, ◌⊎◌, inl, inr, Bool,
  true, ◌||◌, some, [], ◌∷◌, ◌++◌, Text, text_eq_iff, substr, length, drop, take-append-drop,
  take_all, done, Option-cases, Bool-cases, arith, ◌==◌,
}
use zippylog.Store.Uri.{find_separator, simple_protocol, open_simple_directory, create_store}

abbrev pub IsSeparator : ℕ → Type 0
IsSeparator c = (c ≡ b':') ⊎ (c ≡ b'/')

-- The protocol, one of ':' and '/', any two characters, and the directory.
pub record Accepts (is_directory : Text → Bool) (s root : Text) : Type 0 where
  pub separator : ℕ
  pub skipped : ℕ
  pub skipped' : ℕ
  pub separates : IsSeparator separator
  pub parts : s ≡ simple_protocol ++ separator ∷ skipped ∷ skipped' ∷ root
  pub directory : is_directory root ≡ true

-- A separator stands where the first one is found.
found_at :
    (s : Text) (i : ℕ)
    → find_separator s ≡ some i
    → (c : ℕ) × (rest : Text) × IsSeparator c × (drop i s ≡ c ∷ rest)
unfolding find_separator
found_at [] i e = cc
found_at (c ∷ s) i e = elim (Bool-cases ((c == b':') || (c == b'/'))) [
  | inl here ↦ first here
  | inr not_here ↦ elim (Option-cases (find_separator s)) [
    | inl absent ↦ absurd (ground arith)
    | inr (k, found) ↦
        let e' : i ≡ suc k = ground arith in
        let (d, rest, p, q) = found_at s k found in rw e' (d, rest, p, q)
  ]
]
  where
    first :
        ((c == b':') || (c == b'/')) ≡ true
        → (d : ℕ) × (rest : Text) × IsSeparator d × (drop i (c ∷ s) ≡ d ∷ rest)
    first h = let z : i ≡ 0 = ground arith in (c, s, ground arith, rw z refl)

protocol_separated :
    (c : ℕ) (rest : Text) → IsSeparator c → find_separator (simple_protocol ++ c ∷ rest) ≡ some 15
unfolding find_separator
protocol_separated c rest h = ground arith

module _ (is_directory : Text → Bool) where
  open_iff :
      (p root : Text)
      → (open_simple_directory is_directory p ≡ done root)
        ↔ ((p ≡ root) × (is_directory root ≡ true))
  unfolding open_simple_directory
  open_iff p root = (λ e. (ground arith, ground arith), λ (e, h). ground arith)

  create-eq :
      (s : Text) (i : ℕ)
      → find_separator s ≡ some i
      → substr s 0 i ≡ simple_protocol
      → i + 3 ≤ length s
      → create_store is_directory s
        ≡ open_simple_directory is_directory (substr s (i + 3) (length s - i - 3))
  unfolding create_store
  create-eq s i e p h = ground (arith, text_eq_iff (substr s 0 i) simple_protocol)

  create-inv :
      (s root : Text)
      → create_store is_directory s ≡ done root
      → (i : ℕ) × (find_separator s ≡ some i)
        × (substr s 0 i ≡ simple_protocol)
        × (i + 3 ≤ length s)
        × (open_simple_directory is_directory (substr s (i + 3) (length s - i - 3)) ≡ done root)
  unfolding create_store
  create-inv s root e = elim (Option-cases (find_separator s)) [
    | inl absent ↦ absurd (ground arith)
    | inr (i, found) ↦ (
      i,
      found,
      ground (arith, text_eq_iff (substr s 0 i) simple_protocol),
      ground arith,
      ground arith,
    )
  ]

  Accepts-create :
      (s root : Text) → Accepts is_directory s root → create_store is_directory s ≡ done root
  Accepts-create s root a =
      let c = a.separator in
      let u : Text = simple_protocol ++ c ∷ a.skipped ∷ a.skipped' ∷ root in
      rw a.parts (
        create-eq u 15 (protocol_separated c _ a.separates) refl (omega arith)
        ∙ (open_iff _ root).1 (take_all (length u - 15 - 3) root (omega arith), a.directory))

  -- The text behind the separator, and where it is taken to begin.
  accepted_rest :
      (s root : Text) (c : ℕ) (rest : Text)
      → s ≡ simple_protocol ++ c ∷ rest
      → IsSeparator c
      → 18 ≤ length s
      → open_simple_directory is_directory (substr s 18 (length s - 15 - 3)) ≡ done root
      → Accepts is_directory s root
  accepted_rest s root c [] e h k o = absurd (omega (arith, ap length e))
  accepted_rest s root c (x ∷ []) e h k o = absurd (omega (arith, ap length e))
  accepted_rest s root c (x ∷ y ∷ r) e h k o =
      let (same, there) = (open_iff _ root).0 o in
      let whole : substr s 18 (length s - 15 - 3) ≡ r =
        rw e (take_all (length (simple_protocol ++ c ∷ x ∷ y ∷ r) - 15 - 3) r (omega arith)) in
      record {
        separator = c;
        skipped = x;
        skipped' = y;
        separates = h;
        parts = e ∙ ap (λ z. simple_protocol ++ c ∷ x ∷ y ∷ z) (sym whole ∙ same);
        directory = there;
      }

  create-Accepts :
      (s root : Text) → create_store is_directory s ≡ done root → Accepts is_directory s root
  create-Accepts s root e =
      let (i, found, protocol, long, o) = create-inv s root e in
      let (c, rest, separates, at) = found_at s i found in
      let n : i ≡ 15 = omega (arith, sym (length-take i s (omega arith)) ∙ ap length protocol) in
      accepted_rest s root c rest
        (sym (take-append-drop i s)
          ∙ (ap (λ x. x ++ drop i s) protocol ∙ ap (◌++◌ simple_protocol) at))
        separates (omega arith)
        (subst
          (λ k.
            open_simple_directory is_directory (substr s (k + 3) (length s - k - 3)) ≡ done root)
          n o)

  -- A store is opened exactly for "simpledirectory", a ':' or '/', two characters of any kind, and
  -- the path of a directory, and its root is that path.
  pub create_store_iff :
      (s root : Text) → (create_store is_directory s ≡ done root) ↔ Accepts is_directory s root
  create_store_iff s root = (create-Accepts s root, Accepts-create s root)
