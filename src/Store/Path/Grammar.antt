-- ===== src/Store/Path/Grammar.antt =====
-- The store paths that src/zippylog/store.cpp understands, described without its loops.
use zippylog.Prelude.{ℕ, ◌≤◌, ◌≡◌, ◌≢◌, ◌⊎◌, ◌↔◌, true, [], ◌∷◌, ◌++◌, Text, All, arith}
use zippylog.Store.Path.{StorePath, slash, extension, is_name_char}

-- A digit, a letter, a dash or an underscore.
abbrev pub IsNameChar : ℕ → Type 0
IsNameChar c =
    ((b'0' ≤ c) × (c ≤ b'9'))
    ⊎ (((b'A' ≤ c) × (c ≤ b'Z')) ⊎ (((b'a' ≤ c) × (c ≤ b'z')) ⊎ ((c ≡ b'-') ⊎ (c ≡ b'_'))))

abbrev pub IsPlain : Text → Type 0
IsPlain = All IsNameChar

-- How a path stands for its components.
pub data Layout (p : Text) (r : StorePath) : Type 0 where
  to_bucket : IsPlain r.bucket → r.set ≡ [] → r.stream ≡ [] → p ≡ slash ∷ r.bucket → Layout p r
  to_set :
      r.bucket ≢ []
      → IsPlain r.bucket
      → IsPlain r.set
      → r.stream ≡ []
      → p ≡ slash ∷ (r.bucket ++ slash ∷ r.set)
      → Layout p r
  to_stream :
      r.bucket ≢ []
      → IsPlain r.bucket
      → r.set ≢ []
      → IsPlain r.set
      → IsPlain r.stream
      → p ≡ slash ∷ (r.bucket ++ slash ∷ (r.set ++ slash ∷ r.stream))
      → Layout p r
  to_file :
      r.bucket ≢ []
      → IsPlain r.bucket
      → r.set ≢ []
      → IsPlain r.set
      → r.stream ≢ []
      → IsPlain r.stream
      → p ≡ slash ∷ (r.bucket ++ slash ∷ (r.set ++ slash ∷ (r.stream ++ extension)))
      → Layout p r
  to_nameless_file :
      r.bucket ≢ []
      → IsPlain r.bucket
      → r.set ≢ []
      → IsPlain r.set
      → r.stream ≡ extension
      → p ≡ slash ∷ (r.bucket ++ slash ∷ (r.set ++ slash ∷ extension))
      → Layout p r

pub is_name_char_iff : (c : ℕ) → (is_name_char c ≡ true) ↔ IsNameChar c
is_name_char_iff c = ground arith

pub IsNameChar-ne-slash : (c : ℕ) → IsNameChar c → c ≢ slash
IsNameChar-ne-slash c h = ground arith

pub IsPlain-ne-slash : (s : Text) → IsPlain s → All (λ c. c ≢ slash) s
IsPlain-ne-slash [] h = tt
IsPlain-ne-slash (c ∷ s) h = (IsNameChar-ne-slash c h.0, IsPlain-ne-slash s h.1)
