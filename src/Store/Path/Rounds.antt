-- ===== src/Store/Path/Rounds.antt =====
-- The rounds of the loop in `Store::ParsePath` of src/zippylog/store.cpp, and the extension that it
-- takes off the name of a stream.
use mathlib.Core.List.{append_assoc}
use zippylog.Prelude.{
  ℕ, suc, ◌+◌, ◌-◌, ◌<◌, ◌≡◌, refl, ap, ◌∙◌, ◌≢◌, inl, inr, Bool-cases, none, some, [], ◌∷◌, ◌++◌,
  Text, All, All-take, All-drop, text_eq, text_eq_iff, text_eq_sound, find_char-append,
  find_char_absent, find_first_of, substr, length, take, drop, length-append, take-append,
  drop-append, take_all, arith,
}
use zippylog.Store.Path.{
  StorePath, root_path, slash, extension, strip_extension, last_field, middle_field, parse_fields,
}
use zippylog.Store.Path.Grammar.{IsNameChar, IsPlain, IsPlain-ne-slash}

-- The rest of a text behind a prefix.
rest_of : (p pre q : Text) (n : ℕ) → p ≡ pre ++ q → n ≡ length pre → drop n p ≡ q
rest_of p pre q n e h = rw (e, h) (drop-append pre q)

find_next :
    (p pre s q : Text) (n : ℕ)
    → p ≡ pre ++ (s ++ slash ∷ q)
    → n ≡ length pre
    → IsPlain s
    → find_first_of slash p n ≡ some (n + length s)
unfolding find_first_of
find_next p pre s q n e h k =
    rw (rest_of p pre _ n e h, find_char-append slash s q (IsPlain-ne-slash s k))

find_last :
    (p pre s : Text) (n : ℕ)
    → p ≡ pre ++ s
    → n ≡ length pre
    → All (λ c. c ≢ slash) s
    → find_first_of slash p n ≡ none
unfolding find_first_of
find_last p pre s n e h k = rw (rest_of p pre s n e h, find_char_absent slash s k)

substr_next :
    (p pre s q : Text) (n : ℕ)
    → p ≡ pre ++ (s ++ q)
    → n ≡ length pre
    → substr p n (n + length s - n) ≡ s
substr_next p pre s q n e h =
    rw (rest_of p pre _ n e h)
      (ap (λ k. take k (s ++ q)) {y = length s} (omega arith) ∙ take-append s q)

substr_last :
    (p pre s : Text) (n : ℕ) → p ≡ pre ++ s → n ≡ length pre → substr p n (length p - n) ≡ s
substr_last p pre s n e h =
    rw (rest_of p pre s n e h)
      (take_all (length p - n) s (omega (arith, ap length e, length-append pre s)))

pub strip-IsPlain : (s : Text) → IsPlain s → strip_extension s ≡ s
unfolding strip_extension
strip-IsPlain s h = elim (Bool-cases (text_eq (substr s (length s - 9) 9) extension)) [
  | inl same ↦ absurd (not_name (text_eq_sound _ _ same))
  | inr other ↦ ground arith
]
  where
    not_name : substr s (length s - 9) 9 ≡ extension → ⊥
    not_name e =
        let bad : IsPlain extension =
          rw e at (All-take IsNameChar 9 _ (All-drop IsNameChar (length s - 9) s h)) in
        ground (arith, bad.0)

strip_tests :
    (t : Text)
    → 9 < length t
    → substr t (length t - 9) 9 ≡ extension
    → strip_extension t ≡ take (length t - 9) t
unfolding strip_extension
strip_tests t h e = ground (arith, text_eq_iff (substr t (length t - 9) 9) extension)

pub strip-file : (s : Text) → s ≢ [] → strip_extension (s ++ extension) ≡ s
strip-file [] h = absurd (h refl)
strip-file (c ∷ s) h =
    let n : length (c ∷ s ++ extension) - 9 ≡ length (c ∷ s) =
      omega (arith, length-append s extension) in
    strip_tests (c ∷ s ++ extension) (omega (arith, length-append s extension))
      (rw (n, drop-append (c ∷ s) extension) refl)
    ∙ rw n (take-append (c ∷ s) extension)

-- One round of the loop of `ParsePath`, at a slash and at the last component.
round_next :
    (rounds field curr at : ℕ) (p : Text) (r : StorePath)
    → find_first_of slash p curr ≡ some at
    → parse_fields (suc rounds) field curr curr p r ≡ elim (middle_field field curr at p r) [
      | none ↦ none
      | some r' ↦ parse_fields rounds (field + 1) (at + 1) (at + 1) p r'
    ]
unfolding parse_fields
round_next rounds field curr at p r e = rw (e, parse_fields)

round_last :
    (rounds field curr : ℕ) (p : Text) (r : StorePath)
    → find_first_of slash p curr ≡ none
    → parse_fields (suc rounds) field curr curr p r ≡ some (last_field field curr p r)
unfolding parse_fields
round_last rounds field curr p r e = rw (e, parse_fields)

-- What the loop has passed at the second and at the third component.
abbrev passed : Text → Text
passed b = slash ∷ (b ++ slash ∷ [])

abbrev passed_set : Text → Text → Text
passed_set b s = passed b ++ (s ++ slash ∷ [])

passed-eq : (b q : Text) → slash ∷ (b ++ slash ∷ q) ≡ passed b ++ q
passed-eq b q = simp append_assoc

passed_set-eq : (b s q : Text) → slash ∷ (b ++ slash ∷ (s ++ slash ∷ q)) ≡ passed_set b s ++ q
passed_set-eq b s q = simp append_assoc

length-passed : (b : Text) → 1 + length b + 1 ≡ length (passed b)
length-passed b = omega (arith, length-append b (slash ∷ []))

length-passed_set : (b s : Text) → 1 + length b + 1 + length s + 1 ≡ length (passed_set b s)
length-passed_set b s = omega (
  arith,
  length-append b (slash ∷ []),
  length-append s (slash ∷ []),
  length-append (passed b) (s ++ slash ∷ []),
)

module _ (p : Text) where
  pub parse_bucket :
      (b : Text)
      → IsPlain b
      → p ≡ slash ∷ b
      → parse_fields 3 0 1 1 p root_path ≡ some (record { bucket = b; set = []; stream = [] })
  parse_bucket b n e =
      round_last 2 0 1 p root_path (find_last p (slash ∷ []) b 1 e refl (IsPlain-ne-slash b n))
      ∙ ap (λ x. some (record { bucket = x; set = []; stream = [] }))
          (substr_last p (slash ∷ []) b 1 e refl)

  -- The round at the first slash, and the one at the second.
  parse_to_set :
      (b q : Text)
      → IsPlain b
      → p ≡ slash ∷ (b ++ slash ∷ q)
      → parse_fields 3 0 1 1 p root_path
        ≡ parse_fields 2 1
            (1 + length b + 1)
            (1 + length b + 1)
            p
            (record { bucket = b; set = []; stream = [] })
  parse_to_set b q n e =
      round_next 2 0 1 (1 + length b) p root_path (find_next p (slash ∷ []) b q 1 e refl n)
      ∙ ap
          (λ x.
            parse_fields 2 1 (1 + length b + 1) (1 + length b + 1) p
              (record { bucket = x; set = []; stream = [] }))
          (substr_next p (slash ∷ []) b (slash ∷ q) 1 e refl)

  parse_to_stream :
      (b s q : Text) (n : ℕ)
      → n ≡ 1 + length b + 1
      → IsPlain s
      → p ≡ slash ∷ (b ++ slash ∷ (s ++ slash ∷ q))
      → parse_fields 2 1 n n p (record { bucket = b; set = []; stream = [] })
        ≡ parse_fields 1 2
            (n + length s + 1)
            (n + length s + 1)
            p
            (record { bucket = b; set = s; stream = [] })
  parse_to_stream b s q n h m e =
      round_next 1 1 n (n + length s) p _
        (find_next p (passed b) s q n (e ∙ passed-eq b _) (h ∙ length-passed b) m)
      ∙ ap
          (λ x.
            parse_fields 1 2 (n + length s + 1) (n + length s + 1) p
              (record { bucket = b; set = x; stream = [] }))
          (substr_next p (passed b) s (slash ∷ q) n (e ∙ passed-eq b _) (h ∙ length-passed b))

  pub parse_set :
      (b s : Text)
      → IsPlain b
      → IsPlain s
      → p ≡ slash ∷ (b ++ slash ∷ s)
      → parse_fields 3 0 1 1 p root_path ≡ some (record { bucket = b; set = s; stream = [] })
  parse_set b s n m e =
      parse_to_set b s n e
      ∙ (round_last 1 1 _ p _ (
            find_last p (passed b) s _ (e ∙ passed-eq b s) (length-passed b) (IsPlain-ne-slash s m))
          ∙ ap (λ x. some (record { bucket = b; set = x; stream = [] }))
              (substr_last p (passed b) s _ (e ∙ passed-eq b s) (length-passed b)))

  -- The last component of a stream path, extension included.
  pub parse_stream :
      (b s t : Text)
      → IsPlain b
      → IsPlain s
      → All (λ c. c ≢ slash) t
      → p ≡ slash ∷ (b ++ slash ∷ (s ++ slash ∷ t))
      → parse_fields 3 0 1 1 p root_path
        ≡ some (record { bucket = b; set = s; stream = strip_extension t })
  parse_stream b s t n m h e =
      let e' : p ≡ passed_set b s ++ t = e ∙ passed_set-eq b s t in
      let n' : 1 + length b + 1 + length s + 1 ≡ length (passed_set b s) = length-passed_set b s in
      parse_to_set b (s ++ slash ∷ t) n e
      ∙ (parse_to_stream b s t _ refl m e
          ∙ (round_last 0 2 _ p _ (find_last p (passed_set b s) t _ e' n' h)
              ∙ ap (λ x. some (record { bucket = b; set = s; stream = strip_extension x }))
                  (substr_last p (passed_set b s) t _ e' n')))
