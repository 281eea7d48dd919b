-- ===== src/Store/Path/Parsing.antt =====
-- `Store::ParsePath` of src/zippylog/store.cpp finds the components that the grammar names.
use zippylog.Prelude.{
  ◌≡◌, refl, sym, ap, subst, ◌∙◌, ◌≢◌, ◌↔◌, inl, inr, Bool-cases, true, some, some-injective,
  All-append, ==_iff, [], ◌∷◌, ◌++◌, Text, All, length, ◌==◌, arith,
}
use zippylog.Store.Path.{
  StorePath, root_path, slash, extension, strip_extension, parse_fields, parse_path, validate_path,
}
use zippylog.Store.Path.Grammar.{
  IsPlain, IsPlain-ne-slash, Layout, to_bucket, to_set, to_stream, to_file, to_nameless_file,
}
use zippylog.Store.Path.Validation.{
  Shape, one, two, three, IsFinal, validate_path-Shape, Shape-validate_path,
}
use zippylog.Store.Path.Rounds.{strip-IsPlain, strip-file, parse_bucket, parse_set, parse_stream}

valid_root : (p : Text) → validate_path p ≡ true → length p ≡ 1 → p ≡ slash ∷ []
unfolding validate_path
valid_root [] v e = absurd (omega arith)
valid_root (c ∷ []) v e = let h : c ≡ slash = ground arith in ap (λ x. x ∷ []) h
valid_root (c ∷ d ∷ q) v e = absurd (omega arith)

-- A valid path is parsed by the loop; the path "/" is no exception.
parse_valid :
    (p : Text) (r : StorePath)
    → validate_path p ≡ true
    → parse_fields 3 0 1 1 p root_path ≡ some r
    → parse_path p ≡ some r
unfolding parse_path
parse_valid p r v e = elim (Bool-cases (length p == 1)) [
  | inl short ↦
      let root : parse_fields 3 0 1 1 p root_path ≡ some root_path =
        parse_bucket p [] tt (valid_root p v ((==_iff _ _).0 short)) in
      rw (v, short) (sym root ∙ e)
  | inr long ↦ rw (v, long) e
]

-- What the code finds in a path of each shape.
abbrev fields_of : {p : Text} → Shape p → StorePath
fields_of (one b _ _) = record { bucket = b; set = []; stream = [] }
fields_of (two b s _ _ _ _) = record { bucket = b; set = s; stream = [] }
fields_of (three b s t _ _ _ _ _ _) = record { bucket = b; set = s; stream = strip_extension t }

dot-ne-slash : All (λ c. c ≢ slash) extension
dot-ne-slash = omega arith

IsFinal-ne-slash : (t : Text) → IsFinal t → All (λ c. c ≢ slash) t
IsFinal-ne-slash t (s, n, inl e) = rw e (IsPlain-ne-slash s n)
IsFinal-ne-slash t (s, n, inr e) =
    rw e (All-append (λ c. c ≢ slash) s extension (IsPlain-ne-slash s n) dot-ne-slash)

parse-Shape : (p : Text) (h : Shape p) → parse_path p ≡ some (fields_of h)
parse-Shape p (one b n e) =
    parse_valid p _ (Shape-validate_path p (one b n e)) (parse_bucket p b n e)
parse-Shape p (two b s k n m e) =
    parse_valid p _ (Shape-validate_path p (two b s k n m e)) (parse_set p b s n m e)
parse-Shape p (three b s t k n j m l e) =
    parse_valid p _ (Shape-validate_path p (three b s t k n j m l e))
      (parse_stream p b s t n m (IsFinal-ne-slash t l) e)

strip-extension : strip_extension extension ≡ extension
unfolding strip_extension
strip-extension = refl

-- The last component of a stream path and the name that is taken from it.
last-Layout :
    (p b s t : Text)
    → b ≢ []
    → IsPlain b
    → s ≢ []
    → IsPlain s
    → IsFinal t
    → p ≡ slash ∷ (b ++ slash ∷ (s ++ slash ∷ t))
    → Layout p (record { bucket = b; set = s; stream = strip_extension t })
last-Layout p b s t k n j m (x, l, inl h) e =
    rw (h, strip-IsPlain x l)
      (to_stream k n j m l (e ∙ ap (λ y. slash ∷ (b ++ slash ∷ (s ++ slash ∷ y))) h))
last-Layout p b s t k n j m ([], l, inr h) e =
    rw (h, strip-extension)
      (to_nameless_file k n j m refl (e ∙ ap (λ y. slash ∷ (b ++ slash ∷ (s ++ slash ∷ y))) h))
last-Layout p b s t k n j m (c ∷ x, l, inr h) e =
    rw (h, strip-file (c ∷ x) (λ q. cc))
      (to_file k n j m (λ q. cc) l (e ∙ ap (λ y. slash ∷ (b ++ slash ∷ (s ++ slash ∷ y))) h))

Shape-Layout : (p : Text) (h : Shape p) → Layout p (fields_of h)
Shape-Layout p (one b n e) = to_bucket n refl refl e
Shape-Layout p (two b s k n m e) = to_set k n m refl e
Shape-Layout p (three b s t k n j m l e) = last-Layout p b s t k n j m l e

parsed-valid : (p : Text) (r : StorePath) → parse_path p ≡ some r → validate_path p ≡ true
unfolding parse_path
parsed-valid p r e = ground arith

parse-Layout : (p : Text) (r : StorePath) → parse_path p ≡ some r → Layout p r
parse-Layout p r e =
    let h : Shape p = validate_path-Shape p (parsed-valid p r e) in
    subst (Layout p) (some-injective _ _ (sym (parse-Shape p h) ∙ e)) (Shape-Layout p h)

Layout-parse : (p : Text) (r : StorePath) → Layout p r → parse_path p ≡ some r
Layout-parse p r (to_bucket n s t e) = parse-Shape p (one r.bucket n e) ∙ (ground arith)
Layout-parse p r (to_set k n m t e) = parse-Shape p (two r.bucket r.set k n m e) ∙ (ground arith)
Layout-parse p r (to_stream k n j m l e) =
    parse-Shape p (three r.bucket r.set r.stream k n j m (r.stream, l, inl refl) e)
    ∙ ap (λ x. some (record r { stream = x })) (strip-IsPlain r.stream l)
Layout-parse p r (to_file k n j m i l e) =
    parse-Shape p (three r.bucket r.set (r.stream ++ extension) k n j m (r.stream, l, inr refl) e)
    ∙ ap (λ x. some (record r { stream = x })) (strip-file r.stream i)
Layout-parse p r (to_nameless_file k n j m i e) =
    parse-Shape p (three r.bucket r.set extension k n j m ([], tt, inr refl) e)
    ∙ ap (λ x. some (record r { stream = x })) (strip-extension ∙ sym i)

-- A path parses to three components exactly when the grammar lays it out so.
pub parse_path_iff : (p : Text) (r : StorePath) → (parse_path p ≡ some r) ↔ Layout p r
parse_path_iff p r = (parse-Layout p r, Layout-parse p r)

-- Every path that validates is parsed.
pub parse_of_valid : (p : Text) → validate_path p ≡ true → (r : StorePath) × (parse_path p ≡ some r)
parse_of_valid p v = let h : Shape p = validate_path-Shape p v in (fields_of h, parse-Shape p h)
