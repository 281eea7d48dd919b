-- ===== src/Store/Path/Building.antt =====
-- The functions of src/zippylog/store.cpp that build store paths, against those that test them.
use zippylog.Prelude.{◌≡◌, refl, ◌≢◌, ◌⊎◌, Bool, true, false, some, [], ◌∷◌, ◌++◌, Text, arith}
use mathlib.Core.List.{append_assoc}
use zippylog.Store.Path.{
  StorePath, slash, extension, parse_path, is_bucket_path, is_stream_set_path, is_stream_path,
  bucket_path, streamset_path, stream_path, validate_path,
}
use zippylog.Store.Path.Grammar.{
  IsPlain, Layout, to_bucket, to_set, to_stream, to_file, to_nameless_file,
}
use zippylog.Store.Path.Parsing.{parse_path_iff, parse_of_valid}

abbrev fields : Text → Text → Text → StorePath
fields b s t = record { bucket = b; set = s; stream = t }

module _ (b s t : Text) (nb : IsPlain b) (ns : IsPlain s) (nt : IsPlain t) where
  parse-bucket_path : parse_path (bucket_path b) ≡ some (fields b [] [])
  unfolding bucket_path
  parse-bucket_path = (parse_path_iff _ _).1 (to_bucket nb refl refl refl)

  parse-streamset_path : b ≢ [] → parse_path (streamset_path b s) ≡ some (fields b s [])
  unfolding streamset_path bucket_path
  parse-streamset_path hb = (parse_path_iff _ _).1 (to_set hb nb ns refl refl)

  parse-stream_path : b ≢ [] → s ≢ [] → parse_path (stream_path b s t) ≡ some (fields b s t)
  unfolding stream_path streamset_path bucket_path
  parse-stream_path hb hs = (parse_path_iff _ _).1 (to_stream hb nb hs ns nt (simp append_assoc))

  parse-file_path :
      b ≢ [] → s ≢ [] → t ≢ [] → parse_path (stream_path b s t ++ extension) ≡ some (fields b s t)
  unfolding stream_path streamset_path bucket_path
  parse-file_path hb hs ht = (parse_path_iff _ _).1 (to_file hb nb hs ns ht nt (simp append_assoc))

  -- For non-empty names of letters, digits, dashes and underscores, the path of a stream, with or
  -- without the file extension, parses to the names that it was built from, as do the paths of
  -- a stream set and of a bucket; and each is classified as what it is.
  pub build_then_parse :
      b ≢ []
      → s ≢ []
      → t ≢ []
      → (parse_path (bucket_path b) ≡ some (fields b [] []))
        × (parse_path (streamset_path b s) ≡ some (fields b s []))
        × (parse_path (stream_path b s t) ≡ some (fields b s t))
        × (parse_path (stream_path b s t ++ extension) ≡ some (fields b s t))
        × (is_bucket_path (bucket_path b) ≡ true)
        × (is_stream_set_path (streamset_path b s) ≡ true)
        × (is_stream_path (stream_path b s t) ≡ true)
        × (is_stream_path (stream_path b s t ++ extension) ≡ true)
  unfolding is_bucket_path is_stream_set_path is_stream_path
  build_then_parse hb hs ht = (
    parse-bucket_path,
    parse-streamset_path hb,
    parse-stream_path hb hs,
    parse-file_path hb hs ht,
    ground (arith, parse-bucket_path),
    ground (arith, parse-streamset_path hb),
    ground (arith, parse-stream_path hb hs),
    ground (arith, parse-file_path hb hs ht),
  )

-- Exactly one of three tests holds.
abbrev pub ExactlyOne : Bool → Bool → Bool → Type 0
ExactlyOne x y z =
    ((x ≡ true) × (y ≡ false) × (z ≡ false))
    ⊎ (((x ≡ false) × (y ≡ true) × (z ≡ false)) ⊎ ((x ≡ false) × (y ≡ false) × (z ≡ true)))

abbrev FieldsOf : Text → StorePath → Type 0
FieldsOf p r =
    ((r.bucket ≢ []) ⊎ (p ≡ slash ∷ []))
    × (r.set ≢ [] → r.bucket ≢ [])
    × (r.stream ≢ [] → r.set ≢ [])

-- A stream comes with a set and a set with a bucket; only "/" has no bucket.
Layout-fields : (p : Text) (r : StorePath) → Layout p r → FieldsOf p r
Layout-fields p r (to_bucket n s t e) = ground arith
Layout-fields p r (to_set k n m t e) = ground arith
Layout-fields p r (to_stream k n j m l e) = ground arith
Layout-fields p r (to_file k n j m i l e) = ground arith
Layout-fields p r (to_nameless_file k n j m i e) = ground arith

exactly_one :
    (p : Text) (r : StorePath)
    → parse_path p ≡ some r
    → p ≢ slash ∷ []
    → FieldsOf p r
    → ExactlyOne (is_bucket_path p) (is_stream_set_path p) (is_stream_path p)
unfolding is_bucket_path is_stream_set_path is_stream_path
exactly_one p r e h f = ground arith

-- A valid path other than "/" is a path to a bucket, to a stream set or to a stream, and only one
-- of the three.
pub classify-valid :
    (p : Text)
    → validate_path p ≡ true
    → p ≢ slash ∷ []
    → ExactlyOne (is_bucket_path p) (is_stream_set_path p) (is_stream_path p)
classify-valid p v h =
    let (r, e) = parse_of_valid p v in
    exactly_one p r e h (Layout-fields p r ((parse_path_iff p r).0 e))
