-- ===== src/Store/Simple/Entries.antt =====
-- The streams that the directory store of src/zippylog/store.cpp lists.
use zippylog.Prelude.{
  ◌-◌, ◌<◌, ◌≡◌, refl, sym, ap, ◌∙◌, subst, ◌≢◌, ◌↔◌, ◌⊎◌, inl, inr, Bool-cases, List, [], ◌∷◌,
  ◌++◌, Text, text_eq, text_eq_iff, text_eq_sound, substr, length, take, drop, length-append,
  drop-append, take-append, take-append-drop, take_all, length-drop, ltb, arith,
}
use zippylog.Platform.Directories.{FileSystem, files_in_directory}
use zippylog.Store.Path.{extension, streamset_path}
use zippylog.Store.Simple.{listed, stream_entries, path_to_filesystem_path, simple_directory_store}

abbrev pub Listed : Text → List Text → Type 0
Listed t [] = ⊥
Listed t (x ∷ xs) = (t ≡ x) ⊎ Listed t xs

-- A file is a stream's if it is a name, not empty, with the extension behind it.
abbrev Keeps : Text → Text → Type 0
Keeps t f = (t ≢ []) × (t ++ extension ≡ f)

abbrev IsKept : Text → Type 0
IsKept f = (9 < length f) × (substr f (length f - 9) 9 ≡ extension)

tail_of : (f : Text) → IsKept f → take (length f - 9) f ++ extension ≡ f
tail_of f (long, e) =
    let whole : substr f (length f - 9) 9 ≡ drop (length f - 9) f =
      take_all 9 (drop (length f - 9) f) (omega (arith, length-drop (length f - 9) f)) in
    ap (◌++◌ (take (length f - 9) f)) (sym e ∙ whole) ∙ take-append-drop (length f - 9) f

kept-Keeps : (f : Text) → IsKept f → Keeps (take (length f - 9) f) f
kept-Keeps f k = (
  λ empty. absurd (
      omega (
        arith,
        k.0,
        ap length (tail_of f k),
        length-append (take (length f - 9) f) extension,
        ap length empty,
      )),
  tail_of f k,
)

length_pos : (t : Text) → t ≢ [] → 0 < length t
length_pos [] h = absurd (h refl)
length_pos (c ∷ t) h = omega arith

file-IsKept : (t : Text) → t ≢ [] → IsKept (t ++ extension)
file-IsKept t h = (
  omega (arith, length-append t extension, length_pos t h),
  (let n : length (t ++ extension) - 9 ≡ length t = omega (arith, length-append t extension) in
      rw (n, drop-append t extension) refl),
)

file_name : (t : Text) → t ≡ take (length (t ++ extension) - 9) (t ++ extension)
file_name t =
    let n : length (t ++ extension) - 9 ≡ length t = omega (arith, length-append t extension) in
    rw n (sym (take-append t extension))

entries_kept :
    (f : Text) (fs : List Text)
    → IsKept f
    → stream_entries (f ∷ fs) ≡ take (length f - 9) f ∷ stream_entries fs
unfolding stream_entries
entries_kept f fs (long, e) = ground (arith, text_eq_iff (substr f (length f - 9) 9) extension)

entries_cases :
    (f : Text) (fs : List Text)
    → IsKept f ⊎ (¬ (IsKept f) × (stream_entries (f ∷ fs) ≡ stream_entries fs))
unfolding stream_entries
entries_cases f fs = elim (Bool-cases (text_eq (substr f (length f - 9) 9) extension)) [
  | inl same ↦ elim (Bool-cases (ltb (length f) 10)) [
    | inl short ↦ inr ((λ k. ground (arith, k.0)), ground arith)
    | inr long ↦ inl (ground arith, text_eq_sound _ _ same)
  ]
  | inr other ↦
      inr (
        (λ k. ground (arith, k.1, text_eq_iff (substr f (length f - 9) 9) extension)),
        ground arith,
      )
]

Listed-entries :
    (t : Text) (fs : List Text) → t ≢ [] → Listed (t ++ extension) fs → Listed t (stream_entries fs)
unfolding stream_entries
Listed-entries t [] h m = m
Listed-entries t (f ∷ fs) h (inl e) =
    let k : IsKept f = subst IsKept e (file-IsKept t h) in
    rw (entries_kept f fs k) (inl (subst (λ x. t ≡ take (length x - 9) x) e (file_name t)))
Listed-entries t (f ∷ fs) h (inr m) = elim (entries_cases f fs) [
  | inl k ↦ rw (entries_kept f fs k) (inr (Listed-entries t fs h m))
  | inr (_, e) ↦ rw e (Listed-entries t fs h m)
]

pub entries-Listed :
    (t : Text) (fs : List Text)
    → Listed t (stream_entries fs)
    → (t ≢ []) × Listed (t ++ extension) fs
unfolding stream_entries
entries-Listed t [] m = absurd m
entries-Listed t (f ∷ fs) m = elim (entries_cases f fs) [
  | inl k ↦ kept_case k (rw (entries_kept f fs k) at m) (entries-Listed t fs)
  | inr (_, e) ↦ let (h, l) = entries-Listed t fs (rw e at m) in (h, inr l)
]
  where
    kept_case :
        IsKept f
        → Listed t (take (length f - 9) f ∷ stream_entries fs)
        → (Listed t (stream_entries fs) → (t ≢ []) × Listed (t ++ extension) fs)
        → (t ≢ []) × Listed (t ++ extension) (f ∷ fs)
    kept_case k (inl e) ih =
        let (h, w) = kept-Keeps f k in ((λ q. h (sym e ∙ q)), inl (ap (λ x. x ++ extension) e ∙ w))
    kept_case k (inr l) ih = let (h, w) = ih l in (h, inr w)

-- The streams that the directory store lists in a stream set are the files of its directory that
-- have a non-empty name before ".zippylog", each under that name.
pub stream_names_iff :
    (root : Text) (os : FileSystem) (bucket set stream : Text)
    → Listed stream ((simple_directory_store root os).stream_names bucket set) ↔ (
        (stream ≢ [])
        × Listed (stream ++ extension) (
            listed
              (files_in_directory os (path_to_filesystem_path root (streamset_path bucket set)))))
unfolding simple_directory_store
stream_names_iff root os bucket set stream =
    (entries-Listed stream _, λ (h, l). Listed-entries stream _ h l)
