-- ===== src/Store/Simple/Coherence.antt =====
-- The directory store of src/zippylog/store.cpp keeps the promise of its interface, over the functions of
-- src/zippylog/platform.cpp that read directories.
use mathlib.Core.List.{append_assoc}
use zippylog.Prelude.{
  ℕ, ◌==◌, ==_iff, ◌&&◌, ◌≡◌, refl, sym, ◌∙◌, subst, inl, inr, Bool, true, false, not, Bool-cases,
  Option, none, some, List, [], ◌∷◌, ◌++◌, Text, All,
}
use zippylog.Platform.Directories.{
  FileType, FileSystem, type_of, mode_type, is_directory_type, is_regular_type, first_byte,
  to_entries, keep_directories, keep_files, names, stat, path_is_directory, path_is_regular_file,
  directory_entries, directories_in_directory, files_in_directory, dt_dir, dt_reg, if_listed,
}
use zippylog.Store.Path.{slash, extension, bucket_path, streamset_path, stream_path}
use zippylog.Store.Backend.{Backend}
use zippylog.Store.Contents.Listing.{IsComponent, StreamExists, SetExists, BucketExists, IsCoherent}
use zippylog.Store.Simple.{
  listed, path_to_filesystem_path, stream_filesystem_path, simple_directory_store,
}
use zippylog.Store.Simple.Entries.{Listed, entries-Listed}

-- `stat` succeeds, with a mode that is taken for the kind.
abbrev pub Found : FileSystem → (FileType → Bool) → Text → Type 0
Found fs p path =
    (mode size : ℕ) × (fs.status path ≡ some (mode, size)) × (p (mode_type mode) ≡ true)

-- What `readdir` tells of an entry is what `stat` finds there.
pub data Agrees (fs : FileSystem) (dir : Text) (entry : Text × ℕ) : Type 0 where
  agrees :
      (entry.1 ≡ dt_dir → Found fs is_directory_type (dir ++ slash ∷ entry.0))
      → (entry.1 ≡ dt_reg → Found fs is_regular_type (dir ++ slash ∷ entry.0))
      → Agrees fs dir entry

-- A POSIX system that nobody changes: `readdir` and `stat` agree, and two slashes are read as one.
pub record IsStill (fs : FileSystem) : Type 0 where
  pub agree :
      (dir : Text) (entries : List (Text × ℕ))
      → fs.readdir dir ≡ some entries
      → All (Agrees fs dir) entries
  pub slashes : (p q : Text) → fs.status (p ++ slash ∷ slash ∷ q) ≡ fs.status (p ++ slash ∷ q)

-- The names that a store lists are components of paths.
pub record IsNamed (d : Backend) : Type 0 where
  pub buckets :
      All
        (λ b.
          IsComponent b
          × All (λ s. IsComponent s × All IsComponent (d.stream_names b s)) (d.stream_set_names b))
        d.bucket_names

All-Listed : (P : Text → Type 0) (xs : List Text) → ((t : Text) → Listed t xs → P t) → All P xs
All-Listed P [] h = tt
All-Listed P (x ∷ xs) h = (h x (inl refl), All-Listed P xs (λ t l. h t (inr l)))

Listed-All : (P : Text → Type 0) (t : Text) (xs : List Text) → All P xs → Listed t xs → P t
Listed-All P t [] h l = absurd l
Listed-All P t (x ∷ xs) h (inl e) = subst P (sym e) h.0
Listed-All P t (x ∷ xs) h (inr l) = Listed-All P t xs h.1 l

-- Two properties of each item make one.
All-zip :
    (P Q R : Text → Type 0)
    → ((t : Text) → P t → Q t → R t)
    → (xs : List Text) → All P xs
    → All Q xs
    → All R xs
All-zip P Q R f [] p q = tt
All-zip P Q R f (x ∷ xs) p q = (f x p.0 q.0, All-zip P Q R f xs p.1 q.1)

set_place :
    (root b s : Text)
    → path_to_filesystem_path root (bucket_path b) ++ slash ∷ s
      ≡ path_to_filesystem_path root (streamset_path b s)
unfolding path_to_filesystem_path streamset_path
set_place root b s = simp append_assoc

stream_place :
    (root b s t : Text)
    → path_to_filesystem_path root (streamset_path b s) ++ slash ∷ (t ++ extension)
      ≡ stream_filesystem_path root (stream_path b s t)
unfolding path_to_filesystem_path stream_path stream_filesystem_path
stream_place root b s t = simp append_assoc

impossible : false ≡ true → ⊥
impossible e = cc

and_left : (a b : Bool) → (a && b) ≡ true → a ≡ true
and_left true b h = refl
and_left false b h = absurd (impossible h)

module _ (fs : FileSystem) where
  is_directory_at :
      (path : Text) → Found fs is_directory_type path → path_is_directory fs path ≡ true
  unfolding path_is_directory stat
  is_directory_at path found = rw (found.2, path_is_directory) found.3

  is_regular_at :
      (path : Text) → Found fs is_regular_type path → path_is_regular_file fs path ≡ true
  unfolding path_is_regular_file stat
  is_regular_at path found = rw (found.2, path_is_regular_file) found.3

  -- The type of an entry is of its number.
  directory_number : (d : ℕ) → is_directory_type (type_of d) ≡ true → d ≡ dt_dir
  directory_number d h = elim (Bool-cases (d == 4)) [
    | inl e ↦ (==_iff d 4).0 e
    | inr e ↦ elim (Bool-cases (d == 8)) [
      | inl f ↦ absurd (impossible (rw (e, f) at h))
      | inr f ↦ absurd (impossible (rw (e, f) at h))
    ]
  ]

  regular_number : (d : ℕ) → is_regular_type (type_of d) ≡ true → d ≡ dt_reg
  regular_number d h = elim (Bool-cases (d == 4)) [
    | inl e ↦ absurd (impossible (rw e at h))
    | inr e ↦ elim (Bool-cases (d == 8)) [
      | inl f ↦ (==_iff d 8).0 f
      | inr f ↦ absurd (impossible (rw (e, f) at h))
    ]
  ]

  directories-There :
      (dir : Text) (entries : List (Text × ℕ))
      → All (Agrees fs dir) entries
      → All
          (λ n. Found fs is_directory_type (dir ++ slash ∷ n))
          (names (keep_directories (to_entries entries)))
  unfolding to_entries keep_directories names
  directories-There dir [] a = tt
  directories-There dir ((n, d) ∷ rest) (agrees f g, a) =
      elim (Bool-cases (is_directory_type (type_of d) && not (first_byte n == 46))) [
        | inl k ↦
            rw (k, keep_directories)
              (f (directory_number d (and_left _ _ k)), directories-There dir rest a)
        | inr k ↦ rw (k, keep_directories) (directories-There dir rest a)
      ]

  files-There :
      (dir : Text) (entries : List (Text × ℕ))
      → All (Agrees fs dir) entries
      → All
          (λ n. Found fs is_regular_type (dir ++ slash ∷ n))
          (names (keep_files (to_entries entries)))
  unfolding to_entries keep_files names
  files-There dir [] a = tt
  files-There dir ((n, d) ∷ rest) (agrees f g, a) =
      elim (Bool-cases (is_regular_type (type_of d))) [
        | inl k ↦ rw (k, keep_files) (g (regular_number d k), files-There dir rest a)
        | inr k ↦ rw (k, keep_files) (files-There dir rest a)
      ]

  module _ (still : IsStill fs) where
    listed_directories :
        (dir : Text) (o : Option (List (Text × ℕ)))
        → fs.readdir dir ≡ o
        → All
            (λ n. Found fs is_directory_type (dir ++ slash ∷ n))
            (listed (if_listed (λ es. names (keep_directories es)) (if_listed to_entries o)))
    listed_directories dir none e = tt
    listed_directories dir (some es) e = directories-There dir es (still.agree dir es e)

    listed_files :
        (dir : Text) (o : Option (List (Text × ℕ)))
        → fs.readdir dir ≡ o
        → All
            (λ n. Found fs is_regular_type (dir ++ slash ∷ n))
            (listed (if_listed (λ es. names (keep_files es)) (if_listed to_entries o)))
    listed_files dir none e = tt
    listed_files dir (some es) e = files-There dir es (still.agree dir es e)

    subdirectories :
        (dir : Text)
        → All
            (λ n. Found fs is_directory_type (dir ++ slash ∷ n))
            (listed (directories_in_directory fs dir))
    unfolding directories_in_directory directory_entries
    subdirectories dir = listed_directories dir (fs.readdir dir) refl

    files :
        (dir : Text)
        → All
            (λ n. Found fs is_regular_type (dir ++ slash ∷ n))
            (listed (files_in_directory fs dir))
    unfolding files_in_directory directory_entries
    files dir = listed_files dir (fs.readdir dir) refl

    two_slashes :
        (p q : Text)
        → Found fs is_directory_type (p ++ slash ∷ q)
        → Found fs is_directory_type (p ++ slash ∷ slash ∷ q)
    two_slashes p q (mode, size, h, t) = (mode, size, still.slashes p q ∙ h, t)

    module _ (root : Text) where
      buckets-There :
          All
            (λ b. (simple_directory_store root fs).bucket_exists b ≡ true)
            (simple_directory_store root fs).bucket_names
      unfolding simple_directory_store path_to_filesystem_path bucket_path
      buckets-There =
          All-zip (λ b. Found fs is_directory_type (root ++ slash ∷ b)) (λ b. Unit {0}) _
            (λ b h u. is_directory_at _ (two_slashes root b h)) _ (subdirectories root)
            (All-Listed _ _ (λ t l. tt))

      sets-There :
          (b : Text)
          → All
              (λ s. (simple_directory_store root fs).stream_set_exists b s ≡ true)
              ((simple_directory_store root fs).stream_set_names b)
      unfolding simple_directory_store
      sets-There b =
          All-zip
            (λ s.
              Found fs is_directory_type
                (path_to_filesystem_path root (bucket_path b) ++ slash ∷ s))
            (λ s. Unit {0}) _
            (λ s h u.
              subst (λ p. path_is_directory fs p ≡ true) (set_place root b s) (is_directory_at _ h))
            _ (subdirectories (path_to_filesystem_path root (bucket_path b)))
            (All-Listed _ _ (λ t l. tt))

      streams-There :
          (b s : Text)
          → All
              (λ t. (simple_directory_store root fs).stream_exists b s t ≡ true)
              ((simple_directory_store root fs).stream_names b s)
      unfolding simple_directory_store
      streams-There b s = All-Listed _ _ (λ t l.
          let (h, m) = entries-Listed t _ l in
          rw (← stream_place root b s t) (
            is_regular_at _
              (Listed-All _ _ _ (files (path_to_filesystem_path root (streamset_path b s))) m)))

      pub simple-IsCoherent :
          IsNamed (simple_directory_store root fs) → IsCoherent (simple_directory_store root fs)
      simple-IsCoherent named =
          (let d = simple_directory_store root fs in
            record {
              buckets =
                  All-zip _ _ (BucketExists d)
                    (λ b n h. (
                      n.0,
                      h,
                      All-zip _ _ (SetExists d b)
                          (λ s m k. (
                            m.0,
                            k,
                            All-zip _ _ (StreamExists d b s) (λ t p q. (p, q)) _ m.1
                                (streams-There b s),
                          ))
                          _ n.1 (sets-There b),
                    ))
                    _ named.buckets buckets-There;
            })
