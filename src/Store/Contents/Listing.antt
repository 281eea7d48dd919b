-- ===== src/Store/Contents/Listing.antt =====
-- What the lists of paths and the info messages of src/zippylog/store.cpp have to do with one
-- another and with `Store::PathExists`.
use zippylog.Prelude.{◌≡◌, refl, ap, ◌≢◌, true, List, [], ◌∷◌, map, Text, All, All-append, arith}
use zippylog.Store.Path.{streamset_path, stream_path}
use zippylog.Store.Path.Grammar.{IsPlain}
use zippylog.Store.Path.Building.{build_then_parse}
use zippylog.Store.Backend.{Backend}
use zippylog.Store.Contents.{
  StoreInfo, for_each, streamset_paths, stream_paths, path_exists, stream_info, streamset_info,
  bucket_info, store_info,
}

module _ {ℓ κ μ} {A : Type ℓ} {B : Type κ} {C : Type μ} where
  for_each-map :
      (f : A → B) (g : B → List C) (h : A → List C)
      → ((x : A) → g (f x) ≡ h x)
      → (xs : List A) → for_each (map f xs) g ≡ for_each xs h
  unfolding for_each
  for_each-map f g h e [] = refl
  for_each-map f g h e (x ∷ xs) = rw (e x, for_each-map f g h e xs)

  map-map :
      (f : A → B) (g : B → C) (h : A → C)
      → ((x : A) → g (f x) ≡ h x)
      → (xs : List A) → map g (map f xs) ≡ map h xs
  map-map f g h e [] = refl
  map-map f g h e (x ∷ xs) = rw (e x, map-map f g h e xs)

-- The stream paths that a store's info message names.
abbrev pub info_paths : StoreInfo → List Text
info_paths info =
    for_each info.buckets
      λ b. for_each b.stream_sets λ s. map (λ t. stream_path b.path s.path t.path) s.streams

module _ (d : Backend) where
  info-path : (b s t : Text) → (stream_info d b s t).0.path ≡ t
  unfolding stream_info
  info-path b s t = ground arith

  set_paths :
      (b s : Text)
      → map (λ t. stream_path b s t.path) (streamset_info d b s).streams
        ≡ map (stream_path b s) (d.stream_names b s)
  unfolding streamset_info
  set_paths b s =
      map-map (λ t. (stream_info d b s t).0) (λ t. stream_path b s t.path) (stream_path b s)
        (λ t. ap (stream_path b s) (info-path b s t)) (d.stream_names b s)

  bucket_paths_of : (b : Text) → List Text
  bucket_paths_of b =
      for_each (d.stream_set_names b) λ s. map (stream_path b s) (d.stream_names b s)

  bucket_info-paths :
      (b : Text)
      → for_each
          (bucket_info d b).stream_sets
          (λ s. map (λ t. stream_path b s.path t.path) s.streams)
        ≡ bucket_paths_of b
  unfolding bucket_info streamset_info bucket_paths_of
  bucket_info-paths b =
      for_each-map (streamset_info d b) (λ s. map (λ t. stream_path b s.path t.path) s.streams)
        (λ s. map (stream_path b s) (d.stream_names b s)) (set_paths b) (d.stream_set_names b)

  -- The info message of a store names the streams that `StreamPaths` lists, in the same order, those
  -- whose length cannot be found too.
  pub store_info-stream_paths : info_paths (store_info d) ≡ stream_paths d
  unfolding store_info stream_paths bucket_info bucket_paths_of
  store_info-stream_paths =
      for_each-map (bucket_info d)
        (λ b. for_each b.stream_sets λ s. map (λ t. stream_path b.path s.path t.path) s.streams)
        bucket_paths_of bucket_info-paths d.bucket_names

module _ {ℓ κ μ} {A : Type ℓ} {B : Type κ} (P : A → Type μ) (Q : B → Type μ) where
  All-for_each :
      (f : A → List B)
      → ((x : A) → P x → All Q (f x))
      → (xs : List A) → All P xs
      → All Q (for_each xs f)
  unfolding for_each
  All-for_each f h [] k = tt
  All-for_each f h (x ∷ xs) k = All-append Q (f x) _ (h x k.0) (All-for_each f h xs k.1)

  All-map : (f : A → B) → ((x : A) → P x → Q (f x)) → (xs : List A) → All P xs → All Q (map f xs)
  All-map f h [] k = tt
  All-map f h (x ∷ xs) k = (h x k.0, All-map f h xs k.1)

-- A component of a path: a name that is not empty.
abbrev pub IsComponent : Text → Type 0
IsComponent s = (s ≢ []) × IsPlain s

-- What a kind of store promises: the names that it lists, of buckets, of stream sets in a listed bucket,
-- and of streams in a listed stream set, are names of things that exist.
abbrev pub StreamExists : Backend → Text → Text → Text → Type 0
StreamExists d b s t = IsComponent t × (d.stream_exists b s t ≡ true)

abbrev pub SetExists : Backend → Text → Text → Type 0
SetExists d b s =
    IsComponent s × (d.stream_set_exists b s ≡ true) × All (StreamExists d b s) (d.stream_names b s)

abbrev pub BucketExists : Backend → Text → Type 0
BucketExists d b =
    IsComponent b × (d.bucket_exists b ≡ true) × All (SetExists d b) (d.stream_set_names b)

pub record IsCoherent (d : Backend) : Type 0 where
  pub buckets : All (BucketExists d) d.bucket_names

module _ (d : Backend) (coherent : IsCoherent d) where
  stream_exists :
      (b s t : Text)
      → IsComponent b
      → IsComponent s
      → StreamExists d b s t
      → path_exists d (stream_path b s t) ≡ true
  unfolding path_exists
  stream_exists b s t hb hs ht =
      let built = build_then_parse b s t hb.1 hs.1 ht.0.1 hb.0 hs.0 ht.0.0 in
      ground (arith, built.2)

  set_exists :
      (b s : Text) → IsComponent b → SetExists d b s → path_exists d (streamset_path b s) ≡ true
  unfolding path_exists
  set_exists b s hb hs =
      let built = build_then_parse b s s hb.1 hs.0.1 hs.0.1 hb.0 hs.0.0 hs.0.0 in
      ground (arith, built.1)

  -- In a store whose kind lists well-named things that exist, every path that `StreamsetPaths` or
  -- `StreamPaths` lists passes `PathExists`.
  pub listed-exists :
      All (λ p. path_exists d p ≡ true) (streamset_paths d)
      × All (λ p. path_exists d p ≡ true) (stream_paths d)
  unfolding streamset_paths stream_paths
  listed-exists = (
    All-for_each _ _ _ (λ b hb. All-map _ _ _ (λ s hs. set_exists b s hb.0 hs) _ hb.2) _
        coherent.buckets,
    All-for_each _ _ _
        (λ b hb.
          All-for_each _ _ _
            (λ s hs. All-map _ _ _ (λ t ht. stream_exists b s t hb.0 hs.0 ht) _ hs.2) _ hb.2)
        _ coherent.buckets,
  )
