-- ===== src/Store/Contents.antt =====
-- src/zippylog/store.cpp, what `Store` tells of its contents: the lists of paths, whether a path
-- exists, and the info messages of src/zippylog/protocol.proto that describe them.
pub mod Listing
use zippylog.Prelude.{
  ℕ, zero, suc, ◌+◌, Bool, true, false, not, Option, none, some, List, [], ◌∷◌, ◌++◌, map, Text,
  length, ltb, if◌then◌else◌,
}
use zippylog.Store.Path.{parse_path, validate_path, bucket_path, streamset_path, stream_path}
use zippylog.Store.Backend.{Backend}

-- `StreamInfoV1`, `StreamSetInfoV1`, `BucketInfoV1` and `StoreInfoV1`; the length is optional.
pub record StreamInfo : Type 0 where
  pub path : Text
  pub length : Option ℕ

pub record StreamSetInfo : Type 0 where
  pub path : Text
  pub streams : List StreamInfo

pub record BucketInfo : Type 0 where
  pub path : Text
  pub stream_sets : List StreamSetInfo

pub record StoreInfo : Type 0 where
  pub buckets : List BucketInfo

-- The loop that all these functions have: a list for each item, one behind the other.
pub for_each {ℓ κ} : {A : Type ℓ} {B : Type κ} → List A → (A → List B) → List B
for_each [] f = []
for_each (x ∷ xs) f = f x ++ for_each xs f

module _ (d : Backend) where
  open d use {
    bucket_names, stream_set_names, stream_names, stream_length, bucket_exists, stream_set_exists,
    stream_exists,
  }

  -- `BucketPaths` adds to the vector that it is given; the two others clear it.
  unfoldable pub bucket_paths : List Text → List Text
  bucket_paths paths = paths ++ map bucket_path bucket_names

  unfoldable pub streamset_paths : List Text
  unfolding for_each
  streamset_paths =
      for_each bucket_names λ bucket. map (streamset_path bucket) (stream_set_names bucket)

  unfoldable pub stream_paths : List Text
  unfolding for_each
  stream_paths = for_each bucket_names λ bucket.
      for_each (stream_set_names bucket)
        λ set. map (stream_path bucket set) (stream_names bucket set)

  unfoldable pub path_exists : Text → Bool
  path_exists path = elim (parse_path path) [
    | none ↦ false
    | some r ↦
        if ltb 0 (length r.stream)
        then stream_exists r.bucket r.set r.stream
        else if ltb 0 (length r.set)
        then stream_set_exists r.bucket r.set
        else if ltb 0 (length r.bucket)
        then bucket_exists r.bucket
        else false
  ]

  -- The message that is filled, and the result. The message has its path also where it fails.
  unfoldable pub stream_info : Text → Text → Text → StreamInfo × Bool
  stream_info bucket set stream = elim (stream_length (stream_path bucket set stream)) [
    | none ↦ (record { path = stream; length = none }, false)
    | some n ↦ (record { path = stream; length = some n }, true)
  ]

  unfoldable pub stream_info_at : Text → Option (StreamInfo × Bool)
  stream_info_at path = if not (validate_path path) then none else elim (parse_path path) [
    | none ↦ none
    | some r ↦ some (stream_info r.bucket r.set r.stream)
  ]

  unfoldable pub streamset_info : Text → Text → StreamSetInfo
  unfolding stream_info
  streamset_info bucket set = record {
    path = set;
    streams = map (λ stream. (stream_info bucket set stream).0) (stream_names bucket set);
  }

  unfoldable pub streamset_info_at : Text → Option StreamSetInfo
  streamset_info_at path =
      if not (validate_path path)
      then none
      else elim (parse_path path) [ none ↦ none | some r ↦ some (streamset_info r.bucket r.set) ]

  unfoldable pub bucket_info : Text → BucketInfo
  unfolding streamset_info
  bucket_info bucket = record {
    path = bucket;
    stream_sets = map (streamset_info bucket) (stream_set_names bucket);
  }

  unfoldable pub store_info : StoreInfo
  unfolding bucket_info
  store_info = record { buckets = map bucket_info bucket_names }
