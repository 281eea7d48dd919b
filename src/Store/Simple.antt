-- ===== src/Store/Simple.antt =====
-- src/zippylog/store.cpp, `SimpleDirectoryStore`: a store as a tree of directories. What it asks of
-- src/zippylog/platform.cpp is in `Platform/Directories`; its creating functions are in `Store/Output`.
pub mod Entries
pub mod Coherence
use zippylog.Prelude.{
  ℕ, ◌-◌, Bool, not, ◌||◌, Option, none, some, List, [], ◌∷◌, ◌++◌, Text, text_eq, substr, length,
  ltb, if◌then◌else◌,
}
use zippylog.Platform.Directories.{
  FileStat, FileSystem, stat, path_is_directory, path_is_regular_file, directories_in_directory,
  files_in_directory,
}
use zippylog.Store.Path.{slash, extension, validate_path, bucket_path, streamset_path, stream_path}
use zippylog.Store.Backend.{Backend}

-- The vector of names: a listing that fails leaves it empty.
abbrev pub listed : Option (List Text) → List Text
listed none = []
listed (some ts) = ts

abbrev pub size_of : Option FileStat → Option ℕ
size_of none = none
size_of (some s) = some s.size

-- The loop of `StreamNames`: it erases what has not the extension, and cuts it off the rest.
unfoldable pub stream_entries : List Text → List Text
stream_entries [] = []
stream_entries (f ∷ fs) =
    if ltb (length f) 10 || not (text_eq (substr f (length f - 9) 9) extension)
    then stream_entries fs
    else substr f 0 (length f - 9) ∷ stream_entries fs

unfoldable pub path_to_filesystem_path : Text → Text → Text
path_to_filesystem_path root path = root ++ slash ∷ path

unfoldable pub stream_filesystem_path : Text → Text → Text
unfolding path_to_filesystem_path
stream_filesystem_path root path = path_to_filesystem_path root path ++ extension

module _ (root : Text) (os : FileSystem) where
  unfoldable pub stream_length : Text → Option ℕ
  unfolding stream_filesystem_path stat
  stream_length path =
      if not (validate_path path)
      then none
      else size_of (stat os (stream_filesystem_path root path))

  unfoldable pub simple_directory_store : Backend
  unfolding stream_entries path_to_filesystem_path stream_filesystem_path stream_length
      path_is_directory path_is_regular_file directories_in_directory files_in_directory
  simple_directory_store = record {
    bucket_names = listed (directories_in_directory os root);
    stream_set_names = λ bucket.
        listed (directories_in_directory os (path_to_filesystem_path root (bucket_path bucket)));
    stream_names = λ bucket set.
        stream_entries (
          listed
            (files_in_directory os (path_to_filesystem_path root (streamset_path bucket set))));
    stream_length = stream_length;
    bucket_exists =
        λ bucket. path_is_directory os (path_to_filesystem_path root (bucket_path bucket));
    stream_set_exists = λ bucket set.
        path_is_directory os (path_to_filesystem_path root (streamset_path bucket set));
    stream_exists = λ bucket set stream.
        path_is_regular_file os (stream_filesystem_path root (stream_path bucket set stream));
  }
