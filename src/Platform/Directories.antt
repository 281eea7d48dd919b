-- ===== src/Platform/Directories.antt =====
-- src/zippylog/platform.cpp: directories and the kinds of files, as they are read where the system is
-- POSIX.
use zippylog.Prelude.{
  ℕ, ◌/◌, ◌%◌, ◌==◌, Bool, true, false, not, ◌&&◌, Option, none, some, List, [], ◌∷◌, Text,
  if◌then◌else◌,
}

pub data FileType : Type 0 where
  regular : FileType
  directory : FileType
  pipe : FileType
  character : FileType
  unknown : FileType

-- The size is not set where the system is POSIX.
pub record DirectoryEntry : Type 0 where
  pub name : Text
  pub type : FileType

pub record FileStat : Type 0 where
  pub type : FileType
  pub size : ℕ

-- What the system answers at one moment: for a path that `opendir` opens, the names that `readdir` gives
-- with their `d_type`; the `st_mode` and `st_size` of `stat`, where it succeeds; and what the type of an
-- uninitialised FileStat happens to be.
pub record FileSystem : Type 0 where
  pub readdir : Text → Option (List (Text × ℕ))
  pub status : Text → Option (ℕ × ℕ)
  pub raw_type : Text → FileType

-- `DT_DIR` and `DT_REG`.
abbrev pub dt_dir : ℕ
dt_dir = 4

abbrev pub dt_reg : ℕ
dt_reg = 8

abbrev pub type_of : ℕ → FileType
type_of d =
    if d == dt_dir
    then FileType.directory
    else if d == dt_reg
    then FileType.regular
    else FileType.unknown

-- If `S_IFDIR`, `S_IFREG` or `S_IFIFO`, each of one bit, is in a mode.
abbrev pub has_bit : ℕ → ℕ → Bool
has_bit bit mode = mode / bit % 2 == 1

abbrev pub mode_type : ℕ → FileType
mode_type mode =
    if has_bit 16384 mode
    then FileType.directory
    else if has_bit 32768 mode
    then FileType.regular
    else if has_bit 4096 mode
    then FileType.pipe
    else FileType.unknown

abbrev pub is_directory_type : FileType → Bool
is_directory_type FileType.directory = true
is_directory_type _ = false

abbrev pub is_regular_type : FileType → Bool
is_regular_type FileType.regular = true
is_regular_type _ = false

-- `name[0]`, which is 0 for an empty name.
abbrev pub first_byte : Text → ℕ
first_byte [] = 0
first_byte (b ∷ bs) = b

unfoldable pub to_entries : List (Text × ℕ) → List DirectoryEntry
to_entries [] = []
to_entries ((n, d) ∷ rest) = record { name = n; type = type_of d } ∷ to_entries rest

-- The loops of `DirectoriesInDirectory` and `FilesInDirectory`.
unfoldable pub keep_directories : List DirectoryEntry → List DirectoryEntry
keep_directories [] = []
keep_directories (e ∷ es) =
    let rest = keep_directories es in
    if is_directory_type e.type && not (first_byte e.name == 46) then e ∷ rest else rest

unfoldable pub keep_files : List DirectoryEntry → List DirectoryEntry
keep_files [] = []
keep_files (e ∷ es) = let rest = keep_files es in if is_regular_type e.type then e ∷ rest else rest

unfoldable pub names : List DirectoryEntry → List Text
names [] = []
names (e ∷ es) = e.name ∷ names es

abbrev pub if_listed : {A B : Type 0} → (A → B) → Option A → Option B
if_listed f none = none
if_listed f (some a) = some (f a)

module _ (fs : FileSystem) where
  unfoldable pub stat : Text → Option FileStat
  stat path = if_listed (λ s. record { type = mode_type s.0; size = s.1 }) (fs.status path)

  -- The type that is tested: `stat` gives a bool, so the test for -1 never holds, and where it fails the
  -- type is that of an uninitialised FileStat.
  abbrev pub tested_type : Text → Option FileStat → FileType
  tested_type path none = fs.raw_type path
  tested_type path (some s) = s.type

  unfoldable pub path_is_directory : Text → Bool
  unfolding stat
  path_is_directory path = is_directory_type (tested_type path (stat path))

  unfoldable pub path_is_regular_file : Text → Bool
  unfolding stat
  path_is_regular_file path = is_regular_type (tested_type path (stat path))

  -- The vector, where the result is true.
  unfoldable pub directory_entries : Text → Option (List DirectoryEntry)
  unfolding to_entries
  directory_entries dir = if_listed to_entries (fs.readdir dir)

  -- The forms that give names.
  unfoldable pub directories_in_directory : Text → Option (List Text)
  unfolding directory_entries keep_directories names
  directories_in_directory dir =
      if_listed (λ es. names (keep_directories es)) (directory_entries dir)

  unfoldable pub files_in_directory : Text → Option (List Text)
  unfolding directory_entries keep_files names
  files_in_directory dir = if_listed (λ es. names (keep_files es)) (directory_entries dir)
