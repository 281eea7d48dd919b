-- ===== src/Store/Uri.antt =====
-- src/zippylog/store.cpp, `Store::CreateStore` with the constructor of `SimpleDirectoryStore`: from
-- a store URI to the root directory of the store. Whether a path is a directory is a parameter.
pub mod Accepted
use mathlib.Core.Option
use zippylog.Prelude.{
  ℕ, suc, ◌+◌, ◌-◌, Bool, not, ◌||◌, Option, none, some, [], ◌∷◌, Text, bytes, text_eq, substr,
  length, ltb, Outcome, done, throws, ◌==◌, if◌then◌else◌,
}

-- `s.find_first_of("://")` looks for any one of the characters.
unfoldable pub find_separator : Text → Option ℕ
find_separator [] = none
find_separator (c ∷ s) =
    if (c == b':') || (c == b'/') then some 0 else Option.map suc (find_separator s)

abbrev pub simple_protocol : Text
simple_protocol = bytes "simpledirectory"

unfoldable pub open_simple_directory : (Text → Bool) → Text → Outcome Text
open_simple_directory is_directory path =
    if not (is_directory path)
    then throws "store path does not exist, could not be read, or is not a directory"
    else done path

-- `substr` throws where its start lies behind the end.
unfoldable pub create_store : (Text → Bool) → Text → Outcome Text
unfolding find_separator open_simple_directory
create_store is_directory s = elim (find_separator s) [
  | none ↦ throws "store path not in expected URI format"
  | some i ↦
      if not (text_eq (substr s 0 i) simple_protocol)
      then throws "store protocol not understood"
      else if ltb (length s) (i + 3)
      then throws "out_of_range"
      else open_simple_directory is_directory (substr s (i + 3) (length s - i - 3))
]
