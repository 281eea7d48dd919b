-- ===== src/Store/Path.antt =====
-- src/zippylog/store.cpp, the static functions on store paths: `Store::ValidatePath`,
-- `Store::ParsePath` and the functions over them, and those that build paths. The strings that
-- `ParsePath` sets through references are a record; a result `false` is `none`, since every caller
-- drops what was set.
pub mod Grammar
pub mod Validation
pub mod Rounds
pub mod Parsing
pub mod Building
use zippylog.Prelude.{
  ℕ, zero, suc, ◌+◌, ◌-◌, Bool, true, false, not, ◌&&◌, ◌||◌, Option, none, some, [], ◌∷◌, ◌++◌,
  Text, bytes, text_eq, find_first_of, substr, is_empty, length, take, drop, ltb, leb, ◌==◌,
  if◌then◌else◌,
}

abbrev pub slash : ℕ
slash = b'/'

abbrev pub extension : Text
extension = bytes ".zippylog"

abbrev pub is_name_char : ℕ → Bool
is_name_char c =
    (leb 48 c && leb c 57)
    || (leb 65 c && leb c 90)
    || (leb 97 c && leb c 122)
    || (c == 45)
    || (c == 95)

-- The loop of `ValidatePath`: `prev` is `path[i-1]`, the list is the path from `i` on.
pub validate_from : ℕ → ℕ → Text → Bool
validate_from prev seen [] = true
validate_from prev seen (c ∷ rest) =
    let next_field = validate_from c (seen + 1) rest in
    let same_field = validate_from c seen rest in
    if c == slash
    then if prev == slash then false else if ltb 3 (seen + 1) then false else next_field
    else if is_name_char c
    then same_field
    else (seen == 3) && (c == b'.') && text_eq (c ∷ rest) extension

-- Reading `path[0]` of an empty string gives a NUL.
pub validate_path : Text → Bool
unfolding validate_from
validate_path [] = false
validate_path (c ∷ rest) = if c == slash then validate_from c 1 rest else false

pub record StorePath : Type 0 where
  pub bucket : Text
  pub set : Text
  pub stream : Text

abbrev pub root_path : StorePath
root_path = record { bucket = []; set = []; stream = [] }

pub strip_extension : Text → Text
strip_extension s =
    if ltb 9 (length s) && text_eq (substr s (length s - 9) 9) extension
    then take (length s - 9) s
    else s

-- The `switch` at the last component and the one at a component before a slash.
abbrev pub last_field : ℕ → ℕ → Text → StorePath → StorePath
last_field zero curr path r = record r { bucket = substr path 1 (length path - 1) }
last_field (suc zero) curr path r = record r { set = substr path curr (length path - curr) }
last_field (suc (suc zero)) curr path r = record r {
  stream = strip_extension (substr path curr (length path - curr));
}
last_field (suc (suc (suc _))) curr path r = r

abbrev pub middle_field : ℕ → ℕ → ℕ → Text → StorePath → Option StorePath
middle_field zero curr off path r = some (record r { bucket = substr path 1 (off - 1) })
middle_field (suc zero) curr off path r = some (record r { set = substr path curr (off - curr) })
middle_field (suc (suc zero)) curr off path r = none
middle_field (suc (suc (suc _))) curr off path r = some r

-- The loop of `ParsePath`; the first argument counts the rounds that are left.
pub parse_fields : ℕ → ℕ → ℕ → ℕ → Text → StorePath → Option StorePath
parse_fields zero field curr off path r = some r
parse_fields (suc rounds) field curr off path r = elim (find_first_of slash path off) [
  | none ↦ some (last_field field curr path r)
  | some at ↦ elim (middle_field field curr at path r) [
    | none ↦ none
    | some r' ↦ parse_fields rounds (field + 1) (at + 1) (at + 1) path r'
  ]
]

unfoldable pub parse_path : Text → Option StorePath
unfolding validate_path parse_fields strip_extension find_first_of
parse_path path =
    if not (validate_path path)
    then none
    else if length path == 1
    then some root_path
    else parse_fields 3 0 1 1 path root_path

-- The functions below hand on what `ParsePath` found, or test it.
unfoldable pub parse_bucket_path : Text → Option Text
parse_bucket_path path = elim (parse_path path) [
  | none ↦ none
  | some r ↦ if ltb 0 (length r.bucket) then some r.bucket else none
]

unfoldable pub parse_stream_set_path : Text → Option (Text × Text)
parse_stream_set_path path = elim (parse_path path) [
  | none ↦ none
  | some r ↦
      if ltb 0 (length r.bucket) && ltb 0 (length r.set) then some (r.bucket, r.set) else none
]

unfoldable pub is_bucket_path : Text → Bool
is_bucket_path path = elim (parse_path path) [
  | none ↦ false
  | some r ↦ not (is_empty r.bucket) && is_empty r.set && is_empty r.stream
]

unfoldable pub is_stream_set_path : Text → Bool
is_stream_set_path path = elim (parse_path path) [
  | none ↦ false
  | some r ↦ not (is_empty r.bucket) && not (is_empty r.set) && is_empty r.stream
]

unfoldable pub is_stream_path : Text → Bool
is_stream_path path = elim (parse_path path) [
  | none ↦ false
  | some r ↦ not (is_empty r.bucket) && not (is_empty r.set) && not (is_empty r.stream)
]

unfoldable pub bucket_path : Text → Text
bucket_path bucket = slash ∷ bucket

unfoldable pub streamset_path : Text → Text → Text
unfolding bucket_path
streamset_path bucket set = bucket_path bucket ++ slash ∷ set

unfoldable pub stream_path : Text → Text → Text → Text
unfolding streamset_path
stream_path bucket set stream = streamset_path bucket set ++ slash ∷ stream
