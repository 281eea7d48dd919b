-- ===== src/Store/Examples.antt =====
-- Tests of the model of src/zippylog/store.cpp on concrete inputs, and its theorems at such inputs.
use zippylog.Prelude.{
  ℕ, ◌+◌, ◌==◌, ◌||◌, ◌≡◌, refl, sym, ◌∙◌, subst, some-injective, ap, ◌↔◌, inl, inr, true, false,
  Option, none, some, List, [], ◌∷◌, ◌++◌, Text, bytes, text_eq, done, throws, if◌then◌else◌,
  print_padded, arith, All,
}
use zippylog.Store.Path.{StorePath, slash, parse_path, is_bucket_path, stream_path}
use zippylog.Store.Path.Grammar.{IsPlain, Layout}
use zippylog.Store.Path.Parsing.{parse_path_iff}
use zippylog.Store.Path.Building.{build_then_parse}
use zippylog.Store.Backend.{Backend}
use zippylog.Store.Contents.{stream_paths, streamset_paths, path_exists}
use zippylog.Store.Contents.Listing.{IsComponent, listed-exists}
use zippylog.Platform.Directories.{FileType, FileSystem, dt_dir, dt_reg}
use zippylog.Store.Simple.{simple_directory_store}
use zippylog.Store.Simple.Coherence.{Agrees, agrees, IsStill, IsNamed, simple-IsCoherent}
use zippylog.Store.StreamName.{Time, stream_name_for_time}
use zippylog.Store.StreamName.Names.{IsTime}
use zippylog.Store.StreamName.Periods.{SamePeriod, same_stream_iff}
use zippylog.Store.Output.{Outputs, System, obtain_output_stream, write_envelope}
use zippylog.Store.Output.Streams.{obtain_again}
use zippylog.Store.Output.Writes.{write_twice}
use zippylog.Store.Uri.{create_store}
use zippylog.Store.Uri.Accepted.{Accepts, create_store_iff}

abbrev a_stream : StorePath
a_stream = record { bucket = bytes "acme"; set = bytes "web-1"; stream = bytes "2011-01-02" }

-- Paths as in the unit tests of the store.
parse_tests :
    (parse_path (bytes "/acme/web-1/2011-01-02.zippylog") ≡ some a_stream)
    × (parse_path (bytes "/acme/web-1/2011-01-02") ≡ some a_stream)
    × (parse_path (bytes "/a b") ≡ none)
    × (parse_path (bytes "/a//b") ≡ none)
    × (parse_path (bytes "/a/b/c/d") ≡ none)
    × (parse_path (bytes "a") ≡ none)
    × (parse_path (bytes "/") ≡ some (record { bucket = []; set = []; stream = [] }))
    × (is_bucket_path (bytes "/a/") ≡ true)
unfolding parse_path is_bucket_path text_eq
parse_tests = (refl, refl, refl, refl, refl, refl, refl, refl)

parse_path_iff_example :
    (parse_path (bytes "/acme/web-1/2011-01-02.zippylog") ≡ some a_stream)
    ↔ Layout (bytes "/acme/web-1/2011-01-02.zippylog") a_stream
parse_path_iff_example = parse_path_iff (bytes "/acme/web-1/2011-01-02.zippylog") a_stream

component-IsPlain : IsPlain (bytes "web-1")
component-IsPlain = ground arith

build_then_parse_example :
    parse_path (stream_path (bytes "web-1") (bytes "web-1") (bytes "web-1"))
    ≡ some (record { bucket = bytes "web-1"; set = bytes "web-1"; stream = bytes "web-1" })
build_then_parse_example =
    (build_then_parse (bytes "web-1") (bytes "web-1") (bytes "web-1") component-IsPlain
      component-IsPlain component-IsPlain (λ e. cc) (λ e. cc) (λ e. cc)).2

-- A file system that has the same names everywhere, those of directories with a 1 or a dot
-- at their end.
unfoldable last_byte : Text → ℕ
last_byte [] = 0
last_byte (a ∷ []) = a
last_byte (a ∷ b ∷ rest) = last_byte (b ∷ rest)

last_byte-append : (xs : Text) (y : ℕ) (ys : Text) → last_byte (xs ++ y ∷ ys) ≡ last_byte (y ∷ ys)
unfolding last_byte
last_byte-append [] y ys = refl
last_byte-append (x ∷ []) y ys = refl
last_byte-append (x ∷ z ∷ xs) y ys = last_byte-append (z ∷ xs) y ys

abbrev mode_at : ℕ → Option (ℕ × ℕ)
mode_at b = if (b == 49) || (b == 46) then some (16877, 7) else some (33188, 7)

abbrev items : List (Text × ℕ)
items =
    (bytes "..", dt_dir)
    ∷ (bytes "web-1", dt_dir)
    ∷ (bytes "s.zippylog", dt_reg)
    ∷ (bytes "notes.txt", dt_reg)
    ∷ []

abbrev shelves : FileSystem
shelves = record {
  readdir = λ _. some items;
  status = λ path. mode_at (last_byte path);
  raw_type = λ path. FileType.unknown;
}

abbrev shelf : Backend
shelf = simple_directory_store (bytes "/srv") shelves

stream_paths_test : stream_paths shelf ≡ bytes "/web-1/web-1/s" ∷ []
unfolding stream_paths simple_directory_store stream_path text_eq
stream_paths_test = refl

web-IsComponent : IsComponent (bytes "web-1")
web-IsComponent = ((λ e. cc), component-IsPlain)

stem-IsComponent : IsComponent (bytes "s")
stem-IsComponent = ground arith

at_end :
    (dir : Text) (y : ℕ) (ys : Text) → shelves.status (dir ++ y ∷ ys) ≡ mode_at (last_byte (y ∷ ys))
at_end dir y ys = ap mode_at (last_byte-append dir y ys)

a_directory :
    (dir name : Text)
    → mode_at (last_byte (slash ∷ name)) ≡ some (16877, 7)
    → Agrees shelves dir (name, dt_dir)
a_directory dir name e =
    agrees (λ _. (16877, 7, at_end dir slash name ∙ e, refl)) (λ d. absurd (omega (arith, d)))

a_file :
    (dir name : Text)
    → mode_at (last_byte (slash ∷ name)) ≡ some (33188, 7)
    → Agrees shelves dir (name, dt_reg)
a_file dir name e =
    agrees (λ d. absurd (omega (arith, d))) (λ _. (33188, 7, at_end dir slash name ∙ e, refl))

all_agree : (dir : Text) → All (Agrees shelves dir) items
unfolding last_byte
all_agree dir = (
  a_directory dir (bytes "..") refl,
  (
    a_directory dir (bytes "web-1") refl,
    (a_file dir (bytes "s.zippylog") refl, (a_file dir (bytes "notes.txt") refl, tt)),
  ),
)

shelves-IsStill : IsStill shelves
unfolding last_byte
shelves-IsStill = record {
  agree = λ dir entries e.
      subst (All (Agrees shelves dir)) (some-injective items entries e) (all_agree dir);
  slashes = λ p q. at_end p slash (slash ∷ q) ∙ sym (at_end p slash q);
}

shelf-IsNamed : IsNamed shelf
unfolding simple_directory_store text_eq
shelf-IsNamed = record {
  buckets = ((web-IsComponent, ((web-IsComponent, (stem-IsComponent, tt)), tt)), tt);
}

listed-exists_example :
    All (λ p. path_exists shelf p ≡ true) (streamset_paths shelf)
    × All (λ p. path_exists shelf p ≡ true) (stream_paths shelf)
listed-exists_example =
    listed-exists shelf (simple-IsCoherent shelves shelves-IsStill (bytes "/srv") shelf-IsNamed)

-- 2011-01-02, at 13:14:15 and a little later.
abbrev afternoon : Time
afternoon = record { year = 2011; mon = 1; mday = 2; hour = 13; min = 14; sec = 15 }

abbrev later_on : Time
later_on = record afternoon { min = 19; sec = 59 }

afternoon-IsTime : IsTime afternoon
afternoon-IsTime = omega arith

later-IsTime : IsTime later_on
later-IsTime = omega arith

name_tests :
    (stream_name_for_time afternoon 86400 ≡ done (bytes "2011-01-02"))
    × (stream_name_for_time afternoon 3600 ≡ done (bytes "2011-01-02-13"))
    × (stream_name_for_time afternoon 300 ≡ done (bytes "2011-01-02-13-003-012"))
unfolding stream_name_for_time print_padded
name_tests = (refl, refl, refl)

same_stream_iff_example :
    (stream_name_for_time afternoon 600 ≡ stream_name_for_time later_on 600)
    ↔ SamePeriod 600 afternoon later_on
same_stream_iff_example =
    same_stream_iff afternoon later_on afternoon-IsTime later-IsTime 600 (inr (inr (omega arith)))

-- A system on which all succeeds; its disk counts the files that were opened.
abbrev willing : System ℕ
willing = record {
  observe = λ n. record {
    readdir = λ path. none;
    status = λ path. none;
    raw_type = λ path. FileType.unknown;
  };
  make_directory = λ _ n. (true, n);
  open_output = λ _ n. done (n + 1);
  time_of = λ t. elim t [ none ↦ afternoon | some _ ↦ later_on ];
}

abbrev untouched : Outputs ℕ
untouched = record { out_streams = []; next_stream = 0; written = []; flushed = []; disk = 0 }

abbrev acme_path : Text
acme_path = bytes "/acme/web/2011-01-02-13"

abbrev opened : Outputs ℕ
opened = record untouched {
  out_streams = (acme_path, record { stream = 0; last_write_time = none }) ∷ [];
  next_stream = 1;
  disk = 1;
}

opened_first :
    obtain_output_stream willing (bytes "/srv") (bytes "acme") (bytes "web") 3600 none untouched
    ≡ done (some (record { stream = 0; last_write_time = none }), opened)
unfolding obtain_output_stream stream_name_for_time print_padded stream_path
opened_first = refl

same_hour : SamePeriod 3600 afternoon later_on
same_hour = omega arith

obtain_again_example :
    obtain_output_stream willing (bytes "/srv") (bytes "acme") (bytes "web") 3600 (some 0) opened
    ≡ done (some (record { stream = 0; last_write_time = none }), opened)
obtain_again_example =
    obtain_again willing (bytes "/srv") (bytes "acme") (bytes "web") 3600 none untouched (some 0)
      opened opened_first refl afternoon-IsTime later-IsTime (inr (inl refl)) same_hour

abbrev after_first : Outputs ℕ
after_first = record opened { written = (0, bytes "x") ∷ [] }

wrote_first :
    write_envelope willing
      (bytes "/srv")
      (bytes "acme")
      (bytes "web")
      (true, bytes "x")
      none
      untouched
    ≡ done (true, after_first)
unfolding write_envelope stream_name_for_time print_padded stream_path
wrote_first = refl

write_twice_example :
    (stream : ℕ) × (after_first.written ≡ untouched.written ++ (stream, bytes "x") ∷ [])
    × (write_envelope willing
          (bytes "/srv")
          (bytes "acme")
          (bytes "web")
          (false, bytes "y")
          (some 0)
          after_first
        ≡ done (
          false,
          record after_first {
            written = untouched.written ++ (stream, bytes "x") ∷ (stream, bytes "y") ∷ [];
          },
        ))
write_twice_example =
    write_twice willing (bytes "/srv") (bytes "acme") (bytes "web") true (bytes "x")
      (false, bytes "y") none (some 0) untouched wrote_first afternoon-IsTime later-IsTime same_hour

-- The form that the documentation of `CreateStore` gives, and one that it does not.
uri_tests :
    (create_store (λ _. true) (bytes "simpledirectory:///srv") ≡ done (bytes "/srv"))
    × (create_store (λ _. true) (bytes "simpledirectory/xy/srv") ≡ done (bytes "/srv"))
    × (create_store (λ _. true) (bytes "simpledirectory:") ≡ throws "out_of_range")
unfolding create_store text_eq
uri_tests = (refl, refl, refl)

create_store_iff_example :
    (create_store (λ _. true) (bytes "simpledirectory:///srv") ≡ done (bytes "/srv"))
    ↔ Accepts (λ _. true) (bytes "simpledirectory:///srv") (bytes "/srv")
create_store_iff_example =
    create_store_iff (λ _. true) (bytes "simpledirectory:///srv") (bytes "/srv")
