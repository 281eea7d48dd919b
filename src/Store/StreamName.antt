-- ===== src/Store/StreamName.antt =====
-- src/zippylog/store.cpp, `Store::StreamNameForTime`: the stream that a time falls into. The fields
-- of a time are numbers that are not negative, as `gmtime` gives them from 1970 on, and so is the
-- number of seconds.
pub mod Names
pub mod Periods
use zippylog.Prelude.{
  ℕ, ◌+◌, ◌*◌, ◌/◌, ◌%◌, ◌||◌, List, [], ◌∷◌, ◌++◌, Text, Outcome, done, throws, faults,
  print_padded, take, length, ltb, ◌==◌, if◌then◌else◌,
}

-- `platform::Time`, as far as it is read here.
pub record Time : Type 0 where
  pub year : ℕ
  pub mon : ℕ
  pub mday : ℕ
  pub hour : ℕ
  pub min : ℕ
  pub sec : ℕ

abbrev pub dash : ℕ
dash = b'-'

pub dashed : List Text → Text
dashed [] = []
dashed (a ∷ []) = a
dashed (a ∷ b ∷ rest) = a ++ dash ∷ dashed (b ∷ rest)

-- `sprintf` into an array of so many characters, and the string of its first ones. A text that
-- does not fit is written over what stands behind the array.
abbrev pub sprintf : ℕ → ℕ → Text → Outcome Text
sprintf size used text = if ltb (length text) size then done (take used text) else faults

abbrev pub day_fields : Time → List Text
day_fields t = print_padded 4 t.year ∷ print_padded 2 t.mon ∷ print_padded 2 t.mday ∷ []

abbrev pub hour_fields : Time → List Text
hour_fields t =
    print_padded 4 t.year
    ∷ print_padded 2 t.mon
    ∷ print_padded 2 t.mday
    ∷ print_padded 2 t.hour
    ∷ []

-- The number of the slot within the hour, from 1 on.
abbrev pub slot : Time → ℕ → ℕ
slot t seconds_per_file = (t.min * 60 + t.sec) / seconds_per_file + 1

abbrev pub slot_fields : Time → ℕ → List Text
slot_fields t seconds_per_file =
    print_padded 4 t.year
    ∷ print_padded 2 t.mon
    ∷ print_padded 2 t.mday
    ∷ print_padded 2 t.hour
    ∷ print_padded 3 (slot t seconds_per_file)
    ∷ print_padded 3 (3600 / seconds_per_file)
    ∷ []

unfoldable pub stream_name_for_time : Time → ℕ → Outcome Text
unfolding dashed
stream_name_for_time t seconds_per_file =
    if seconds_per_file == 86400
    then sprintf 11 10 (dashed (day_fields t))
    else if seconds_per_file == 3600
    then sprintf 14 13 (dashed (hour_fields t))
    else if ltb 3600 seconds_per_file || ltb seconds_per_file 4
    then throws "seconds_per_file value not valid"
    else if ltb 0 (3600 % seconds_per_file)
    then throws "seconds_per_file does not divide into 3600 evenly"
    else sprintf 22 21 (dashed (slot_fields t seconds_per_file))
