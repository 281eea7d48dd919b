-- ===== src/Envelope/Examples.antt =====
-- Tests of the model of src/zippylog/envelope.cpp on concrete inputs, and its theorems at such inputs.
use zippylog.Prelude.{
  true, done, faults, arith, ℕ, ◌≡◌, refl, Option, none, some, [], ◌∷◌, Text, bytes, length,
}
use zippylog.Envelope.{Envelope, get_message, get_cached, cache_for, fill, parse_at, remove_message}
use zippylog.Envelope.Cache.{IsCached, get_message-IsCached}
use zippylog.Envelope.Shifting.{IsSafe}
use zippylog.Envelope.Removal.{IsEven, remove_message-removes}
use zippylog.Envelope.Overrun.{remove_message-faults}

-- A message that parses to the number of its bytes.
abbrev parse_length : ℕ → ℕ → Text → Option ℕ
parse_length ns type t = some (length t)

abbrev two_messages : Envelope ℕ
two_messages = record {
  create_time = some 7;
  message = bytes "ab" ∷ bytes "cde" ∷ [];
  message_namespace = 1 ∷ 1 ∷ [];
  message_type = 91 ∷ 72 ∷ [];
  tag = [];
  messages = none;
}

got_second : (get_message parse_length 1 two_messages).0 ≡ some 3
unfolding get_message get_cached cache_for fill parse_at
got_second = refl

fresh-IsCached : IsCached parse_length two_messages
unfolding IsCached
fresh-IsCached i m h = cc

get_message-IsCached_example :
    ((get_message parse_length 1 two_messages).0 ≡ parse_at parse_length two_messages 1)
    × IsCached parse_length (get_message parse_length 1 two_messages).1
    × (record (get_message parse_length 1 two_messages).1 { messages = none } ≡ two_messages)
get_message-IsCached_example = get_message-IsCached parse_length 1 two_messages fresh-IsCached

two-IsEven : IsEven 2 two_messages
two-IsEven = record { messages = refl; namespaces = refl; types = refl }

remove_message-removes_example :
    (e' : Envelope ℕ) × (remove_message 0 two_messages ≡ done (e', true))
    × (e'.message ≡ bytes "cde" ∷ [])
    × (e'.message_namespace ≡ 1 ∷ [])
    × (e'.message_type ≡ 72 ∷ [])
    × (e'.tag ≡ [])
    × (e'.create_time ≡ some 7)
unfolding IsSafe
remove_message-removes_example = remove_message-removes 0 two_messages (omega arith) two-IsEven tt

-- A message was added after the first was parsed: the cache is one entry short.
abbrev short_cache : Envelope ℕ
short_cache = record two_messages { messages = some (some 2 ∷ []) }

remove_message-faults_example : remove_message 0 short_cache ≡ faults
remove_message-faults_example =
    remove_message-faults 0 short_cache (some 2 ∷ [])
      (record { messages = refl; namespaces = refl; types = refl }) refl (omega arith) (omega arith)
