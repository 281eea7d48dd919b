-- ===== src/Envelope.antt =====
-- src/zippylog/envelope.hpp and envelope.cpp: `Envelope`, the protocol buffer of that name with a
-- cache of the messages that were parsed out of it. Protocol buffers are lists and options, an
-- index is a number that is not negative, and the parsing of a message by its namespace and type
-- (`MessageRegistrar` and the generated classes) is a parameter.
pub mod Cache
pub mod Shifting
pub mod Removal
pub mod Overrun
mod Examples
use zippylog.Prelude.{
  ℕ, zero, suc, ◌+◌, ◌-◌, Bool, true, false, ◌||◌, Option, none, some, List, [], ◌∷◌, ◌++◌, Text,
  length, get_elem?, set, replicate, drop_last, ltb, leb, if◌then◌else◌, Outcome, done, faults,
  ◌>>=◌,
}

-- `messages` is the array of cached messages with `messages_size` entries; `none` is NULL.
pub record Envelope (Message : Type 0) : Type 0 where
  pub create_time : Option ℕ
  pub message : List Text
  pub message_namespace : List ℕ
  pub message_type : List ℕ
  pub tag : List Text
  pub messages : Option (List (Option Message))

-- Reading a repeated field behind its end is not checked.
abbrev pub read {ℓ} : {A : Type ℓ} → List A → ℕ → Outcome A
read xs i = elim (get_elem? xs i) [ none ↦ faults | some x ↦ done x ]

abbrev pub remove_last {ℓ} : {A : Type ℓ} → List A → Outcome (List A)
remove_last [] = faults
remove_last (x ∷ xs) = done (drop_last (x ∷ xs))

module _ {Message : Type 0} where
  -- The constructor without arguments, at the time `now`.
  unfoldable pub new_envelope : ℕ → Envelope Message
  new_envelope now = record {
    create_time = some now;
    message = [];
    message_namespace = [];
    message_type = [];
    tag = [];
    messages = none;
  }

  -- Copies do not take the cache along.
  unfoldable pub copy : Envelope Message → Envelope Message
  copy e = record e { messages = none }

  -- A message that cannot be serialised is not added.
  unfoldable pub add_message : Option Text → ℕ → ℕ → Envelope Message → Envelope Message × Bool
  add_message none ns enumeration e = (e, false)
  add_message (some buffer) ns enumeration e = (
    record e {
      message = e.message ++ buffer ∷ [];
      message_namespace = e.message_namespace ++ ns ∷ [];
      message_type = e.message_type ++ enumeration ∷ [];
    },
    true,
  )

  unfoldable pub add_tag : Text → Envelope Message → Envelope Message
  add_tag t e = record e { tag = e.tag ++ t ∷ [] }

  -- The array that `GetMessage` makes, or makes longer.
  unfoldable pub cache_for : ℕ → Option (List (Option Message)) → List (Option Message)
  cache_for count none = replicate count none
  cache_for count (some old) =
      if ltb (length old) count then old ++ replicate (count - length old) none else old

  abbrev pub entry_at : List (Option Message) → ℕ → Option Message
  entry_at c i = elim (get_elem? c i) [ none ↦ none | some m ↦ m ]

  -- What is found at an index goes into the cache.
  unfoldable pub fill :
      ℕ
      → List (Option Message)
      → Option Message
      → Envelope Message
      → Option Message × Envelope Message
  fill index c none e = (none, record e { messages = some c })
  fill index c (some m) e = (some m, record e { messages = some (set c index (some m)) })

  module _ (parse : ℕ → ℕ → Text → Option Message) where
    -- `message_namespace(i)`, `message_type(i)` and `message(i)`, parsed.
    unfoldable pub parse_at : Envelope Message → ℕ → Option Message
    parse_at e i = elim (get_elem? e.message_namespace i) [
      | none ↦ none
      | some ns ↦ elim (get_elem? e.message_type i) [
        | none ↦ none
        | some enumeration ↦ elim (get_elem? e.message i) [
          | none ↦ none
          | some buffer ↦ parse ns enumeration buffer
        ]
      ]
    ]

    -- A cached message is returned; else it is parsed, and kept where that succeeds.
    unfoldable pub get_cached :
        ℕ
        → List (Option Message)
        → Option Message
        → Envelope Message
        → Option Message × Envelope Message
    get_cached index c none e = fill index c (parse_at e index) e
    get_cached index c (some m) e = (some m, record e { messages = some c })

    unfoldable pub get_message : ℕ → Envelope Message → Option Message × Envelope Message
    get_message index e =
        if ltb (length e.message) (index + 1)
          || ltb (length e.message_namespace) (index + 1)
          || ltb (length e.message_type) (index + 1)
        then (none, e)
        else (let c = cache_for (length e.message) e.messages in
            get_cached index c (entry_at c index) e)

  unfoldable pub copy_message :
      ℕ → Envelope Message → Envelope Message → Outcome (Envelope Message × Bool)
  copy_message index e dest =
      let copied : Outcome (Envelope Message × Bool) = (do
        buffer ← read e.message index
        ns ← read e.message_namespace index
        enumeration ← read e.message_type index
        done (
          record dest {
            message = dest.message ++ buffer ∷ [];
            message_namespace = dest.message_namespace ++ ns ∷ [];
            message_type = dest.message_type ++ enumeration ∷ [];
          },
          true,
        )) in
      if ltb (length e.message) (index + 1) then done (dest, false) else copied

  unfoldable pub clear : Envelope Message → Envelope Message
  clear e = record {
    create_time = some (elim e.create_time [ none ↦ 0 | some t ↦ t ]);
    message = [];
    message_namespace = [];
    message_type = [];
    tag = [];
    messages = none;
  }

  -- `this->messages[k] = this->messages[k + 1]`, under the test that stands before it.
  unfoldable pub shift_cached :
      ℕ → Option (List (Option Message)) → Outcome (Option (List (Option Message)))
  shift_cached k none = done none
  shift_cached k (some c) =
      if leb (suc k) (length c)
      then elim (get_elem? c (suc k)) [ none ↦ faults | some m ↦ done (some (set c k m)) ]
      else done (some c)

  -- The loop of `RemoveMessage` behind `continue`, over the rounds that are left; `k` is `i - 1`, the
  -- slot that the round fills.
  unfoldable pub shift_down : ℕ → ℕ → Envelope Message → Outcome (Envelope Message)
  shift_down zero k e = done e
  shift_down (suc rounds) k e = do
    buffer ← read e.message (suc k)
    ns ← read e.message_namespace (suc k)
    enumeration ← read e.message_type (suc k)
    cached ← shift_cached k e.messages
    shift_down rounds (suc k) (record e {
      message = set e.message k buffer;
      message_namespace = set e.message_namespace k ns;
      message_type = set e.message_type k enumeration;
      messages = cached;
    })

  abbrev pub clear_last : ℕ → Option (List (Option Message)) → Option (List (Option Message))
  clear_last initial_size none = none
  clear_last initial_size (some c) =
      if leb initial_size (length c) then some (set c (initial_size - 1) none) else some c

  unfoldable pub remove_message : ℕ → Envelope Message → Outcome (Envelope Message × Bool)
  unfolding shift_down
  remove_message index e =
      let removed : Outcome (Envelope Message × Bool) = (do
        shifted ← shift_down (length e.message - 1 - index) index e
        ms ← remove_last shifted.message
        nss ← remove_last shifted.message_namespace
        types ← remove_last shifted.message_type
        done (
          record shifted {
            message = ms;
            message_namespace = nss;
            message_type = types;
            messages = clear_last (length e.message) shifted.messages;
          },
          true,
        )) in
      if ltb (length e.message) (index + 1) then done (e, false) else removed
