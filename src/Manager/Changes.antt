-- ===== src/Manager/Changes.antt =====
-- src/zippylog/persisted_state_manager.cpp: the state of a `PersistedStateManager` and what it does
-- when the store changes, with `EnvelopeSubscriptionResponseState` of
-- src/zippylog/request_processor.cpp, into which it collects envelopes.
pub mod Steps
pub mod Silence
use Prim.Native.String.{String}
use zippylog.Prelude.{
  ℕ, zero, suc, ◌+◌, ◌%◌, ◌^◌, Bool, true, false, not, Option, none, some, List, [], ◌∷◌, ◌++◌,
  Text, is_empty, length, ltb, text_eq, if◌then◌else◌, Outcome, done, throws, faults,
}
use zippylog.Store.Path.{is_stream_path}
use zippylog.Store.Backend.{Backend}
use zippylog.Store.Contents.{stream_paths}
use zippylog.Envelope.{Envelope}
use zippylog.Stream.{CodedInput, InputStream, read_envelope, set_absolute_offset}
use zippylog.RequestProcessor.Messages.{ErrorCode, SubscriptionInfo}
use zippylog.Manager.{Subscription, is_path_subscribed, is_envelope}

-- `stream_read_offsets`, a map: one entry for each path.
abbrev pub Offsets : Type 0
Offsets = List (Text × ℕ)

unfoldable pub assign : Text → ℕ → Offsets → Offsets
assign path n [] = (path, n) ∷ []
assign path n ((p, m) ∷ offsets) =
    let rest = assign path n offsets in if text_eq p path then (p, n) ∷ offsets else (p, m) ∷ rest

unfoldable pub find_offset : Text → Offsets → Option ℕ
find_offset path [] = none
find_offset path ((p, m) ∷ offsets) =
    let rest = find_offset path offsets in if text_eq p path then some m else rest

pub record PersistedStateManager : Type 0 where
  pub subscription_ttl : ℕ
  pub stream_read_offsets : Offsets
  pub subscriptions : List Subscription

-- The loop of the constructor: a stream without a length is passed over.
unfoldable pub initial_offsets : (Text → Option ℕ) → List Text → Offsets → Offsets
unfolding assign
initial_offsets stream_length [] offsets = offsets
initial_offsets stream_length (path ∷ paths) offsets = elim (stream_length path) [
  | none ↦ initial_offsets stream_length paths offsets
  | some n ↦ initial_offsets stream_length paths (assign path n offsets)
]

abbrev pub opened : ℕ → Outcome Backend → Outcome PersistedStateManager
opened ttl (done store) = done (record {
  subscription_ttl = ttl;
  stream_read_offsets = initial_offsets store.stream_length (stream_paths store) [];
  subscriptions = [];
})
opened ttl (throws e) = throws e
opened ttl faults = faults

-- The constructor; `create_store` is `Store::CreateStore`.
unfoldable pub new_manager : (Text → Outcome Backend) → Text → ℕ → Outcome PersistedStateManager
unfolding initial_offsets stream_paths
new_manager create_store store_uri ttl =
    if is_empty store_uri
    then throws "store URI must be defined"
    else opened ttl (create_store store_uri)

-- A callback may change what the reactor holds, `W`, and the state that it is given.
pub record ResponseState : Type 0 where
  pub finalized : Bool
  pub id : Text
  pub identities : List Text
  pub current_size : ℕ
  pub messages : List Text

abbrev pub new_response_state : SubscriptionInfo → ResponseState
new_response_state si = record {
  finalized = false;
  id = si.id;
  identities = si.socket_identifiers;
  current_size = 0;
  messages = [];
}

-- `AddEnvelope`, of the envelope as a protocol message; one that is not serialized is left out.
unfoldable pub add_envelope : Option Text → ResponseState → ResponseState
add_envelope none state = state
add_envelope (some msg) state = record state {
  messages = state.messages ++ msg ∷ [];
  current_size = (state.current_size + length msg) % 2 ^ 32;
}

unfoldable pub register_error : {A : Type 0} → ErrorCode → Text → ResponseState → Outcome A
register_error code message state = throws "not yet implemented"

abbrev pub PathCallback : Type 0 → Type 0
PathCallback W = SubscriptionInfo → Text → W → Outcome (Unit {0}) × W

abbrev pub AppendedCallback : Type 0 → Type 0
AppendedCallback W = SubscriptionInfo → ResponseState → W → Outcome ResponseState × W

-- `ProcessStoreChangePathAdded` and `ProcessStoreChangePathDeleted` look for the subscriptions that the
-- path concerns, and do nothing with them: the callback is only tested.
unfoldable pub process_store_change_path_added :
    {C : Type 0}
    → Option C
    → Text
    → PersistedStateManager
    → Outcome (Unit {0}) × PersistedStateManager
unfolding assign
process_store_change_path_added none path m = (throws "callback parameter not defined", m)
process_store_change_path_added (some cb) path m =
    if is_stream_path path
    then (done tt, record m { stream_read_offsets = assign path 0 m.stream_read_offsets })
    else (done tt, m)

unfoldable pub process_store_change_path_deleted :
    {C : Type 0}
    → Option C
    → Text
    → PersistedStateManager
    → Outcome (Unit {0}) × PersistedStateManager
process_store_change_path_deleted none path m = (throws "callback parameter not defined", m)
process_store_change_path_deleted (some cb) path m = (done tt, m)

module _ {Message W : Type 0} (coded : CodedInput Message)
    (serialize : Envelope Message → Option Text) where
  -- The loop over the envelopes up to the length of the stream, in at most so many rounds. No record
  -- has a Lua state, so that no filter is called.
  unfoldable pub deliver :
      AppendedCallback W
      → SubscriptionInfo
      → ℕ
      → ℕ
      → ℕ
      → ResponseState
      → InputStream
      → W
      → Outcome InputStream × W
  unfolding add_envelope read_envelope
  deliver cb si stream_length offset zero state is w =
      if ltb offset stream_length then (faults, w) else (done is, w)
  deliver cb si stream_length offset (suc fuel) state is w =
      if not (ltb offset stream_length)
      then (done is, w)
      else (let found = read_envelope coded is in
          elim found.0 [
            | none ↦ (done found.1, w)
            | some (e, read) ↦
                (let called = cb si (add_envelope (serialize e) state) w in
                  elim called.0 [
                    | done next ↦
                        deliver cb si stream_length ((offset + read) % 2 ^ 64) fuel next found.1
                          called.1
                    | throws x ↦ (throws x, called.1)
                    | faults ↦ (faults, called.1)
                  ])
          ])

  -- The loop over the subscriptions; the stream goes from one to the next.
  unfoldable pub deliver_all :
      AppendedCallback W
      → Text
      → ℕ
      → Offsets
      → ℕ
      → List Subscription
      → InputStream
      → W
      → Outcome (Unit {0}) × W
  unfolding deliver is_path_subscribed find_offset set_absolute_offset
  deliver_all cb path stream_length offsets fuel [] is w = (done tt, w)
  deliver_all cb path stream_length offsets fuel (s ∷ ss) is w =
      let rest = deliver_all cb path stream_length offsets fuel ss is w in
      if not (is_envelope s.si.type)
      then rest
      else if not (is_path_subscribed path s.si.paths)
      then rest
      else elim (find_offset path offsets) [
        | none ↦ (throws "unknown stream encountered", w)
        | some offset ↦
            (let delivered =
                deliver cb s.si stream_length offset fuel (new_response_state s.si)
                  (set_absolute_offset offset is) w in
              elim delivered.0 [
                | done more ↦ deliver_all cb path stream_length offsets fuel ss more delivered.1
                | throws x ↦ (throws x, delivered.1)
                | faults ↦ (faults, delivered.1)
              ])
      ]

  abbrev pub deliver_from :
      AppendedCallback W
      → Text
      → ℕ
      → ℕ
      → PersistedStateManager
      → Outcome (Option InputStream)
      → W
      → Outcome (Unit {0}) × W
  deliver_from cb path stream_length fuel m (done none) w = (done tt, w)
  deliver_from cb path stream_length fuel m (done (some is)) w =
      deliver_all cb path stream_length m.stream_read_offsets fuel m.subscriptions is w
  deliver_from cb path stream_length fuel m (throws e) w = (throws e, w)
  deliver_from cb path stream_length fuel m faults w = (faults, w)

  -- The offset is that of the end before the stream is read.
  unfoldable pub process_store_change_stream_appended :
      (Text → Outcome (Option InputStream))
      → ℕ
      → Text
      → ℕ
      → Option (AppendedCallback W)
      → PersistedStateManager
      → W
      → Outcome (Unit {0}) × PersistedStateManager × W
  unfolding assign deliver_all
  process_store_change_stream_appended get_input_stream fuel path stream_length none m w =
      (throws "callback not defined", m, w)
  process_store_change_stream_appended get_input_stream fuel path stream_length (some cb) m w =
      let known = record m {
        stream_read_offsets = assign path stream_length m.stream_read_offsets;
      } in
      if is_empty known.subscriptions
      then (done tt, known, w)
      else (let r = deliver_from cb path stream_length fuel known (get_input_stream path) w in
          (r.0, known, r.1))
