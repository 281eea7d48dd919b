-- ===== src/Manager/Examples.antt =====
-- Tests of the model of src/zippylog/persisted_state_manager.cpp on concrete inputs, and its theorems
-- at such inputs.
use zippylog.Prelude.{
  ℕ, ◌+◌, ◌*◌, ◌<◌, ◌≡◌, refl, true, false, not, none, some, [], ◌∷◌, Text, bytes, text_eq, leb,
  done, arith,
}
use zippylog.Platform.{Moment, start, initialize, reset, arm, nanoseconds}
use zippylog.Platform.Timing.{IsUp}
use zippylog.Store.Backend.{Backend}
use zippylog.Store.Contents.{stream_paths}
use zippylog.Stream.{CodedInput}
use zippylog.RequestProcessor.Messages.{SubscriptionInfo, new_subscription, store_change}
use zippylog.Manager.{has_prefix, is_path_subscribed}
use zippylog.Manager.Registration.{
  has_subscription, insert, ttl_microseconds, register_subscription, renew_subscriptions, mem,
  remove_expired_subscriptions, Managed,
}
use zippylog.Manager.Registration.Invariant.{IsManaged, register-IsManaged}
use zippylog.Manager.Registration.Lifetime.{IsUpAt, registered_until, renewed_until}
use zippylog.Manager.Changes.{
  PersistedStateManager, new_manager, initial_offsets, AppendedCallback,
  process_store_change_stream_appended,
}
use zippylog.Manager.Changes.Steps.{
  Reach, here, next, register, remove_expired, subscriptions-IsManaged,
}
use zippylog.Manager.Changes.Silence.{appended-silent}

-- The prefix is one of strings: another bucket is under it.
other_bucket : is_path_subscribed (bytes "/acme2/web") (bytes "/acme" ∷ []) ≡ true
unfolding is_path_subscribed has_prefix text_eq
other_bucket = refl

abbrev at_moment : ℕ → Text → Moment
at_moment now key = record { now = now; creates = true; sets = true; reads = true }

is_up : (now : ℕ) (key : Text) → IsUp (at_moment now key)
unfolding IsUp
is_up now key = (refl, refl, refl)

always_up : (now : ℕ) → IsUpAt (at_moment now)
unfolding IsUpAt
always_up now key = is_up now key

abbrev acme : SubscriptionInfo
acme = record new_subscription { type = store_change; id = bytes "id"; paths = bytes "/acme" ∷ [] }

nothing-IsManaged : IsManaged []
unfolding IsManaged
nothing-IsManaged = (tt, tt)

lives : 0 < ttl_microseconds 60000
unfolding ttl_microseconds
lives = omega arith

new_id : has_subscription (bytes "id") [] ≡ false
unfolding has_subscription
new_id = refl

abbrev registered : Managed (Unit {0})
registered = register_subscription 60000 (at_moment 1000 []) acme []

registered_until_example :
    (registered.0 ≡ done tt)
    × (has_subscription (bytes "id") (remove_expired_subscriptions (at_moment 2000) registered.1).1
        ≡ not (leb (1000 + ttl_microseconds 60000 * 1000) 2000))
registered_until_example =
    registered_until 60000 (at_moment 1000 []) (at_moment 2000) acme [] nothing-IsManaged
      (is_up 1000 []) (always_up 2000) lives refl new_id

is_registered : has_subscription (bytes "id") registered.1 ≡ true
unfolding has_subscription register_subscription insert text_eq start initialize reset arm
    nanoseconds ttl_microseconds
is_registered = refl

is_named : mem (bytes "id") (bytes "other" ∷ bytes "id" ∷ []) ≡ true
unfolding mem text_eq
is_named = refl

renewed_until_example :
    has_subscription
      (bytes "id")
      (remove_expired_subscriptions
        (at_moment 70000000000)
        (renew_subscriptions 60000
          (at_moment 50000000000)
          (bytes "other" ∷ bytes "id" ∷ [])
          registered.1).1).1
    ≡ not (leb (50000000000 + ttl_microseconds 60000 * 1000) 70000000000)
renewed_until_example =
    renewed_until 60000 (at_moment 50000000000) (at_moment 70000000000)
      (bytes "other" ∷ bytes "id" ∷ []) (bytes "id") registered.1
      (register-IsManaged 60000 (at_moment 1000 []) acme [] nothing-IsManaged)
      (always_up 50000000000) (always_up 70000000000) lives is_named is_registered

abbrev nothing_coded : CodedInput ℕ
nothing_coded = record { read_varint = λ t. none; read_message = λ n t. (none, t) }

abbrev empty_store : Backend
empty_store = record {
  bucket_names = [];
  stream_set_names = λ b. [];
  stream_names = λ b s. [];
  stream_length = λ p. none;
  bucket_exists = λ b. false;
  stream_set_exists = λ b s. false;
  stream_exists = λ b s t. false;
}

abbrev made : PersistedStateManager
made = record { subscription_ttl = 60000; stream_read_offsets = []; subscriptions = [] }

is_made : new_manager (λ uri. done empty_store) (bytes "simpledirectory:///store") 60000 ≡ done made
unfolding new_manager initial_offsets stream_paths
is_made = refl

abbrev after_two : PersistedStateManager
after_two = record made {
  subscriptions = (remove_expired_subscriptions (at_moment 2000) registered.1).1;
}

abbrev two_calls : Reach ℕ nothing_coded (λ e. none) made after_two
two_calls = next (next here (register (at_moment 1000 []) acme)) (remove_expired (at_moment 2000))

subscriptions-IsManaged_example : IsManaged after_two.subscriptions
subscriptions-IsManaged_example =
    subscriptions-IsManaged ℕ nothing_coded (λ e. none) (λ uri. done empty_store)
      (bytes "simpledirectory:///store") 60000 is_made two_calls

-- A callback that counts the envelopes.
abbrev counting : AppendedCallback ℕ
counting si state count = (done state, count + 1)

appended-silent_example :
    (process_store_change_stream_appended nothing_coded
      (λ e. none)
      (λ path. done none)
      5
      (bytes "/acme/web/2011")
      100
      (some counting)
      made
      0).2
    ≡ 0
appended-silent_example =
    appended-silent nothing_coded (λ e. none) (λ path. done none) 5 (bytes "/acme/web/2011") 100
      (some counting) made 0
