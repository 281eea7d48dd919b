-- ===== src/Manager.antt =====
-- src/zippylog/persisted_state_manager.cpp: the subscriptions of a `PersistedStateManager`, and which
-- of them a path in the store concerns.
pub mod Prefixes
pub mod Registration
pub mod Changes
mod Examples
use zippylog.Prelude.{
  ℕ, Bool, true, false, ◌&&◌, ◌||◌, List, [], ◌∷◌, Text, length, take, text_eq, ltb, if◌then◌else◌,
}
use zippylog.Platform.{Timer}
use zippylog.RequestProcessor.Messages.{
  SubscriptionType, SubscriptionInfo, store_change, envelope_subscription, unknown,
}

-- `subscriptions`, a map from the ids: the entries in the order of their keys.
pub record Subscription : Type 0 where
  pub key : Text
  pub si : SubscriptionInfo
  pub expiration_timer : Timer

-- A comparison of the first bytes of the path with a prefix; a longer prefix is passed over.
unfoldable pub has_prefix : Text → Text → Bool
has_prefix prefix path =
    if ltb (length path) (length prefix) then false else text_eq (take (length prefix) path) prefix

unfoldable pub is_path_subscribed : Text → List Text → Bool
is_path_subscribed path [] = false
is_path_subscribed path (prefix ∷ prefixes) =
    let rest = is_path_subscribed path prefixes in if has_prefix prefix path then true else rest

abbrev pub is_store_change : SubscriptionType → Bool
is_store_change envelope_subscription = false
is_store_change store_change = true
is_store_change unknown = false

abbrev pub is_envelope : SubscriptionType → Bool
is_envelope envelope_subscription = true
is_envelope store_change = false
is_envelope unknown = false

-- `HaveStoreChangeSubscriptions` and `HaveEnvelopeSubscription` of a path.
unfoldable pub have_store_change_subscriptions : Text → List Subscription → Bool
have_store_change_subscriptions path [] = false
have_store_change_subscriptions path (s ∷ ss) =
    let rest = have_store_change_subscriptions path ss in
    if is_store_change s.si.type && is_path_subscribed path s.si.paths then true else rest

unfoldable pub have_envelope_subscription : Text → List Subscription → Bool
have_envelope_subscription path [] = false
have_envelope_subscription path (s ∷ ss) =
    let rest = have_envelope_subscription path ss in
    if is_envelope s.si.type && is_path_subscribed path s.si.paths then true else rest
