-- ===== src/Manager/Prefixes.antt =====
-- src/zippylog/persisted_state_manager.cpp, `IsPathSubscribed`: a path is subscribed through the
-- prefixes of it.
use zippylog.Prelude.{
  ℕ, ◌+◌, ◌≡◌, ◌↔◌, refl, sym, ap, subst, ◌∙◌, inl, inr, Bool, true, false, ◌&&◌, List, [], ◌∷◌,
  ◌++◌, Text, length, take, drop, text_eq_self, text_eq_sound, ltb, arith, length-append,
  take-append, take-append-drop, Bool-cases,
}
use zippylog.RequestProcessor.Messages.{
  SubscriptionType, store_change, envelope_subscription, unknown,
}
use zippylog.Manager.{
  Subscription, has_prefix, is_path_subscribed, is_store_change, have_store_change_subscriptions,
}

clash : false ≡ true → ⊥
clash h = cc

not_longer : (a b : ℕ) → ltb (a + b) a ≡ false
not_longer a b = ground arith

prefix-append : (prefix rest : Text) → has_prefix prefix (prefix ++ rest) ≡ true
unfolding has_prefix
prefix-append prefix rest =
    rw
      (
        has_prefix,
        length-append prefix rest,
        not_longer (length prefix) (length rest),
        take-append prefix rest,
      )
      (text_eq_self prefix)

has_prefix_iff :
    (prefix path : Text)
    → (has_prefix prefix path ≡ true) ↔ ((rest : Text) × (path ≡ prefix ++ rest))
unfolding has_prefix
has_prefix_iff prefix path = (
  λ h. elim (Bool-cases (ltb (length path) (length prefix))) [
    | inl l ↦ elim (clash (rw l at h)) [ ]
    | inr l ↦ (
      drop (length prefix) path,
      sym (take-append-drop (length prefix) path)
          ∙ ap (λ t. t ++ drop (length prefix) path)
              (text_eq_sound (take (length prefix) path) prefix (rw l at h)),
    )
  ],
  λ h. subst (λ t. has_prefix prefix t ≡ true) (sym h.1) (prefix-append prefix h.0),
)

-- Some element of a list has the property.
pub data Some {A : Type 0} (P : A → Type 0) : List A → Type 0 where
  here : {a : A} {more : List A} → P a → Some P (a ∷ more)
  there : {a : A} {more : List A} → Some P more → Some P (a ∷ more)

-- One of the prefixes starts the path.
pub IsUnder : Text → List Text → Type 0
IsUnder path = Some (λ prefix. (rest : Text) × (path ≡ prefix ++ rest))

subscribed-IsUnder :
    (path : Text) (prefixes : List Text)
    → is_path_subscribed path prefixes ≡ true
    → IsUnder path prefixes
unfolding is_path_subscribed IsUnder
subscribed-IsUnder path [] h = cc
subscribed-IsUnder path (prefix ∷ prefixes) h = elim (Bool-cases (has_prefix prefix path)) [
  | inl p ↦ here ((has_prefix_iff prefix path).0 p)
  | inr p ↦ there (subscribed-IsUnder path prefixes (rw p at h))
]

IsUnder-subscribed :
    (path : Text) (prefixes : List Text)
    → IsUnder path prefixes
    → is_path_subscribed path prefixes ≡ true
unfolding is_path_subscribed IsUnder
IsUnder-subscribed path [] h = elim h [ ]
IsUnder-subscribed path (prefix ∷ prefixes) (here p) = rw ((has_prefix_iff prefix path).1 p) refl
IsUnder-subscribed path (prefix ∷ prefixes) (there s) = elim (Bool-cases (has_prefix prefix path)) [
  | inl p ↦ rw p refl
  | inr p ↦ rw p (IsUnder-subscribed path prefixes s)
]

-- A path is subscribed exactly if one of the paths of the subscription is a prefix of it, as a string:
-- the part behind the prefix need not begin with a slash.
pub is_path_subscribed_iff :
    (path : Text) (prefixes : List Text)
    → (is_path_subscribed path prefixes ≡ true) ↔ IsUnder path prefixes
is_path_subscribed_iff path prefixes =
    (subscribed-IsUnder path prefixes, IsUnder-subscribed path prefixes)

pub IsConcerned : Text → Subscription → Type 0
IsConcerned path s = (s.si.type ≡ store_change) × IsUnder path s.si.paths

store_change_iff : (t : SubscriptionType) → (is_store_change t ≡ true) ↔ (t ≡ store_change)
store_change_iff store_change = (λ h. refl, λ h. refl)
store_change_iff envelope_subscription = (λ h. cc, λ h. cc)
store_change_iff unknown = (λ h. cc, λ h. cc)

and_true : (a b : Bool) → (a && b) ≡ true → (a ≡ true) × (b ≡ true)
and_true true b h = (refl, h)
and_true false b h = cc

concerned :
    (path : Text) (ss : List Subscription)
    → have_store_change_subscriptions path ss ≡ true
    → Some (IsConcerned path) ss
unfolding have_store_change_subscriptions IsConcerned
concerned path [] h = cc
concerned path (s ∷ ss) h =
    elim (Bool-cases (is_store_change s.si.type && is_path_subscribed path s.si.paths)) [
      | inl c ↦
          (let k = and_true (is_store_change s.si.type) (is_path_subscribed path s.si.paths) c in
            here ((store_change_iff s.si.type).0 k.0, subscribed-IsUnder path s.si.paths k.1))
      | inr c ↦ there (concerned path ss (rw c at h))
    ]

have :
    (path : Text) (ss : List Subscription)
    → Some (IsConcerned path) ss
    → have_store_change_subscriptions path ss ≡ true
unfolding have_store_change_subscriptions IsConcerned
have path [] h = elim h [ ]
have path (s ∷ ss) (here c) =
    rw ((store_change_iff s.si.type).1 c.0, IsUnder-subscribed path s.si.paths c.1) refl
have path (s ∷ ss) (there c) =
    elim (Bool-cases (is_store_change s.si.type && is_path_subscribed path s.si.paths)) [
      | inl k ↦ rw k refl
      | inr k ↦ rw k (have path ss c)
    ]

-- There are subscriptions to changes of the store for a path exactly if one of the subscriptions is of
-- that type and has a prefix of the path.
pub have_store_change_subscriptions_iff :
    (path : Text) (ss : List Subscription)
    → (have_store_change_subscriptions path ss ≡ true) ↔ Some (IsConcerned path) ss
have_store_change_subscriptions_iff path ss = (concerned path ss, have path ss)
