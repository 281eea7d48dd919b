-- ===== src/Manager/Changes/Steps.antt =====
-- src/zippylog/persisted_state_manager.cpp: a `PersistedStateManager` as a state machine, which each
-- call of a public function takes a step further, whether it returns or throws.
use Prim.Native.String.{String}
use zippylog.Prelude.{
  ℕ, ◌≡◌, refl, subst, inl, inr, done-injective, Option, none, some, List, Text, is_empty, Outcome,
  done, throws, faults, Bool-cases,
}
use zippylog.Platform.{Moment}
use zippylog.Store.Backend.{Backend}
use zippylog.Store.Path.{is_stream_path}
use zippylog.Envelope.{Envelope}
use zippylog.Stream.{CodedInput, InputStream}
use zippylog.RequestProcessor.Messages.{SubscriptionInfo}
use zippylog.Manager.{Subscription}
use zippylog.Manager.Registration.{
  register_subscription, renew_subscriptions, remove_expired_subscriptions,
}
use zippylog.Manager.Registration.Invariant.{
  IsManaged, register-IsManaged, renew-IsManaged, remove-IsManaged,
}
use zippylog.Manager.Changes.{
  PersistedStateManager, new_manager, opened, AppendedCallback, PathCallback,
  process_store_change_path_added, process_store_change_path_deleted,
  process_store_change_stream_appended,
}

abbrev with_subscriptions : PersistedStateManager → List Subscription → PersistedStateManager
with_subscriptions m ss = record m { subscriptions = ss }

opened-IsManaged :
    (ttl : ℕ) (o : Outcome Backend) (m : PersistedStateManager)
    → opened ttl o ≡ done m
    → IsManaged m.subscriptions
unfolding IsManaged
opened-IsManaged ttl (done store) m h =
    subst (λ k. IsManaged k.subscriptions) (done-injective h) (tt, tt)
opened-IsManaged ttl (throws e) m h = cc
opened-IsManaged ttl faults m h = cc

no_manager : (e : String) (m : PersistedStateManager) → throws e ≡ done m → ⊥
no_manager e m h = cc

new-IsManaged :
    (create_store : Text → Outcome Backend) (uri : Text) (ttl : ℕ) (m : PersistedStateManager)
    → new_manager create_store uri ttl ≡ done m
    → IsManaged m.subscriptions
unfolding new_manager
new-IsManaged create_store uri ttl m h = elim (Bool-cases (is_empty uri)) [
  | inl e ↦ elim (no_manager "store URI must be defined" m (rw e at h)) [ ]
  | inr e ↦ opened-IsManaged ttl (create_store uri) m (rw e at h)
]

module _ {Message : Type 0} (W : Type 0) (coded : CodedInput Message)
    (serialize : Envelope Message → Option Text) where
  -- A call of the manager: in each case the state after it.
  pub data Step (m : PersistedStateManager) : PersistedStateManager → Type 0 where
    register :
        (at : Moment) (si : SubscriptionInfo)
        → Step m (
            with_subscriptions m (register_subscription m.subscription_ttl at si m.subscriptions).1)
    renew :
        (at : Text → Moment) (ids : List Text)
        → Step m
            (with_subscriptions m (renew_subscriptions m.subscription_ttl at ids m.subscriptions).1)
    remove_expired :
        (at : Text → Moment)
        → Step m (with_subscriptions m (remove_expired_subscriptions at m.subscriptions).1)
    path_added :
        (cb : Option (PathCallback W)) (path : Text)
        → Step m (process_store_change_path_added cb path m).1
    path_deleted :
        (cb : Option (PathCallback W)) (path : Text)
        → Step m (process_store_change_path_deleted cb path m).1
    stream_appended :
        (get_input_stream : Text → Outcome (Option InputStream)) (fuel : ℕ) (path : Text) (n : ℕ)
        (cb : Option (AppendedCallback W)) (w : W)
        → Step m
            (process_store_change_stream_appended coded serialize get_input_stream fuel path n cb m
              w).1

  -- Any number of calls.
  pub data Reach (m : PersistedStateManager) : PersistedStateManager → Type 0 where
    here : Reach m m
    next : {t u : PersistedStateManager} → Reach m t → Step t u → Reach m u

  added-subscriptions :
      (cb : Option (PathCallback W)) (path : Text) (m : PersistedStateManager)
      → (process_store_change_path_added cb path m).1.subscriptions ≡ m.subscriptions
  unfolding process_store_change_path_added
  added-subscriptions none path m = refl
  added-subscriptions (some cb) path m = elim (Bool-cases (is_stream_path path)) [
    | inl e ↦ rw e refl
    | inr e ↦ rw e refl
  ]

  deleted-subscriptions :
      (cb : Option (PathCallback W)) (path : Text) (m : PersistedStateManager)
      → (process_store_change_path_deleted cb path m).1.subscriptions ≡ m.subscriptions
  unfolding process_store_change_path_deleted
  deleted-subscriptions none path m = refl
  deleted-subscriptions (some cb) path m = refl

  appended-subscriptions :
      (get_input_stream : Text → Outcome (Option InputStream)) (fuel : ℕ) (path : Text) (n : ℕ)
      (cb : Option (AppendedCallback W)) (m : PersistedStateManager) (w : W)
      → (process_store_change_stream_appended coded serialize get_input_stream fuel path n cb m
          w).1.subscriptions
        ≡ m.subscriptions
  unfolding process_store_change_stream_appended
  appended-subscriptions get_input_stream fuel path n none m w = refl
  appended-subscriptions get_input_stream fuel path n (some cb) m w =
      elim (Bool-cases (is_empty m.subscriptions)) [ inl e ↦ rw e refl | inr e ↦ rw e refl ]

  Step-IsManaged :
      {m n : PersistedStateManager}
      → Step m n
      → IsManaged m.subscriptions
      → IsManaged n.subscriptions
  Step-IsManaged {m} (register at si) h =
      register-IsManaged m.subscription_ttl at si m.subscriptions h
  Step-IsManaged {m} (renew at ids) h = renew-IsManaged m.subscription_ttl at ids m.subscriptions h
  Step-IsManaged {m} (remove_expired at) h = remove-IsManaged at m.subscriptions h
  Step-IsManaged {m} (path_added cb path) h = rw (added-subscriptions cb path m) h
  Step-IsManaged {m} (path_deleted cb path) h = rw (deleted-subscriptions cb path m) h
  Step-IsManaged {m} (stream_appended get_input_stream fuel path n cb w) h =
      rw (appended-subscriptions get_input_stream fuel path n cb m w) h

  Reach-IsManaged :
      {m n : PersistedStateManager}
      → Reach m n
      → IsManaged m.subscriptions
      → IsManaged n.subscriptions
  Reach-IsManaged here h = h
  Reach-IsManaged (next r s) h = Step-IsManaged s (Reach-IsManaged r h)

  -- Whatever is called on a manager after it was made, and however each call ends, its subscriptions
  -- are in the strict order of their keys, and each has a key that is not empty and is the identifier of its
  -- subscription, and a timer that runs if it has signaled.
  pub subscriptions-IsManaged :
      (create_store : Text → Outcome Backend) (uri : Text) (ttl : ℕ) {m n : PersistedStateManager}
      → new_manager create_store uri ttl ≡ done m
      → Reach m n
      → IsManaged n.subscriptions
  subscriptions-IsManaged create_store uri ttl {m} h r =
      Reach-IsManaged r (new-IsManaged create_store uri ttl m h)
