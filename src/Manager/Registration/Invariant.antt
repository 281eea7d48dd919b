-- ===== src/Manager/Registration/Invariant.antt =====
-- src/zippylog/persisted_state_manager.cpp, `subscriptions`: what holds of the map whatever happens to
-- it.
use zippylog.Prelude.{
  ℕ, ◌≡◌, ◌≢◌, refl, sym, subst, inl, inr, Bool, true, false, List, [], ◌∷◌, Text, is_empty, All,
  text_eq, text_eq_sound, done, throws, faults, Bool-cases,
}
use zippylog.Platform.{Moment, Timed, new_timer, start, is_signaled}
use zippylog.Platform.Timing.{IsSound, new_timer-IsSound, start-IsSound, is_signaled-IsSound}
use zippylog.RequestProcessor.Messages.{SubscriptionInfo}
use zippylog.Manager.{Subscription}
use zippylog.Manager.Registration.{
  text_less, insert, has_subscription, ttl_microseconds, with_timer, new_record,
  register_subscription, renew_subscriptions, mem, remove_expired_subscriptions, renewed, expired,
  Managed,
}
use zippylog.Manager.Registration.Order.{less_trans, less_total}

-- The subscriptions behind the first have keys behind its key.
abbrev pub IsBelow : Text → List Subscription → Type 0
IsBelow key = All (λ t. text_less key t.key ≡ true)

abbrev pub IsSorted : List Subscription → Type 0
IsSorted [] = Unit
IsSorted (s ∷ ss) = IsBelow s.key ss × IsSorted ss

-- The key is the identifier of the subscription, which is not empty, and the timer is sound.
unfoldable pub IsRegistered : Subscription → Type 0
IsRegistered s = (s.key ≡ s.si.id) × (s.key ≢ []) × IsSound s.expiration_timer

unfoldable pub IsManaged : List Subscription → Type 0
IsManaged ss = IsSorted ss × All IsRegistered ss

module _ (P : Subscription → Type 0) where
  insert-All : (s : Subscription) (ss : List Subscription) → P s → All P ss → All P (insert s ss)
  unfolding insert
  insert-All s [] p h = (p, tt)
  insert-All s (t ∷ ts) p h = elim (Bool-cases (text_less s.key t.key)) [
    | inl l ↦ rw l (p, h)
    | inr l ↦ elim (Bool-cases (text_eq s.key t.key)) [
      | inl e ↦ rw (l, e) (p, h.1)
      | inr e ↦ rw (l, e) (h.0, insert-All s ts p h.1)
    ]
  ]

  renewed-All :
      (s : Subscription) (r : Timed Bool) (ss : List Subscription) (rest : Managed Bool)
      → P (with_timer r.1 s)
      → All P ss
      → All P rest.1
      → All P (renewed s r ss rest).1
  renewed-All s (done b, t) ss rest p h k = (p, k)
  renewed-All s (throws e, t) ss rest p h k = (p, h)
  renewed-All s (faults, t) ss rest p h k = (p, h)

  expired-All :
      (s : Subscription) (r : Timed Bool) (ss : List Subscription) (rest : Managed ℕ)
      → P (with_timer r.1 s)
      → All P ss
      → All P rest.1
      → All P (expired s r ss rest).1
  expired-All s (done true, t) ss rest p h k = k
  expired-All s (done false, t) ss rest p h k = (p, k)
  expired-All s (throws e, t) ss rest p h k = (p, h)
  expired-All s (faults, t) ss rest p h k = (p, h)

  pub renew-All :
      (ttl : ℕ) (at : Text → Moment) (ids : List Text)
      → ((m : Moment) (s : Subscription)
          → P s
          → P (with_timer (start m (ttl_microseconds ttl) s.expiration_timer).1 s))
      → (ss : List Subscription) → All P ss
      → All P (renew_subscriptions ttl at ids ss).1
  unfolding renew_subscriptions
  renew-All ttl at ids f [] h = tt
  renew-All ttl at ids f (s ∷ ss) h = elim (Bool-cases (mem s.key ids)) [
    | inl i ↦ rw i (
        renewed-All s (start (at s.key) (ttl_microseconds ttl) s.expiration_timer) ss
          (renew_subscriptions ttl at ids ss) (f (at s.key) s h.0) h.1
          (renew-All ttl at ids f ss h.1))
    | inr i ↦ rw i (h.0, renew-All ttl at ids f ss h.1)
  ]

  pub remove-All :
      (at : Text → Moment)
      → ((m : Moment) (s : Subscription)
          → P s
          → P (with_timer (is_signaled m s.expiration_timer).1 s))
      → (ss : List Subscription) → All P ss
      → All P (remove_expired_subscriptions at ss).1
  unfolding remove_expired_subscriptions
  remove-All at f [] h = tt
  remove-All at f (s ∷ ss) h =
      expired-All s (is_signaled (at s.key) s.expiration_timer) ss
        (remove_expired_subscriptions at ss) (f (at s.key) s h.0) h.1 (remove-All at f ss h.1)

IsBelow-more :
    (k l : Text) (ss : List Subscription) → text_less k l ≡ true → IsBelow l ss → IsBelow k ss
IsBelow-more k l [] h b = tt
IsBelow-more k l (s ∷ ss) h b = (less_trans k l s.key h b.0, IsBelow-more k l ss h b.1)

insert-IsSorted : (s : Subscription) (ss : List Subscription) → IsSorted ss → IsSorted (insert s ss)
unfolding insert
insert-IsSorted s [] h = (tt, tt)
insert-IsSorted s (t ∷ ts) h = elim (Bool-cases (text_less s.key t.key)) [
  | inl l ↦ rw l ((l, IsBelow-more s.key t.key ts l h.0), h)
  | inr l ↦ elim (Bool-cases (text_eq s.key t.key)) [
    | inl e ↦ rw (l, e) (subst (λ k. IsBelow k ts) (sym (text_eq_sound s.key t.key e)) h.0, h.1)
    | inr e ↦
        rw (l, e)
          (
            insert-All (λ u. text_less t.key u.key ≡ true) s ts (less_total s.key t.key l e) h.0,
            insert-IsSorted s ts h.1,
          )
  ]
]

renewed-IsSorted :
    (s : Subscription) (r : Timed Bool) (ss : List Subscription) (rest : Managed Bool)
    → IsSorted (s ∷ ss)
    → IsSorted (s ∷ rest.1)
    → IsSorted (renewed s r ss rest).1
renewed-IsSorted s (done b, t) ss rest h k = k
renewed-IsSorted s (throws e, t) ss rest h k = h
renewed-IsSorted s (faults, t) ss rest h k = h

expired-IsSorted :
    (s : Subscription) (r : Timed Bool) (ss : List Subscription) (rest : Managed ℕ)
    → IsSorted (s ∷ ss)
    → IsSorted (s ∷ rest.1)
    → IsSorted (expired s r ss rest).1
expired-IsSorted s (done true, t) ss rest h k = k.1
expired-IsSorted s (done false, t) ss rest h k = k
expired-IsSorted s (throws e, t) ss rest h k = h
expired-IsSorted s (faults, t) ss rest h k = h

renew-IsSorted :
    (ttl : ℕ) (at : Text → Moment) (ids : List Text) (ss : List Subscription)
    → IsSorted ss
    → IsSorted (renew_subscriptions ttl at ids ss).1
unfolding renew_subscriptions
renew-IsSorted ttl at ids [] h = tt
renew-IsSorted ttl at ids (s ∷ ss) h =
    (let below = renew-All (λ t. text_less s.key t.key ≡ true) ttl at ids (λ m t b. b) ss h.0 in
      let sorted = renew-IsSorted ttl at ids ss h.1 in
      elim (Bool-cases (mem s.key ids)) [
        | inl i ↦ rw i (
            renewed-IsSorted s (start (at s.key) (ttl_microseconds ttl) s.expiration_timer) ss
              (renew_subscriptions ttl at ids ss) h (below, sorted))
        | inr i ↦ rw i (below, sorted)
      ])

remove-IsSorted :
    (at : Text → Moment) (ss : List Subscription)
    → IsSorted ss
    → IsSorted (remove_expired_subscriptions at ss).1
unfolding remove_expired_subscriptions
remove-IsSorted at [] h = tt
remove-IsSorted at (s ∷ ss) h =
    expired-IsSorted s (is_signaled (at s.key) s.expiration_timer) ss
      (remove_expired_subscriptions at ss) h
      (
        remove-All (λ t. text_less s.key t.key ≡ true) at (λ m t b. b) ss h.0,
        remove-IsSorted at ss h.1,
      )

not_empty : (t : Text) → is_empty t ≡ false → t ≢ []
not_empty [] h k = cc
not_empty (a ∷ t) h k = cc

pub register-IsManaged :
    (ttl : ℕ) (m : Moment) (si : SubscriptionInfo) (ss : List Subscription)
    → IsManaged ss
    → IsManaged (register_subscription ttl m si ss).1
unfolding register_subscription IsManaged IsRegistered
register-IsManaged ttl m si ss h = elim (Bool-cases (is_empty si.id)) [
  | inl e ↦ rw e h
  | inr e ↦ elim (Bool-cases (has_subscription si.id ss)) [
    | inl k ↦ rw (e, k) h
    | inr k ↦
        (let us = ttl_microseconds ttl in
          let t = (start m us (new_timer us)).1 in
          let sound = start-IsSound m us (new_timer us) (new_timer-IsSound us) in
          let s = new_record si t in
          rw (e, k)
            (
              insert-IsSorted s ss h.0,
              insert-All IsRegistered s ss (refl, not_empty si.id e, sound) h.1,
            ))
  ]
]

pub renew-IsManaged :
    (ttl : ℕ) (at : Text → Moment) (ids : List Text) (ss : List Subscription)
    → IsManaged ss
    → IsManaged (renew_subscriptions ttl at ids ss).1
unfolding IsManaged IsRegistered
renew-IsManaged ttl at ids ss h = (
  renew-IsSorted ttl at ids ss h.0,
  renew-All IsRegistered ttl at ids
      (λ m s r. (r.0, r.1, start-IsSound m (ttl_microseconds ttl) s.expiration_timer r.2)) ss h.1,
)

pub remove-IsManaged :
    (at : Text → Moment) (ss : List Subscription)
    → IsManaged ss
    → IsManaged (remove_expired_subscriptions at ss).1
unfolding IsManaged IsRegistered
remove-IsManaged at ss h = (
  remove-IsSorted at ss h.0,
  remove-All IsRegistered at (λ m s r. (r.0, r.1, is_signaled-IsSound m s.expiration_timer r.2)) ss
      h.1,
)
