-- ===== src/Manager/Registration/Lifetime.antt =====
-- src/zippylog/persisted_state_manager.cpp, `subscriptions`: how long a subscription stays.
use zippylog.Prelude.{
  ℕ, ◌+◌, ◌*◌, ◌<◌, ◌≡◌, refl, sym, subst, ap, ◌∙◌, inl, inr, Bool, true, false, not, List, [], ◌∷◌,
  Text, All, is_empty, text_eq, text_eq_self, text_eq_sound, leb, done, throws, faults, Bool-cases,
}
use zippylog.Platform.{Moment, new_timer, Timed, start, is_signaled}
use zippylog.Platform.Timing.{
  IsUp, IsArmed, start-IsArmed, armed-is_signaled, signaled-done, new_timer-IsSound,
}
use zippylog.RequestProcessor.Messages.{SubscriptionInfo}
use zippylog.Manager.{Subscription}
use zippylog.Manager.Prefixes.{Some, here, there}
use zippylog.Manager.Registration.{
  text_less, insert, has_subscription, ttl_microseconds, with_timer, new_record,
  register_subscription, renew_subscriptions, mem, remove_expired_subscriptions, renewed, expired,
  Managed, ended,
}
use zippylog.Manager.Registration.Order.{less-not_eq, less-differs}
use zippylog.Manager.Registration.Invariant.{
  IsBelow, IsSorted, IsRegistered, IsManaged, remove-All, register-IsManaged, renew-IsManaged,
}

-- Every call of the system succeeds, whatever subscription the loop has come to.
unfoldable pub IsUpAt : (Text → Moment) → Type 0
IsUpAt at = (key : Text) → IsUp (at key)

-- The subscription with the identifier has a timer that expires at the moment.
unfoldable pub IsDue : ℕ → Text → List Subscription → Type 0
IsDue due id = Some (λ s. (s.key ≡ id) × IsArmed due s.expiration_timer)

has_other :
    (id : Text) (s : Subscription) (ss : List Subscription)
    → text_eq s.key id ≡ false
    → has_subscription id (s ∷ ss) ≡ has_subscription id ss
unfolding has_subscription
has_other id s ss h = rw h refl

below-has : (id : Text) (ss : List Subscription) → IsBelow id ss → has_subscription id ss ≡ false
unfolding has_subscription
below-has id [] b = refl
below-has id (s ∷ ss) b = has_other id s ss (less-not_eq id s.key b.0) ∙ below-has id ss b.1

expired-other :
    (id : Text) (s : Subscription) (r : Timed Bool) (ss : List Subscription) (rest : Managed ℕ)
    (b : Bool)
    → r.0 ≡ done b
    → text_eq s.key id ≡ false
    → has_subscription id (expired s r ss rest).1 ≡ has_subscription id rest.1
expired-other id s (done true, t) ss rest b h n = refl
expired-other id s (done false, t) ss rest b h n = has_other id (with_timer t s) rest.1 n
expired-other id s (throws e, t) ss rest b h n = cc
expired-other id s (faults, t) ss rest b h n = cc

expired-this :
    (id : Text) (s : Subscription) (r : Timed Bool) (ss : List Subscription) (rest : Managed ℕ)
    (b : Bool)
    → r.0 ≡ done b
    → text_eq s.key id ≡ true
    → has_subscription id rest.1 ≡ false
    → has_subscription id (expired s r ss rest).1 ≡ not b
unfolding has_subscription
expired-this id s (done true, t) ss rest true h y n = n
expired-this id s (done true, t) ss rest false h y n = cc
expired-this id s (done false, t) ss rest true h y n = cc
expired-this id s (done false, t) ss rest false h y n = rw y refl
expired-this id s (throws e, t) ss rest b h y n = cc
expired-this id s (faults, t) ss rest b h y n = cc

below-other :
    (key : Text) (P : Subscription → Type 0) (id : Text) (ss : List Subscription)
    → IsBelow key ss
    → Some (λ s. (s.key ≡ id) × P s) ss
    → text_eq key id ≡ false
below-other key P id [] b h = elim h [ ]
below-other key P id (s ∷ ss) b (here k) =
    subst (λ i. text_eq key i ≡ false) k.0 (less-differs key s.key b.0)
below-other key P id (s ∷ ss) b (there k) = below-other key P id ss b.1 k

-- The next removal keeps a subscription exactly if its timer has not expired.
pub due-remove :
    (at : Text → Moment) (due : ℕ) (id : Text) (ss : List Subscription)
    → IsUpAt at
    → IsSorted ss
    → IsDue due id ss
    → has_subscription id (remove_expired_subscriptions at ss).1 ≡ not (leb due (at id).now)
unfolding remove_expired_subscriptions IsDue IsUpAt
due-remove at due id [] u h d = elim d [ ]
due-remove at due id (s ∷ ss) u h (here k) =
    expired-this id s (is_signaled (at s.key) s.expiration_timer) ss
      (remove_expired_subscriptions at ss) (leb due (at id).now)
      (armed-is_signaled (at s.key) due s.expiration_timer (u s.key) k.1
        ∙ ap (λ i. done (leb due (at i).now)) k.0)
      (subst (λ i. text_eq s.key i ≡ true) k.0 (text_eq_self s.key))
      (below-has id (remove_expired_subscriptions at ss).1 (
        subst (λ i. IsBelow i (remove_expired_subscriptions at ss).1) k.0
          (remove-All (λ t. text_less s.key t.key ≡ true) at (λ m t b. b) ss h.0)))
due-remove at due id (s ∷ ss) u h (there k) =
    (let b = signaled-done (at s.key) s.expiration_timer (u s.key) in
      expired-other id s (is_signaled (at s.key) s.expiration_timer) ss
        (remove_expired_subscriptions at ss) b.0 b.1
        (below-other s.key (λ t. IsArmed due t.expiration_timer) id ss h.0 k)
      ∙ due-remove at due id ss u h.1 k)

Some-insert :
    (P : Subscription → Type 0) (s : Subscription) (ss : List Subscription)
    → P s
    → Some P (insert s ss)
unfolding insert
Some-insert P s [] p = here p
Some-insert P s (t ∷ ts) p = elim (Bool-cases (text_less s.key t.key)) [
  | inl l ↦ rw l (here p)
  | inr l ↦ elim (Bool-cases (text_eq s.key t.key)) [
    | inl e ↦ rw (l, e) (here p)
    | inr e ↦ rw (l, e) (there (Some-insert P s ts p))
  ]
]

renewed-done :
    (s : Subscription) (r : Timed Bool) (ss : List Subscription) (rest : Managed Bool) (b : Bool)
    → r.0 ≡ done b
    → (renewed s r ss rest).1 ≡ with_timer r.1 s ∷ rest.1
renewed-done s (done b, t) ss rest c h = refl
renewed-done s (throws e, t) ss rest c h = cc
renewed-done s (faults, t) ss rest c h = cc

abbrev new_due : ℕ → Moment → ℕ
new_due ttl m = m.now + ttl_microseconds ttl * 1000

-- After a renewal each of its subscriptions is due after the time to live.
renew-IsDue :
    (ttl : ℕ) (at : Text → Moment) (ids : List Text) (id : Text) (ss : List Subscription)
    → IsUpAt at
    → 0 < ttl_microseconds ttl
    → All IsRegistered ss
    → mem id ids ≡ true
    → has_subscription id ss ≡ true
    → IsDue (new_due ttl (at id)) id (renew_subscriptions ttl at ids ss).1
unfolding renew_subscriptions has_subscription IsUpAt IsRegistered IsDue
renew-IsDue ttl at ids id [] u p r m h = cc
renew-IsDue ttl at ids id (s ∷ ss) u p r m h =
    (let us = ttl_microseconds ttl in
      let started = start-IsArmed (at s.key) us s.expiration_timer (u s.key) p r.0.2 in
      let t = start (at s.key) us s.expiration_timer in
      let rest = renew_subscriptions ttl at ids ss in
      elim (Bool-cases (text_eq s.key id)) [
        | inl e ↦
            (let same = text_eq_sound s.key id e in
              rw
                (
                  subst (λ k. mem k ids ≡ true) (sym same) m,
                  renewed-done s t ss rest true started.0,
                )
                (here (same, subst (λ k. IsArmed (new_due ttl (at k)) t.1) same started.1)))
        | inr e ↦
            (let more = renew-IsDue ttl at ids id ss u p r.1 m (rw e at h) in
              elim (Bool-cases (mem s.key ids)) [
                | inl i ↦ rw (i, renewed-done s t ss rest true started.0) (there more)
                | inr i ↦ rw i (there more)
              ])
      ])

register-IsDue :
    (ttl : ℕ) (m : Moment) (si : SubscriptionInfo) (ss : List Subscription)
    → IsUp m
    → 0 < ttl_microseconds ttl
    → is_empty si.id ≡ false
    → has_subscription si.id ss ≡ false
    → ((register_subscription ttl m si ss).0 ≡ done tt)
      × IsDue (new_due ttl m) si.id (register_subscription ttl m si ss).1
unfolding register_subscription IsDue
register-IsDue ttl m si ss u p e n =
    (let us = ttl_microseconds ttl in
      let started = start-IsArmed m us (new_timer us) u p (new_timer-IsSound us) in
      rw (e, n)
        (
          ap ended started.0,
          Some-insert (λ s. (s.key ≡ si.id) × IsArmed (new_due ttl m) s.expiration_timer)
              (new_record si (start m us (new_timer us)).1) ss (refl, started.1),
        ))

-- A new subscription with an identifier that is not empty and not registered is accepted, and the
-- next removal of expired subscriptions keeps it exactly if its time to live, in milliseconds and as
-- far as a count of microseconds holds it, has not passed since. The calls of the timer succeed, and
-- the time to live is not 0.
pub registered_until :
    (ttl : ℕ) (m : Moment) (at : Text → Moment) (si : SubscriptionInfo) (ss : List Subscription)
    → IsManaged ss
    → IsUp m
    → IsUpAt at
    → 0 < ttl_microseconds ttl
    → is_empty si.id ≡ false
    → has_subscription si.id ss ≡ false
    → let registered = register_subscription ttl m si ss in
      (registered.0 ≡ done tt)
      × (has_subscription si.id (remove_expired_subscriptions at registered.1).1
          ≡ not (leb (m.now + ttl_microseconds ttl * 1000) (at si.id).now))
unfolding IsManaged
registered_until ttl m at si ss h u w p e n =
    (let due = register-IsDue ttl m si ss u p e n in
      (
        due.0,
        due-remove at (new_due ttl m) si.id (register_subscription ttl m si ss).1 w
            (register-IsManaged ttl m si ss h).0 due.1,
      ))

-- A renewal that names a registered subscription keeps it for as many microseconds from then on as its
-- time to live in milliseconds makes in 32 bits, `ttl * 1000 % 2 ^ 32`, so that a time to live of more
-- than 4294967 ms is cut: whatever was left before, the next removal of expired subscriptions keeps it
-- exactly if these microseconds have not passed since the renewal. The calls of the timers succeed, and
-- the number of microseconds is not 0.
pub renewed_until :
    (ttl : ℕ) (at later : Text → Moment) (ids : List Text) (id : Text) (ss : List Subscription)
    → IsManaged ss
    → IsUpAt at
    → IsUpAt later
    → 0 < ttl_microseconds ttl
    → mem id ids ≡ true
    → has_subscription id ss ≡ true
    → has_subscription id
        (remove_expired_subscriptions later (renew_subscriptions ttl at ids ss).1).1
      ≡ not (leb ((at id).now + ttl_microseconds ttl * 1000) (later id).now)
unfolding IsManaged
renewed_until ttl at later ids id ss h u w p m k =
    due-remove later (new_due ttl (at id)) id (renew_subscriptions ttl at ids ss).1 w
      (renew-IsManaged ttl at ids ss h).0 (renew-IsDue ttl at ids id ss u p h.1 m k)
