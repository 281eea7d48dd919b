-- ===== src/Manager/Registration.antt =====
-- src/zippylog/persisted_state_manager.cpp: the subscriptions of a `PersistedStateManager` as they are
-- registered, renewed and removed.
pub mod Order
pub mod Invariant
pub mod Lifetime
use Prim.Native.String.{String}
use zippylog.Prelude.{
  ℕ, suc, ◌+◌, ◌*◌, ◌%◌, ◌^◌, Bool, true, false, ◌||◌, ◌&&◌, List, [], ◌∷◌, Text, is_empty, ltb,
  ◌==◌, text_eq, if◌then◌else◌, Outcome, done, throws, faults,
}
use zippylog.Platform.{Moment, Timer, new_timer, Timed, start, is_signaled}
use zippylog.RequestProcessor.Messages.{SubscriptionInfo}
use zippylog.Manager.{Subscription}

-- `std::string::compare` below 0: the order of the keys.
unfoldable pub text_less : Text → Text → Bool
text_less [] [] = false
text_less [] (_ ∷ _) = true
text_less (_ ∷ _) [] = false
text_less (a ∷ s) (b ∷ t) = ltb a b || ((a == b) && text_less s t)

-- What an operation gives, and the subscriptions that it leaves, also where it throws.
abbrev pub Managed : Type 0 → Type 0
Managed A = Outcome A × List Subscription

-- `subscriptions.find(id)` that is not the end.
unfoldable pub has_subscription : Text → List Subscription → Bool
has_subscription id [] = false
has_subscription id (s ∷ ss) =
    let rest = has_subscription id ss in if text_eq s.key id then true else rest

-- `subscriptions[id] = record`: a new entry has its place in the order, an old one is replaced.
unfoldable pub insert : Subscription → List Subscription → List Subscription
unfolding text_less
insert s [] = s ∷ []
insert s (t ∷ ts) =
    let rest = insert s ts in
    if text_less s.key t.key then s ∷ t ∷ ts else if text_eq s.key t.key then s ∷ ts else t ∷ rest

-- The arithmetic of `subscription_ttl * 1000`.
unfoldable pub ttl_microseconds : ℕ → ℕ
ttl_microseconds ttl = ttl * 1000 % 2 ^ 32

abbrev pub with_timer : Timer → Subscription → Subscription
with_timer t s = record s { expiration_timer = t }

abbrev pub ended : Outcome Bool → Outcome (Unit {0})
ended (done b) = done tt
ended (throws e) = throws e
ended faults = faults

abbrev pub new_record : SubscriptionInfo → Timer → Subscription
new_record si t = record { key = si.id; si = si; expiration_timer = t }

-- `subscription_ttl` and the moment of the call. The record is in the map before its timer starts, and
-- what `Start` returns is ignored.
unfoldable pub register_subscription :
    ℕ → Moment → SubscriptionInfo → List Subscription → Managed Unit
unfolding has_subscription insert ttl_microseconds
register_subscription ttl m si ss =
    if is_empty si.id
    then (throws "subscription must have id defined", ss)
    else if has_subscription si.id ss
    then (throws "subscription with that ID is already registered", ss)
    else (let started = start m (ttl_microseconds ttl) (new_timer (ttl_microseconds ttl)) in
        (ended started.0, insert (new_record si started.1) ss))

unfoldable pub mem : Text → List Text → Bool
mem key [] = false
mem key (id ∷ ids) = let rest = mem key ids in if text_eq key id then true else rest

-- A subscription that was renewed, with what becomes of the others, or an exception in between.
abbrev pub renewed : Subscription → Timed Bool → List Subscription → Managed Bool → Managed Bool
renewed s (done b, t) ss rest = (rest.0, with_timer t s ∷ rest.1)
renewed s (throws e, t) ss rest = (throws e, with_timer t s ∷ ss)
renewed s (faults, t) ss rest = (faults, with_timer t s ∷ ss)

-- The moment is that at which the loop comes to the subscription with the key.
unfoldable pub renew_subscriptions :
    ℕ → (Text → Moment) → List Text → List Subscription → Managed Bool
unfolding ttl_microseconds mem
renew_subscriptions ttl at ids [] = (done true, [])
renew_subscriptions ttl at ids (s ∷ ss) =
    let rest = renew_subscriptions ttl at ids ss in
    if mem s.key ids
    then renewed s (start (at s.key) (ttl_microseconds ttl) s.expiration_timer) ss rest
    else (rest.0, s ∷ rest.1)

unfoldable pub renew_subscription : ℕ → (Text → Moment) → Text → List Subscription → Managed Bool
renew_subscription ttl at id = renew_subscriptions ttl at (id ∷ [])

abbrev pub plus_one : Outcome ℕ → Outcome ℕ
plus_one (done n) = done (suc n)
plus_one (throws e) = throws e
plus_one faults = faults

abbrev pub expired : Subscription → Timed Bool → List Subscription → Managed ℕ → Managed ℕ
expired s (done true, t) ss rest = (plus_one rest.0, rest.1)
expired s (done false, t) ss rest = (rest.0, with_timer t s ∷ rest.1)
expired s (throws e, t) ss rest = (throws e, with_timer t s ∷ ss)
expired s (faults, t) ss rest = (faults, with_timer t s ∷ ss)

unfoldable pub remove_expired_subscriptions : (Text → Moment) → List Subscription → Managed ℕ
remove_expired_subscriptions at [] = (done 0, [])
remove_expired_subscriptions at (s ∷ ss) =
    expired s (is_signaled (at s.key) s.expiration_timer) ss (remove_expired_subscriptions at ss)
