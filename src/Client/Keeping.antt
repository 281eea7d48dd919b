-- ===== src/Client/Keeping.antt =====
-- src/zippylog/client.cpp: what the messages for a subscription do to the outstanding requests.
use mathlib.Core.List.{append_assoc, append-nil}
use zippylog.Prelude.{
  ℕ, zero, suc, ◌+◌, ◌-◌, ◌≡◌, refl, sym, ap, ◌∙◌, inl, inr, Bool, Option-cases, true, false,
  Option, none, some, List, [], ◌∷◌, ◌++◌, Text, length, if◌then◌else◌, Outcome, done, throws,
  faults,
}
use zippylog.Envelope.{Envelope, read}
use zippylog.Reactor.Messages.{StoreChange}
use zippylog.Client.Messages.{
  Reply, Callback, OutstandingRequest, ClientSubscription, Told, CallbackCall, Client, find, cast,
  to_store_change,
}
use zippylog.Client.{Handled, call, then_do, go_on, message_at}
use zippylog.Client.Dispatch.{
  callback_for, tell_for, tell_change, tell_message, tell_messages, tell_envelopes, tell_streamed,
  tell_subscription, validate_subscription_start, handle_subscription_response, handle_start,
}

-- What a list of calls makes of the outstanding requests.
unfoldable pub acted :
    (CallbackCall → List (Text × OutstandingRequest) → List (Text × OutstandingRequest))
    → List CallbackCall
    → List (Text × OutstandingRequest)
    → List (Text × OutstandingRequest)
acted acts [] out = out
acted acts (k ∷ ks) out = acted acts ks (acts k out)

acted-append :
    (acts : CallbackCall → List (Text × OutstandingRequest) → List (Text × OutstandingRequest))
    (ks ls : List CallbackCall) (out : List (Text × OutstandingRequest))
    → acted acts (ks ++ ls) out ≡ acted acts ls (acted acts ks out)
unfolding acted
acted-append acts [] ls out = refl
acted-append acts (k ∷ ks) ls out = acted-append acts ks ls (acts k out)

-- The outstanding requests are what the callbacks that were called make of them.
pub data Keeps {A : Type 0} (c : Client) (h : Outcome A × Client) : Type 0 where
  kept :
      (calls : List CallbackCall)
      → h.1.called ≡ c.called ++ calls
      → h.1.outstanding ≡ acted c.acts calls c.outstanding
      → h.1.acts ≡ c.acts
      → Keeps c h

stays : {A : Type 0} (o : Outcome A) (c : Client) → Keeps c (o, c)
unfolding acted
stays o c = kept [] (sym (append-nil c.called)) refl refl

calls-Keeps :
    {A : Type 0} (o : Outcome A) (cb : Callback) (t : Told) (context : ℕ) (c : Client)
    → Keeps c (o, call (some cb) t context c)
unfolding acted
calls-Keeps o cb t context c =
    kept ((record { callback = cb; told = t; context = context }) ∷ []) refl refl refl

Keeps-trans :
    {A B : Type 0} {c d : Client} {o : Outcome A} {h : Outcome B × Client}
    → Keeps c (o, d)
    → Keeps d h
    → Keeps c h
Keeps-trans {c = c} {d = d} (kept ks p q r) (kept ls u v w) =
    kept (ks ++ ls) (u ∙ ap (λ l. l ++ ls) p ∙ append_assoc c.called ks ls)
      (v
        ∙ ap (λ f. acted f ls d.outstanding) r
        ∙ ap (acted c.acts ls) q
        ∙ sym (acted-append c.acts ks ls c.outstanding))
      (w ∙ r)

if-Keeps :
    {c : Client} (b : Bool) {h k : Handled} → Keeps c h → Keeps c k → Keeps c (if b then h else k)
if-Keeps true p q = p
if-Keeps false p q = q

then-Keeps :
    {A B : Type 0} {c : Client} (o : Outcome A) {f : A → Outcome B × Client}
    → ((a : A) → Keeps c (f a))
    → Keeps c (then_do f c o)
then-Keeps (done a) h = h a
then-Keeps {c = c} (throws e) h = stays (throws e) c
then-Keeps {c = c} faults h = stays faults c

retold :
    {A B : Type 0} {c d : Client} {o : Outcome A} (p : Outcome B) → Keeps c (o, d) → Keeps c (p, d)
retold p (kept ks a b e) = kept ks a b e

on-Keeps :
    {A B : Type 0} {c : Client} (k : Outcome A × Client) {f : Client → Outcome B × Client}
    → Keeps c k
    → ((d : Client) → Keeps d (f d))
    → Keeps c (go_on f k)
on-Keeps (done a, d) k h = Keeps-trans k (h d)
on-Keeps (throws e, d) k h = retold (throws e) k
on-Keeps (faults, d) k h = retold faults k

module _ (open_protocol open_raw : Text → Option (Envelope Reply))
    (parse : ℕ → ℕ → Text → Option Reply) where
  told-Keeps :
      (cb : Callback) (id : Text) (context : ℕ) (o : Option StoreChange) (c : Client)
      → Keeps c (tell_change open_protocol open_raw parse cb id context o c)
  told-Keeps cb id context none c = stays faults c
  told-Keeps cb id context (some s) c = calls-Keeps (done tt) cb (Told.changed id s) context c

  for-Keeps :
      (o : Option Callback) (id : Text) (sub : ClientSubscription) (e : Envelope Reply) (i : ℕ)
      (c : Client)
      → Keeps c (tell_for open_protocol open_raw parse o id sub e i c)
  for-Keeps none id sub e i c = stays _ c
  for-Keeps (some cb) id sub e i c =
      told-Keeps cb id sub.context
        (cast to_store_change (message_at open_protocol open_raw parse i e)) c

  tell_message-Keeps :
      (id : Text) (sub : ClientSubscription) (e : Envelope Reply) (i : ℕ) (c : Client)
      → Keeps c (tell_message open_protocol open_raw parse id sub e i c)
  unfolding tell_message
  tell_message-Keeps id sub e i c =
      then-Keeps (read e.message_type i) (λ type. for-Keeps (callback_for type sub.cb) id sub e i c)

  tell_messages-Keeps :
      (id : Text) (sub : ClientSubscription) (e : Envelope Reply) (n i : ℕ) (c : Client)
      → Keeps c (tell_messages open_protocol open_raw parse id sub e n i c)
  unfolding tell_messages
  tell_messages-Keeps id sub e zero i c = stays _ c
  tell_messages-Keeps id sub e (suc n) i c =
      on-Keeps (tell_message open_protocol open_raw parse id sub e i c)
        (tell_message-Keeps id sub e i c) (λ d. tell_messages-Keeps id sub e n (i + 1) d)

  envelopes-Keeps :
      (cb : Callback) (id : Text) (context : ℕ) (msgs : List Text) (c : Client)
      → Keeps c (tell_envelopes open_protocol open_raw parse cb id context msgs c)
  unfolding tell_envelopes
  envelopes-Keeps cb id context [] c = stays _ c
  envelopes-Keeps cb id context (msg ∷ msgs) c = elim (Option-cases (open_raw msg)) [
    | inl n ↦ rw (n, tell_envelopes) (stays _ c)
    | inr e ↦
        rw (e.1, tell_envelopes)
          (Keeps-trans (calls-Keeps (done tt) cb (Told.received id e.0) context c)
            (envelopes-Keeps cb id context msgs (call (some cb) (Told.received id e.0) context c)))
  ]

  streamed-Keeps :
      (cb : Option Callback) (id : Text) (context : ℕ) (msgs : List Text) (c : Client)
      → Keeps c (tell_streamed open_protocol open_raw parse cb id context msgs c)
  streamed-Keeps none id context msgs c = stays _ c
  streamed-Keeps (some cb) id context msgs c = envelopes-Keeps cb id context msgs c

  subscription-Keeps :
      (o : Option ClientSubscription) (e : Envelope Reply) (id : Text) (msgs : List Text)
      (c : Client)
      → Keeps c (tell_subscription open_protocol open_raw parse o e id msgs c)
  subscription-Keeps none e id msgs c = stays _ c
  subscription-Keeps (some sub) e id msgs c =
      on-Keeps (tell_messages open_protocol open_raw parse id sub e (length e.message - 1) 1 c)
        (tell_messages-Keeps id sub e (length e.message - 1) 1 c)
        (λ d. streamed-Keeps sub.cb.envelope_received id sub.context msgs d)

  pub start-Keeps :
      (e : Envelope Reply) (msgs : List Text) (c : Client) (o : Option (Option Text))
      → Keeps c (handle_start open_protocol open_raw parse e msgs c o)
  unfolding handle_subscription_response
  start-Keeps e msgs c none = stays _ c
  start-Keeps e msgs c (some none) = stays _ c
  start-Keeps e msgs c (some (some id)) =
      if-Keeps (validate_subscription_start (some id) c)
        (subscription-Keeps (find id c.subscriptions) e id msgs c) (stays (done false) c)
