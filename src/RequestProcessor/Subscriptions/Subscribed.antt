-- ===== src/RequestProcessor/Subscriptions/Subscribed.antt =====
-- src/zippylog/request_processor.cpp, the handlers of subscriptions: what the implementation is asked
-- to subscribe.
use zippylog.Prelude.{
  arith, ◌≡◌, refl, sym, ap, ◌∙◌, inl, inr, true, none, some, some-injective, List, [], ◌∷◌, ◌++◌,
  Text, length, drop, is_empty, ◌==◌, done, All, Bool-cases, Option-cases,
}
use mathlib.Core.List.{append-nil, append_assoc}
use zippylog.Store.Path.{validate_path}
use zippylog.RequestProcessor.Messages.{
  Response, EnvelopesRequest, SubscriptionInfo, HandlerResult, envelope_subscription,
  new_subscription,
}
use zippylog.RequestProcessor.State.{
  Environment, Progress, Call, answer, populate_error_response, envelope_of,
}
use zippylog.RequestProcessor.Subscriptions.{
  add_paths, or_root, subscribe_paths, subscribe_envelopes, call_handle_subscription_request,
  ask_subscription, respond_subscription, value, pairs,
}
use zippylog.RequestProcessor.Writes.Calls.{IsQuiet, value-calls, andthen-calls}

abbrev IsValid : Text → Type 0
IsValid path = validate_path path ≡ true

clash {ℓ} : {A : Type ℓ} {r : A} → none ≡ some r → ⊥
clash h = cc

-- The paths are kept in their order, and every one is valid.
add_paths-cases :
    (requested paths result : List Text)
    → add_paths requested paths ≡ some result
    → (result ≡ paths ++ requested) × All IsValid requested
unfolding add_paths
add_paths-cases [] paths result h = (sym (some-injective _ _ h) ∙ sym (append-nil paths), tt)
add_paths-cases (path ∷ more) paths result h = elim (Bool-cases (validate_path path)) [
  | inr v ↦ elim (clash (rw (v, add_paths) at h)) [ ]
  | inl v ↦
      (let k = add_paths-cases more (paths ++ path ∷ []) result (rw (v, add_paths) at h) in
        (k.0 ∙ append_assoc paths (path ∷ []) more, (v, k.1)))
]

add_paths-some :
    (requested paths : List Text)
    → All IsValid requested
    → add_paths requested paths ≡ some (paths ++ requested)
unfolding add_paths
add_paths-some [] paths h = ap some (sym (append-nil paths))
add_paths-some (path ∷ more) paths h =
    rw (h.0, add_paths)
      (add_paths-some more (paths ++ path ∷ []) h.1 ∙ ap some (append_assoc paths (path ∷ []) more))

-- The requests that are accepted: the filters fit, there is no Lua code, and all paths are valid.
pub IsAccepted : EnvelopesRequest → Type 0
IsAccepted m =
    (length m.filter_enumeration_namespace ≡ length m.filter_enumeration_type)
    × (m.lua_code ≡ none)
    × All IsValid m.path

module _ (env : Environment) where
  respond-calls : (r : HandlerResult) → IsQuiet (respond_subscription env r)
  unfolding respond_subscription populate_error_response envelope_of
  respond-calls r p = elim (Bool-cases r.deferred) [
    | inl d ↦ rw d refl
    | inr d ↦ elim (Bool-cases r.have_error) [
      | inl h ↦
          rw (d, h)
            (andthen-calls (λ code. populate_error_response env code r.error_message)
                (value r.error_code p) (λ c q. refl)
              ∙ value-calls env r.error_code p)
      | inr h ↦ elim (Bool-cases r.is_subscription) [
        | inr s ↦ rw (d, h, s) refl
        | inl s ↦ elim (Bool-cases (is_empty r.subscription_id)) [
          | inl i ↦ rw (d, h, s, i) refl
          | inr i ↦
              rw (d, h, s, i)
                (andthen-calls
                    (λ ttl. answer env (Response.subscription_accept_ack r.subscription_id ttl))
                    (value r.subscription_ttl p) (λ n q. refl)
                  ∙ value-calls env r.subscription_ttl p)
        ]
      ]
    ]
  ]

  -- What the implementation is asked: nothing if the request is not accepted, and else once to
  -- subscribe, to the paths of the request, or the whole store if it names none.
  pub IsSubscribed :
      Type 0 → List Text → List Text → SubscriptionInfo → List Call → List Call → Type 0
  IsSubscribed accepted identities requested subscription calls calls' =
      (accepted
        → calls'
          ≡ calls
            ++ Call.handle_subscription_request (record subscription {
              paths = or_root requested;
              socket_identifiers = drop 1 identities;
            })
              ∷ [])
      × (¬ accepted → calls' ≡ calls)

  asked-calls :
      (identities : List Text) (subscription : SubscriptionInfo) (p : Progress)
      → (call_handle_subscription_request env identities subscription p).1.calls
        ≡ p.calls
          ++ Call.handle_subscription_request
              (record subscription { socket_identifiers = drop 1 identities })
            ∷ []
  unfolding call_handle_subscription_request ask_subscription
  asked-calls identities subscription p =
      andthen-calls (respond_subscription env)
        (ask_subscription env (record subscription { socket_identifiers = drop 1 identities }) p)
        respond-calls

  paths-IsSubscribed :
      (identities requested : List Text) (subscription : SubscriptionInfo) (p : Progress)
      → IsSubscribed
          (All IsValid requested)
          identities
          requested
          subscription
          p.calls
          (subscribe_paths env identities requested subscription p).1.calls
  unfolding IsSubscribed subscribe_paths call_handle_subscription_request ask_subscription
      populate_error_response envelope_of
  paths-IsSubscribed identities requested subscription p =
      elim (Option-cases (add_paths requested [])) [
        | inl h ↦ (
          λ v. elim (clash (sym h ∙ add_paths-some requested [] v)) [ ],
          λ v. rw (h, subscribe_paths) refl,
        )
        | inr h ↦
            (let k = add_paths-cases requested [] h.0 h.1 in
              (
                λ v.
                    rw (h.1, subscribe_paths)
                      (asked-calls identities (record subscription { paths = or_root h.0 }) p
                        ∙ ap
                            (λ ps.
                              p.calls
                              ++ Call.handle_subscription_request (record subscription {
                                paths = or_root ps;
                                socket_identifiers = drop 1 identities;
                              })
                                ∷ [])
                            k.0),
                λ v. elim (v k.1) [ ],
              ))
      ]

  -- The subscription that a request for envelopes is to make.
  abbrev pub wanted : EnvelopesRequest → SubscriptionInfo
  wanted m = record new_subscription {
    type = envelope_subscription;
    envelope_filter_enumerations = pairs m.filter_enumeration_namespace m.filter_enumeration_type;
    envelope_filter_namespaces = m.filter_namespace;
  }

  equal_lengths :
      (m : EnvelopesRequest)
      → (length m.filter_enumeration_namespace == length m.filter_enumeration_type) ≡ true
      → length m.filter_enumeration_namespace ≡ length m.filter_enumeration_type
  equal_lengths m l = ground arith

  module _ (identities : List Text) (m : EnvelopesRequest) (p : Progress)
      (same : (length m.filter_enumeration_namespace == length m.filter_enumeration_type)
        ≡ true) where
    plain :
        m.lua_code ≡ none
        → subscribe_envelopes env identities m p
          ≡ subscribe_paths env identities m.path (wanted m) p
    unfolding subscribe_envelopes
    plain c = rw (same, c, subscribe_envelopes) refl

    -- With Lua code that loads nothing is done at all.
    pub loaded :
        (code : Text)
        → m.lua_code ≡ some code
        → env.load_lua code ≡ none
        → subscribe_envelopes env identities m p ≡ (done tt, p)
    unfolding subscribe_envelopes
    loaded code c l = rw (same, c, l, subscribe_envelopes) refl

    with_lua :
        (code : Text)
        → m.lua_code ≡ some code
        → (subscribe_envelopes env identities m p).1.calls ≡ p.calls
    unfolding subscribe_envelopes populate_error_response envelope_of
    with_lua code c = elim (Option-cases (env.load_lua code)) [
      | inl l ↦ rw (same, c, l, subscribe_envelopes) refl
      | inr l ↦ rw (same, c, l.1, subscribe_envelopes) refl
    ]

  -- A request for envelopes that has as many filter namespaces as types, no Lua code and only valid
  -- paths asks the implementation for one subscription: of that kind, with the filters and the paths
  -- of the request, or for the whole store if it has none, and with the identities of the client but
  -- the first. Any other request for envelopes asks nothing.
  pub subscribe_envelopes-IsSubscribed :
      (identities : List Text) (m : EnvelopesRequest) (p : Progress)
      → IsSubscribed
          (IsAccepted m)
          identities
          m.path
          (wanted m)
          p.calls
          (subscribe_envelopes env identities m p).1.calls
  unfolding subscribe_envelopes populate_error_response envelope_of IsSubscribed IsAccepted
  subscribe_envelopes-IsSubscribed identities m p =
      elim (Bool-cases
        (length m.filter_enumeration_namespace == length m.filter_enumeration_type)) [
          | inr l ↦ (λ a. ground arith, λ a. rw (l, subscribe_envelopes) refl)
          | inl l ↦ elim (Option-cases m.lua_code) [
            | inl c ↦
                (let k = paths-IsSubscribed identities m.path (wanted m) p in
                  let same = ap (λ x. x.1.calls) (plain identities m p l c) in
                  (λ a. same ∙ k.0 a.2, λ a. same ∙ k.1 (λ v. a (equal_lengths m l, c, v))))
            | inr c ↦
                (λ a. elim (clash (sym a.1 ∙ c.1)) [ ], λ a. with_lua identities m p l c.0 c.1)
          ]
        ]
