-- ===== src/RequestProcessor/Subscriptions.antt =====
-- src/zippylog/request_processor.cpp: the handlers of subscriptions and
-- `CallHandleSubscriptionRequest`.
pub mod Subscribed
use zippylog.Prelude.{
  ℕ, not, Option, none, some, List, [], ◌∷◌, ◌++◌, Text, is_empty, drop, length, ◌==◌,
  if◌then◌else◌,
}
use zippylog.Store.Path.{validate_path, slash}
use zippylog.Envelope.{Envelope, get_message, read}
use zippylog.RequestProcessor.Messages.{
  Request, Response, ErrorCode, Log, EnvelopesRequest, SubscriptionInfo, new_subscription,
  store_change, envelope_subscription, HandlerResult,
}
use zippylog.RequestProcessor.State.{
  Environment, Process, Call, ◌>>=◌, return, throw, fault, lift, log, answer, refuse, envelope_of,
  populate_error_response, obtain_message,
}
use zippylog.RequestProcessor.Info.{ResponseStatus, authoritative, deferred}

-- A field that the default constructor left without a value is not to be read.
abbrev pub value : {A : Type 0} → Option A → Process A
value none = fault
value (some a) = return a

-- The loop over the paths of a request: false where it meets one that is not valid.
unfoldable pub add_paths : List Text → List Text → Option (List Text)
add_paths [] paths = some paths
add_paths (path ∷ more) paths =
    if not (validate_path path) then none else add_paths more (paths ++ path ∷ [])

-- No path at all is the complete store.
abbrev pub or_root : List Text → List Text
or_root [] = (slash ∷ []) ∷ []
or_root (path ∷ paths) = path ∷ paths

-- The pairs of two lists of one length.
abbrev pub pairs : List ℕ → List ℕ → List (ℕ × ℕ)
pairs [] types = []
pairs (ns ∷ nss) [] = []
pairs (ns ∷ nss) (type ∷ types) = (ns, type) ∷ pairs nss types

module _ (env : Environment) where
  -- The call of the implementation: it is told of the calls so far.
  unfoldable pub ask_subscription : SubscriptionInfo → Process HandlerResult
  ask_subscription subscription p = (
    env.subscription_request p.calls subscription,
    record p { calls = p.calls ++ Call.handle_subscription_request subscription ∷ [] },
  )

  unfoldable pub ask_keepalive : Envelope Request → Process HandlerResult
  ask_keepalive request p =
      let answered = env.subscribe_keepalive p.calls request p.output in
      (
        answered.0,
        record p {
          output = answered.1;
          calls = p.calls ++ Call.handle_subscribe_keepalive request ∷ [];
        },
      )

  unfoldable pub respond_subscription : HandlerResult → Process Unit
  unfolding populate_error_response envelope_of
  respond_subscription result =
      if result.deferred
      then return tt
      else if result.have_error
      then (do
        code ← value result.error_code
        populate_error_response env code result.error_message)
      else if not result.is_subscription
      then throw "invalid response seen from request processor implementation"
      else if not (is_empty result.subscription_id)
      then (do
        ttl ← value result.subscription_ttl
        answer env (Response.subscription_accept_ack result.subscription_id ttl))
      else populate_error_response env ErrorCode.subscription_rejected result.error_message

  -- The first of the identities is dropped.
  unfoldable pub call_handle_subscription_request : List Text → SubscriptionInfo → Process Unit
  unfolding ask_subscription respond_subscription
  call_handle_subscription_request identities subscription = do
    result ← ask_subscription (record subscription { socket_identifiers = drop 1 identities })
    respond_subscription result

  unfoldable pub subscribe_paths : List Text → List Text → SubscriptionInfo → Process Unit
  unfolding call_handle_subscription_request add_paths populate_error_response
  subscribe_paths identities requested subscription = elim (add_paths requested []) [
    | none ↦ refuse env ErrorCode.invalid_path "path not valid" tt
    | some paths ↦
        call_handle_subscription_request identities (record subscription { paths = or_root paths })
  ]

  unfoldable pub process_subscribe_store_changes :
      List Text → Envelope Request → Process ResponseStatus
  unfolding subscribe_paths obtain_message
  process_subscribe_store_changes identities request = do
    obtained ← obtain_message env request
    tt ← elim obtained [
      | none ↦ return tt
      | some (Request.subscribe_store_changes path) ↦
          subscribe_paths identities path (record new_subscription { type = store_change })
      | some _ ↦ fault
    ]
    return authoritative

  -- With Lua code the handler ends here, whether the code loads or not.
  unfoldable pub subscribe_envelopes : List Text → EnvelopesRequest → Process Unit
  unfolding subscribe_paths populate_error_response
  subscribe_envelopes identities m =
      if not (length m.filter_enumeration_namespace == length m.filter_enumeration_type)
      then refuse env ErrorCode.field_lengths_different
          "lengths of filter_enumeration_namespace and filter_enumeration_type are not identical" tt
      else elim m.lua_code [
        | some code ↦ elim (env.load_lua code) [
          | some error ↦ populate_error_response env ErrorCode.lua_error error
          | none ↦ return tt
        ]
        | none ↦ subscribe_paths identities m.path (record new_subscription {
          type = envelope_subscription;
          envelope_filter_enumerations =
              pairs m.filter_enumeration_namespace m.filter_enumeration_type;
          envelope_filter_namespaces = m.filter_namespace;
        })
      ]

  abbrev pub subscribe_obtained : List Text → Option Request → Process ResponseStatus
  subscribe_obtained identities none = return authoritative
  subscribe_obtained identities (some (Request.subscribe_envelopes m)) = do
    tt ← subscribe_envelopes identities m
    return authoritative
  subscribe_obtained identities (some _) = fault

  unfoldable pub process_subscribe_envelopes : List Text → Envelope Request → Process ResponseStatus
  unfolding subscribe_envelopes obtain_message
  process_subscribe_envelopes identities request =
      obtain_message env request >>= subscribe_obtained identities

  -- The handler is called also where the message could not be parsed.
  unfoldable pub process_subscribe_keepalive : Envelope Request → Process ResponseStatus
  unfolding ask_keepalive obtain_message
  process_subscribe_keepalive request = do
    obtained ← obtain_message env request
    tt ← elim obtained [
      | none ↦ return tt
      | some (Request.subscribe_keepalive ids) ↦ (do
        id ← lift (read ids 0)
        log (Log.forward_subscribe_keepalive id))
      | some _ ↦ fault
    ]
    result ← ask_keepalive (get_message env.parse_message 0 request).1
    return (if result.deferred then deferred else authoritative)

  unfoldable pub process_subscribe_cancel : Envelope Request → Process ResponseStatus
  process_subscribe_cancel request = throw "not implemented"
