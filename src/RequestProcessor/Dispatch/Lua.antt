-- ===== src/RequestProcessor/Dispatch/Lua.antt =====
-- src/zippylog/request_processor.cpp, `ProcessSubscribeEnvelopes` with Lua code.
use zippylog.Prelude.{
  ℕ, suc, ltb, arith, ◌≡◌, refl, ap, ◌∙◌, true, false, Option, none, some, List, [], ◌∷◌, Text,
  length, ◌==◌, done, faults,
}
use zippylog.Envelope.{Envelope, get_message, get_cached, cache_for, fill, parse_at}
use zippylog.RequestProcessor.Messages.{Request, EnvelopesRequest}
use zippylog.RequestProcessor.State.{Environment, Progress, andthen, return}
use zippylog.RequestProcessor.Info.{authoritative}
use zippylog.RequestProcessor.Subscriptions.{process_subscribe_envelopes, subscribe_obtained}
use zippylog.RequestProcessor.Subscriptions.Subscribed.{loaded}
use zippylog.RequestProcessor.Writes.Handled.{obtained_eq}
use zippylog.RequestProcessor.Dispatch.{handle, dispatch, send_response, process_request}

-- A request whose first message is a `SubscribeEnvelopesV1`, as it is parsed: no message is cached.
abbrev pub subscription_request :
    Option ℕ → Text → List Text → List ℕ → List ℕ → List Text → Envelope Request
subscription_request at b bs nss types tag = record {
  create_time = at;
  message = b ∷ bs;
  message_namespace = 1 ∷ nss;
  message_type = 81 ∷ types;
  tag = tag;
  messages = none;
}

some_left : (n : ℕ) → ltb (suc n) 1 ≡ false
some_left n = ground arith

module _ (env : Environment) (identities : List Text) (p : Progress) where
  handled :
      (at : Option ℕ) (b : Text) (bs : List Text) (nss types : List ℕ) (tag : List Text)
      → dispatch env identities (subscription_request at b bs nss types tag) p
        ≡ process_subscribe_envelopes env identities (subscription_request at b bs nss types tag) p
  unfolding dispatch handle
  handled at b bs nss types tag = refl

  silent :
      (request : Envelope Request) (m : EnvelopesRequest) (code : Text)
      → (get_message env.parse_message 0 request).0 ≡ some (Request.subscribe_envelopes m)
      → (length m.filter_enumeration_namespace == length m.filter_enumeration_type) ≡ true
      → m.lua_code ≡ some code
      → env.load_lua code ≡ none
      → process_subscribe_envelopes env identities request p ≡ (done authoritative, p)
  unfolding process_subscribe_envelopes
  silent request m code g s c l =
      ap (andthen (subscribe_obtained env identities))
        (obtained_eq env request (Request.subscribe_envelopes m) p g)
      ∙ ap (andthen (λ u. return authoritative)) (loaded env identities m p s code c l)

  obtained :
      (at : Option ℕ) (b : Text) (bs : List Text) (nss types : List ℕ) (tag : List Text)
      (m : EnvelopesRequest)
      → env.parse_message 1 81 b ≡ some (Request.subscribe_envelopes m)
      → (get_message env.parse_message 0 (subscription_request at b bs nss types tag)).0
        ≡ some (Request.subscribe_envelopes m)
  unfolding get_message get_cached cache_for fill parse_at
  obtained at b bs nss types tag m g =
      rw (some_left (length bs), some_left (length nss), some_left (length types)) (rw g refl)

  unanswered :
      (tags : List Text) → p.output ≡ [] → (send_response env tags authoritative p).0 ≡ faults
  unfolding send_response
  unanswered tags o = rw (o, send_response) refl

  -- Where no output stands yet, a request whose first message is one to subscribe to envelopes with Lua
  -- code that loads, and with as many filter namespaces as types, fails an assertion, whatever its time,
  -- its tags and its other messages. No message of it is cached, as in each request that is received.
  pub process_request-faults :
      (at : Option ℕ) (b : Text) (bs : List Text) (nss types : List ℕ) (tag : List Text)
      (m : EnvelopesRequest) (code : Text)
      → env.parse_message 1 81 b ≡ some (Request.subscribe_envelopes m)
      → (length m.filter_enumeration_namespace == length m.filter_enumeration_type) ≡ true
      → m.lua_code ≡ some code
      → env.load_lua code ≡ none
      → p.output ≡ []
      → (process_request env identities (subscription_request at b bs nss types tag) p).0 ≡ faults
  unfolding process_request
  process_request-faults at b bs nss types tag m code g s c l o =
      ap (λ x. (andthen (send_response env tag) x).0)
        (handled at b bs nss types tag
          ∙ silent (subscription_request at b bs nss types tag) m code
              (obtained at b bs nss types tag m g) s c l)
      ∙ unanswered tag o
