-- ===== src/Client/Matching.antt =====
-- src/zippylog/client.cpp, `ProcessResponseMessage` and `HandleRequestResponse`: which request a
-- response is taken for.
use zippylog.Prelude.{
  ℕ, ◌==◌, ◌≡◌, refl, Bool, true, false, not, ◌||◌, Option, none, some, List, [], ◌∷◌, Text,
  is_empty, if◌then◌else◌, Outcome, done, throws, faults,
}
use zippylog.Envelope.{Envelope, read}
use zippylog.Platform.{Moment}
use zippylog.Client.Messages.{
  Reply, OutstandingRequest, Client, find, erase, cast, to_subscription_start,
}
use zippylog.Client.{
  Handled, then_do, message_at, handle_for, handle_tagged, handle_request_response,
}
use zippylog.Client.Dispatch.{process_type, process_response_message}
use zippylog.Client.Keeping.{Keeps, start-Keeps}
use zippylog.Client.Answering.{Answers, response-Answers}

abbrev number : Outcome ℕ → Option ℕ
number (done type) = some type
number (throws e) = none
number faults = none

abbrev in_namespace : Outcome ℕ → Outcome ℕ → Option ℕ
in_namespace (done ns) type = if ns == 1 then number type else none
in_namespace (throws e) type = none
in_namespace faults type = none

-- The number of the first message, where the envelope has one of the namespace of zippylog.
unfoldable pub heading : Envelope Reply → Option ℕ
heading e =
    if is_empty e.message
    then none
    else in_namespace (read e.message_namespace 0) (read e.message_type 0)

-- The numbers of the answers to requests, and of what is told to a subscription.
abbrev pub is_answer : Option ℕ → Bool
is_answer none = false
is_answer (some type) = (type == 70) || (type == 96) || (type == 104) || (type == 109)

abbrev pub is_start : Option ℕ → Bool
is_start none = false
is_start (some type) = type == 107

-- The response is an answer, and its first tag is the identifier of an outstanding request.
pub data Completes (e : Envelope Reply) (o : Option ℕ) (c : Client) : Type 0 where
  completes :
      (id : Text) (tags : List Text) (req : OutstandingRequest)
      → is_answer o ≡ true
      → e.tag ≡ id ∷ tags
      → find id c.outstanding ≡ some req
      → Completes e o c

-- An answer completes the request of its first tag, which is forgotten before one of its callbacks is
-- called, if any is; what is for a subscription completes none; and all else changes nothing.
pub data IsMatched (e : Envelope Reply) (o : Option ℕ) (c : Client) (h : Handled) : Type 0 where
  completed :
      (id : Text) (tags : List Text) (req : OutstandingRequest)
      → is_answer o ≡ true
      → e.tag ≡ id ∷ tags
      → find id c.outstanding ≡ some req
      → Answers req (record c { outstanding = erase id c.outstanding }) h
      → IsMatched e o c h
  streamed : is_start o ≡ true → Keeps c h → IsMatched e o c h
  passed :
      is_start o ≡ false
      → ¬ Completes e o c
      → h.1.called ≡ c.called
      → h.1.outstanding ≡ c.outstanding
      → IsMatched e o c h

module _ (e : Envelope Reply) (c : Client) where
  not_answer : (o : Option ℕ) → is_answer o ≡ false → ¬ Completes e o c
  not_answer o n (completes id tags req a t f) = cc

  untouched : (o : Outcome Bool) → IsMatched e none c (o, c)
  untouched o = passed refl (not_answer none refl) refl refl

  not_tagged : (o : Option ℕ) → e.tag ≡ [] → ¬ Completes e o c
  not_tagged o n (completes id tags req a t f) = cc

  unknown :
      (o : Option ℕ) (id : Text) (tags : List Text)
      → e.tag ≡ id ∷ tags
      → find id c.outstanding ≡ none
      → ¬ Completes e o c
  unknown o id tags t n (completes id' tags' req a t' f) = cc

module _ (open_protocol open_raw : Text → Option (Envelope Reply))
    (parse : ℕ → ℕ → Text → Option Reply) (m : Moment) (left : ℕ) (first : Text) (more : List Text)
    (e : Envelope Reply) (c : Client) where
  for-IsMatched :
      (type : ℕ) (id : Text) (tags : List Text) (o : Option OutstandingRequest)
      → is_start (some type) ≡ false
      → is_answer (some type) ≡ true
      → e.tag ≡ id ∷ tags
      → find id c.outstanding ≡ o
      → IsMatched e
          (some type)
          c
          (handle_for open_protocol open_raw parse m left type first more e id o c)
  for-IsMatched type id tags none n a t f = passed n (unknown e c (some type) id tags t f) refl refl
  for-IsMatched type id tags (some req) n a t f = completed id tags req a t f (
      response-Answers open_protocol open_raw parse req
        (record c { outstanding = erase id c.outstanding }) m left type first more e)

  tagged-IsMatched :
      (type : ℕ) (tags : List Text)
      → is_start (some type) ≡ false
      → is_answer (some type) ≡ true
      → e.tag ≡ tags
      → IsMatched e
          (some type)
          c
          (handle_tagged open_protocol open_raw parse m left type first more e tags c)
  tagged-IsMatched type [] n a t = passed n (not_tagged e c (some type) t) refl refl
  tagged-IsMatched type (id ∷ tags) n a t =
      for-IsMatched type id tags (find id c.outstanding) n a t refl

  if-cases :
      (b : Bool) {o : Option ℕ} {h k : Handled}
      → (b ≡ true → IsMatched e o c h)
      → (b ≡ false → IsMatched e o c k)
      → IsMatched e o c (if b then h else k)
  if-cases true p q = p refl
  if-cases false p q = q refl

  type-IsMatched :
      (type : ℕ)
      → IsMatched e
          (some type)
          c
          (process_type open_protocol open_raw parse m left type first more e c)
  unfolding process_type handle_request_response
  type-IsMatched type =
      if-cases (type == 107)
        (λ s. streamed s (
          start-Keeps open_protocol open_raw parse e more c
            (cast to_subscription_start (message_at open_protocol open_raw parse 0 e))))
        (λ n.
          if-cases ((type == 70) || (type == 96) || (type == 104) || (type == 109))
            (λ a. tagged-IsMatched type e.tag n a refl)
            (λ b. passed n (not_answer e c (some type) b) refl refl))

  number-IsMatched :
      (o : Outcome ℕ)
      → IsMatched e (number o) c (
          then_do
            (λ type. process_type open_protocol open_raw parse m left type first more e c)
            c
            o)
  number-IsMatched (done type) = type-IsMatched type
  number-IsMatched (throws x) = untouched e c (throws x)
  number-IsMatched faults = untouched e c faults

  chosen-IsMatched :
      (b : Bool) (o : Option ℕ) (h : Handled)
      → IsMatched e o c h
      → IsMatched e (if b then o else none) c (if not b then (done false, c) else h)
  chosen-IsMatched true o h p = p
  chosen-IsMatched false o h p = untouched e c (done false)

  namespace-IsMatched :
      (ns type : Outcome ℕ)
      → IsMatched e (in_namespace ns type) c (
          then_do
            (λ n.
              if not (n == 1)
              then (done false, c)
              else then_do
                  (λ t. process_type open_protocol open_raw parse m left t first more e c)
                  c
                  type)
            c
            ns)
  namespace-IsMatched (done n) type =
      chosen-IsMatched (n == 1) (number type) _ (number-IsMatched type)
  namespace-IsMatched (throws x) type = untouched e c (throws x)
  namespace-IsMatched faults type = untouched e c faults

  message-IsMatched :
      (b : Bool) (o : Option ℕ) (h : Handled)
      → IsMatched e o c h
      → IsMatched e (if b then none else o) c (if b then (done false, c) else h)
  message-IsMatched true o h p = untouched e c (done false)
  message-IsMatched false o h p = p

  -- A response whose first frame parses, as `e`. If its first message is of zippylog and an answer, and its
  -- first tag names an outstanding request, exactly this request is forgotten; then at most one callback
  -- is called, which is one of the request, with its context, and besides only what this call sends
  -- changes the outstanding requests, however the handling ends. If the first message starts what is for a
  -- subscription, only the callbacks that are called change the outstanding requests. All other
  -- responses call nothing and leave the outstanding requests as they were. Callbacks return, and do
  -- not wait for answers themselves.
  pub process_response-IsMatched :
      open_protocol first ≡ some e
      → IsMatched e
          (heading e)
          c
          (process_response_message open_protocol open_raw parse m left (first ∷ more) c)
  unfolding process_response_message heading
  process_response-IsMatched o =
      rw (o, process_response_message)
        (message-IsMatched (is_empty e.message) _ _
          (namespace-IsMatched (read e.message_namespace 0) (read e.message_type 0)))
