-- ===== src/Client/Answering.antt =====
-- src/zippylog/client.cpp, `HandleRequestResponse`: the callback that a response is told to.
use zippylog.Prelude.{
  ℕ, ◌-◌, ◌*◌, ◌%◌, ◌^◌, ltb, ◌==◌, ◌≡◌, refl, ap, ◌∙◌, Bool, true, false, Option, none, some, List,
  [], ◌∷◌, ◌++◌, Text, if◌then◌else◌, Outcome, done, throws, faults,
}
use zippylog.Envelope.{Envelope}
use zippylog.Platform.{Moment, Timed, new_timer, start}
use zippylog.Client.Messages.{
  Reply, Callback, StreamSegment, OutstandingRequest, Told, CallbackCall, Client, cast,
  to_store_info, to_bucket_info, to_stream_set_info, to_stream_info, to_segment_start,
  to_segment_end, to_accept_ack,
}
use zippylog.Client.{
  Handled, must_call, with_message, respond, subscribed, handle_accepted, message_at, open_all,
  payload, last_of, segment_of, fetched, handle_footer, handle_segment, handle_response,
}

-- A callback of the request.
pub data IsCallback (req : OutstandingRequest) : Option Callback → Type 0 where
  for_ping : IsCallback req req.cb_ping
  for_store_info : IsCallback req req.cb_store_info
  for_bucket_info : IsCallback req req.cb_bucket_info
  for_stream_set_info : IsCallback req req.cb_stream_set_info
  for_stream_info : IsCallback req req.cb_stream_info
  for_stream_segment : IsCallback req req.cb_stream_segment
  for_subscription : IsCallback req req.cb_subscription

-- A call with the context of the request.
abbrev pub call_of : OutstandingRequest → Callback → Told → CallbackCall
call_of req cb t = record { callback = cb; told = t; context = req.context }

-- One callback of the request is called, with the context of the request, or none; and the outstanding
-- requests are what that call makes of them, or as they were.
pub data Answers (req : OutstandingRequest) (c : Client) (h : Handled) : Type 0 where
  unanswered : h.1.called ≡ c.called → h.1.outstanding ≡ c.outstanding → Answers req c h
  answered :
      (cb : Callback) (t : Told)
      → IsCallback req (some cb)
      → h.1.called ≡ c.called ++ call_of req cb t ∷ []
      → h.1.outstanding ≡ c.acts (call_of req cb t) c.outstanding
      → Answers req c h

module _ (req : OutstandingRequest) where
  nothing : (o : Outcome Bool) (c : Client) → Answers req c (o, c)
  nothing o c = unanswered refl refl

  if-Answers :
      {c : Client} (b : Bool) {h k : Handled}
      → Answers req c h
      → Answers req c k
      → Answers req c (if b then h else k)
  if-Answers true p q = p
  if-Answers false p q = q

  message-Answers :
      {A : Type 0} {c : Client} (o : Option A) {f : A → Handled}
      → ((a : A) → o ≡ some a → Answers req c (f a))
      → Answers req c (with_message o f c)
  message-Answers {c = c} none h = nothing faults c
  message-Answers (some a) h = h a refl

  must_call-Answers :
      (cb : Option Callback) (t : Told) (c : Client)
      → IsCallback req cb
      → Answers req c (must_call cb t req.context c)
  must_call-Answers none t c i = nothing faults c
  must_call-Answers (some cb) t c i = answered cb t i refl refl

  with_subscriptions :
      (c d : Client) (h : Handled)
      → d.called ≡ c.called
      → d.outstanding ≡ c.outstanding
      → d.acts ≡ c.acts
      → Answers req d h
      → Answers req c h
  with_subscriptions c d h p q r (unanswered u v) = unanswered (u ∙ p) (v ∙ q)
  with_subscriptions c d h p q r (answered cb t i u v) =
      (let k = call_of req cb t in
        answered cb t i (u ∙ ap (λ l. l ++ k ∷ []) p)
          (v ∙ ap (d.acts k) q ∙ ap (λ f. f k c.outstanding) r))

  subscribed-Answers :
      (id : Text) (ttl : ℕ) (c : Client) (t : Timed Bool)
      → Answers req c (subscribed id ttl req c t)
  subscribed-Answers id ttl c (done b, t) =
      with_subscriptions c _ _ refl refl refl
        (must_call-Answers req.cb_subscription _ _ for_subscription)
  subscribed-Answers id ttl c (throws e, t) = nothing _ c
  subscribed-Answers id ttl c (faults, t) = nothing _ c

  accepted-Answers :
      (m : Moment) (left : ℕ) (id : Text) (ttl : ℕ) (c : Client)
      → Answers req c (handle_accepted m left id ttl req c)
  unfolding handle_accepted
  accepted-Answers m left id ttl c =
      if-Answers (ltb (ttl * 1000 % 2 ^ 32) c.subscription_renewal_offset) (nothing _ c) (
        subscribed-Answers id ttl c
          (start m (ttl * 1000 % 2 ^ 32 - c.subscription_renewal_offset) (new_timer left)))

module _ (open_protocol open_raw : Text → Option (Envelope Reply))
    (parse : ℕ → ℕ → Text → Option Reply) (req : OutstandingRequest) (c : Client) where
  fetched-Answers :
      (s : StreamSegment) (o : Option (List (Envelope Reply)))
      → Answers req c (fetched open_protocol open_raw parse req c s o)
  fetched-Answers s none = nothing req _ c
  fetched-Answers s (some es) = must_call-Answers req req.cb_stream_segment _ c for_stream_segment

  footer-Answers :
      (messages : List Text) (path : Text) (offset : ℕ) (o : Option (Envelope Reply))
      → Answers req c (handle_footer open_protocol open_raw parse messages path offset req c o)
  footer-Answers messages path offset none = nothing req _ c
  footer-Answers messages path offset (some footer) =
      message-Answers req (cast to_segment_end (message_at open_protocol open_raw parse 0 footer))
        (λ last _. message-Answers req (payload open_protocol open_raw parse messages) (λ msgs _.
          fetched-Answers (segment_of path offset last)
            (open_all open_protocol open_raw parse msgs)))

  segment-Answers :
      (first : Text) (more : List Text) (e : Envelope Reply)
      → Answers req c (handle_segment open_protocol open_raw parse first more e req c)
  unfolding handle_segment
  segment-Answers first more e = message-Answers req req.cb_stream_segment (λ _ _.
      message-Answers req (cast to_segment_start (message_at open_protocol open_raw parse 0 e))
        (λ start_message _.
          footer-Answers (first ∷ more) start_message.0 _
            (open_protocol (last_of open_protocol open_raw parse first more))))

  respond-Answers :
      {A : Type 0} (cb : Option Callback) (to : Reply → Option A) (told : A → Told)
      (e : Envelope Reply)
      → IsCallback req cb
      → Answers req c (respond open_protocol open_raw parse cb to told e req c)
  respond-Answers none to told e i = nothing req faults c
  respond-Answers (some cb) to told e i =
      message-Answers req (cast to (message_at open_protocol open_raw parse 0 e))
        (λ a _. answered cb (told a) i refl refl)

  pub response-Answers :
      (m : Moment) (left type : ℕ) (first : Text) (more : List Text) (e : Envelope Reply)
      → Answers req c (handle_response open_protocol open_raw parse m left type first more e req c)
  unfolding handle_response
  response-Answers m left type first more e =
      if-Answers req (type == 70) (must_call-Answers req req.cb_ping _ c for_ping) (
        if-Answers req (type == 96)
          (respond-Answers req.cb_store_info to_store_info _ e for_store_info)
          (if-Answers req (type == 95)
            (respond-Answers req.cb_bucket_info to_bucket_info _ e for_bucket_info)
            (if-Answers req (type == 94)
              (respond-Answers req.cb_stream_set_info to_stream_set_info _ e for_stream_set_info)
              (if-Answers req (type == 93)
                (respond-Answers req.cb_stream_info to_stream_info _ e for_stream_info)
                (if-Answers req (type == 104) (segment-Answers first more e) (
                  if-Answers req (type == 109)
                    (message-Answers req
                      (cast to_accept_ack (message_at open_protocol open_raw parse 0 e))
                      (λ ack _. accepted-Answers req m left ack.0 ack.1 c))
                    (nothing req (done false) c)))))))
