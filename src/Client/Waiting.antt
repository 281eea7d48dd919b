-- ===== src/Client/Waiting.antt =====
-- src/zippylog/client.cpp: `Pump` and `SendAndProcessSynchronousRequest`, which wait for responses.
use zippylog.Prelude.{
  ℕ, zero, suc, Bool, true, false, not, Option, none, some, List, Text, if◌then◌else◌, Outcome,
  done, throws, faults,
}
use zippylog.Platform.{Moment, Timer, Timed, new_timer, start, is_signaled}
use zippylog.Envelope.{Envelope}
use zippylog.RequestProcessor.Messages.{Request}
use zippylog.ZeroMq.{last_part, Socket, MessageContainer, receive_message}
use zippylog.Client.Messages.{Reply, Callback, SubscriptionCallbacks, OutstandingRequest, Client}
use zippylog.Client.Dispatch.{process_response_message}
use zippylog.Client.Requests.{
  Sending, have_outstanding_request, is_positive, microseconds_of, send_request, all_valid,
  new_request,
}

module _ {S : Type 0} (socket : Socket S) (serialize : Request → Text → Option Text) where
  module _ (open_protocol open_raw : Text → Option (Envelope Reply))
      (parse : ℕ → ℕ → Text → Option Reply) where
    abbrev pub pending : Moment → ℕ → Client → Option Bool × MessageContainer × S → Sending S
    pending m left c (none, container, s) = (faults, s, c)
    pending m left c (some false, container, s) = (done false, s, c)
    pending m left c (some true, container, s) =
        let r = process_response_message open_protocol open_raw parse m left container.messages c in
        (r.0, s, r.1)

    -- A message of at most so many frames.
    unfoldable pub process_pending_message : ℕ → Moment → ℕ → S → Client → Sending S
    unfolding receive_message process_response_message
    process_pending_message frames m left s c =
        pending m left c (receive_message socket frames (last_part true) s)

    -- `Pump`, for what `poll` tells; the three results of the source are true, false and none.
    unfoldable pub pump : Bool → ℕ → Moment → ℕ → S → Client → Outcome (Option Bool) × S × Client
    unfolding process_pending_message
    pump false frames m left s c = (done none, s, c)
    pump true frames m left s c =
        let r = process_pending_message frames m left s c in
        elim r.0 [
          | done ok ↦ (done (some ok), r.1, r.2)
          | throws e ↦ (throws e, r.1, r.2)
          | faults ↦ (faults, r.1, r.2)
        ]

    abbrev pub after_pump :
        (S → Client → Sending S)
        → Text
        → Bool
        → Timed Bool
        → Outcome (Option Bool) × S × Client
        → Sending S
    after_pump more id have_timer t (throws e, s, c) = (throws e, s, c)
    after_pump more id have_timer t (faults, s, c) = (faults, s, c)
    after_pump more id have_timer t (done r, s, c) =
        if not (have_outstanding_request id c)
        then (done true, s, c)
        else if not have_timer
        then more s c
        else elim t.0 [
          | done b ↦ if b then (done false, s, c) else more s c
          | throws e ↦ (throws e, s, c)
          | faults ↦ (faults, s, c)
        ]

    -- The loop, in at most so many rounds; `at` is what the system answers in a round, and `polls` what
    -- `poll` does.
    unfoldable pub wait_for :
        ℕ → ℕ → (ℕ → Moment) → (ℕ → Bool) → ℕ → Bool → Timer → Text → S → Client → Sending S
    unfolding pump have_outstanding_request
    wait_for frames zero at polls left have_timer t id s c = (faults, s, c)
    wait_for frames (suc rounds) at polls left have_timer t id s c =
        let signal = is_signaled (at rounds) t in
        after_pump (wait_for frames rounds at polls left have_timer signal.1 id) id have_timer
          signal (pump (polls rounds) frames (at rounds) left s c)

    abbrev pub wait_started : (Timer → S → Client → Sending S) → Timed Bool → Sending S → Sending S
    wait_started wait t (throws e, s, c) = (throws e, s, c)
    wait_started wait t (faults, s, c) = (faults, s, c)
    wait_started wait t (done false, s, c) = (done false, s, c)
    wait_started wait (done b, t) (done true, s, c) = wait t s c
    wait_started wait (throws e, t) (done true, s, c) = (throws e, s, c)
    wait_started wait (faults, t) (done true, s, c) = (faults, s, c)

    -- The timeout in milliseconds, none where it is not positive: the request is sent, and the client
    -- waits for as long as it is outstanding. `m` is the moment at which the timer starts.
    unfoldable pub send_and_process :
        ℕ
        → ℕ
        → Moment
        → (ℕ → Moment)
        → (ℕ → Bool)
        → ℕ
        → Option ℕ
        → Text
        → Request
        → OutstandingRequest
        → S
        → Client
        → Sending S
    unfolding send_request wait_for
    send_and_process frames rounds m at polls left timeout id r req s c =
        wait_started (λ t. wait_for frames rounds at polls left (is_positive timeout) t id)
          (start m 0 (new_timer (microseconds_of timeout)))
          (send_request socket serialize id r req s c)

    -- For a list of paths; the other two forms give one path and none. The callback that keeps
    -- the answer is `CallbackSubscription`, and the context the place of the result.
    unfoldable pub subscribe_store_changes :
        ℕ
        → ℕ
        → Moment
        → (ℕ → Moment)
        → (ℕ → Bool)
        → ℕ
        → Option ℕ
        → Text
        → Callback
        → List Text
        → SubscriptionCallbacks
        → ℕ
        → S
        → Client
        → Sending S
    unfolding all_valid send_and_process
    subscribe_store_changes frames rounds m at polls left timeout id keep paths cb result s c =
        if not (all_valid paths)
        then (throws "path is not valid", s, c)
        else send_and_process frames rounds m at polls left timeout id
            (Request.subscribe_store_changes paths)
            (record (new_request result) { callbacks = cb; cb_subscription = some keep }) s c
