-- ===== src/RequestProcessor/Writes/Handled.antt =====
-- src/zippylog/request_processor.cpp, `ProcessWriteEnvelope`: the one call of the write handler.
use zippylog.Prelude.{
  All, done-injective, ◌≡◌, ◌≢◌, refl, sym, ap, subst, ◌∙◌, ◌⊎◌, inl, inr, Bool, true, false, not,
  ◌&&◌, ◌||◌, none, some, List, [], ◌∷◌, ◌++◌, Text, is_empty, if◌then◌else◌, done, throws, faults,
  Bool-cases, Option-cases,
}
use zippylog.Envelope.{Envelope, get_message}
use zippylog.RequestProcessor.Messages.{ErrorCode, Request, Log, WriteRequest, synchronous_result}
use zippylog.RequestProcessor.State.{
  Environment, Progress, Result, Process, Call, andthen, ◌>>=◌, return, log, refuse, obtain_message,
  populate_error_response, envelope_of,
}
use zippylog.RequestProcessor.Writes.{
  parse_all, write_all, ask_write, acknowledge_write, check_write_path, write_parsed, write_request,
  process_write_envelope, write_obtained, status_of_output,
}
use zippylog.RequestProcessor.Writes.Calls.{
  emptied, parse-done, check-passes, IsWritable, all_parsed, andthen-calls, parse-calls,
  parse-parsed, tail-calls, check-calls, check-IsWritable,
}

module _ (env : Environment) where
  -- What a write request has called: nothing, or the write handler once, for its path, which allows
  -- it, with all of its envelopes that parse, of which there is at least one.
  pub IsWritten : WriteRequest → List Call → List Call → Type 0
  IsWritten m calls calls' =
      (calls' ≡ calls)
      ⊎ ((path : Text) × (es : List (Envelope Request)) × (m.path ≡ some path)
          × IsWritable env path
          × (es ≢ [])
          × (es ≡ all_parsed env m.envelope)
          × (calls' ≡ calls ++ Call.handle_write_envelopes path es m.synchronous ∷ []))

  -- The part of `write_parsed` behind the parsing.
  abbrev finish : WriteRequest → Text → List (Envelope Request) → Process Unit
  finish m path es = write_all env path es m.synchronous >>= λ result.
      if (m.acknowledge || m.synchronous) && not result.deferred
      then acknowledge_write env result
      else return tt

  finish-IsWritten :
      (m : WriteRequest) (path : Text) (calls : List Call) (x : Result (List (Envelope Request)))
      → m.path ≡ some path
      → IsWritable env path
      → x.1.calls ≡ calls
      → ((es : List (Envelope Request)) → x.0 ≡ done es → es ≡ all_parsed env m.envelope)
      → IsWritten m calls (andthen (finish m path) x).1.calls
  unfolding IsWritten write_all ask_write
  finish-IsWritten m path calls (throws e, p) mp w c h = inl c
  finish-IsWritten m path calls (faults, p) mp w c h = inl c
  finish-IsWritten m path calls (done [], p) mp w c h = inl (
      andthen-calls
        (λ result.
          if (m.acknowledge || m.synchronous) && not result.deferred
          then acknowledge_write env result
          else return tt)
        (done synchronous_result, p)
        (λ r. tail-calls env ((m.acknowledge || m.synchronous) && not r.deferred) r)
      ∙ c)
  finish-IsWritten m path calls (done (e ∷ es), p) mp w c h = inr (
    path,
    e ∷ es,
    mp,
    w,
    (λ k. cc),
    h (e ∷ es) refl,
    andthen-calls
          (λ result.
            if (m.acknowledge || m.synchronous) && not result.deferred
            then acknowledge_write env result
            else return tt)
          (ask_write env path (e ∷ es) m.synchronous p)
          (λ r. tail-calls env ((m.acknowledge || m.synchronous) && not r.deferred) r)
        ∙ ap (λ v. v ++ Call.handle_write_envelopes path (e ∷ es) m.synchronous ∷ []) c,
  )

  -- The part of `write_request` behind the check of the path.
  abbrev checked : WriteRequest → Text → Bool → Process Unit
  checked m path valid =
      if not valid
      then return tt
      else if is_empty m.envelope
      then refuse env ErrorCode.empty_field "no envelopes specified in request" tt
      else write_parsed env m path

  checked-IsWritten :
      (m : WriteRequest) (path : Text) (calls : List Call) (x : Result Bool)
      → m.path ≡ some path
      → x.1.calls ≡ calls
      → (x.0 ≡ done true → IsWritable env path)
      → IsWritten m calls (andthen (checked m path) x).1.calls
  unfolding IsWritten write_parsed populate_error_response envelope_of
  checked-IsWritten m path calls (throws e, p) mp c w = inl c
  checked-IsWritten m path calls (faults, p) mp c w = inl c
  checked-IsWritten m path calls (done false, p) mp c w = inl c
  checked-IsWritten m path calls (done true, p) mp c w = elim (Bool-cases (is_empty m.envelope)) [
    | inl e ↦ rw e (inl c)
    | inr e ↦ rw e (
        finish-IsWritten m path calls (parse_all env m.envelope p) mp (w refl)
          (parse-calls env m.envelope p ∙ c) (parse-parsed env m.envelope p))
  ]

  silent : (m : WriteRequest) (p q : Progress) → q.calls ≡ p.calls → IsWritten m p.calls q.calls
  unfolding IsWritten
  silent m p q h = inl h

  refused-calls :
      (m : WriteRequest) (p : Progress) → m.path ≡ none → (write_request env m p).1.calls ≡ p.calls
  unfolding write_request populate_error_response envelope_of
  refused-calls m p h = rw (h, write_request) refl

  checked-eq :
      (m : WriteRequest) (p : Progress) (path : Text)
      → m.path ≡ some path
      → write_request env m p ≡ andthen (checked m path) (check_write_path env path p)
  unfolding write_request
  checked-eq m p path h = rw (h, write_request) refl

  write_request-IsWritten :
      (m : WriteRequest) (p : Progress) → IsWritten m p.calls (write_request env m p).1.calls
  write_request-IsWritten m p = elim (Option-cases m.path) [
    | inl h ↦ silent m p (write_request env m p).1 (refused-calls m p h)
    | inr h ↦
        subst (λ x. IsWritten m p.calls x.1.calls) (sym (checked-eq m p h.0 h.1))
          (checked-IsWritten m h.0 p.calls (check_write_path env h.0 p) h.1 (check-calls env h.0 p)
            (check-IsWritable env h.0 p))
  ]

  pub obtained_eq :
      (request : Envelope Request) (r : Request) (p : Progress)
      → (get_message env.parse_message 0 request).0 ≡ some r
      → obtain_message env request p ≡ (done (some r), p)
  unfolding obtain_message
  obtained_eq request r p h = rw (h, obtain_message) refl

  -- The two log messages and the result call nothing.
  logged-calls :
      (request : Envelope Request) (m : WriteRequest) (p : Progress)
      → (get_message env.parse_message 0 request).0 ≡ some (Request.write_envelope m)
      → (process_write_envelope env request p).1.calls
        ≡ (write_request env m
            (record p { logs = p.logs ++ Log.begin_process "WriteEnvelope" ∷ [] })).1.calls
  unfolding process_write_envelope
  logged-calls request m p h =
      let q : Progress = record p { logs = p.logs ++ Log.begin_process "WriteEnvelope" ∷ [] } in
      andthen-calls (λ x. log (Log.end_process "WriteEnvelope") >>= λ y. status_of_output env)
        (andthen (write_obtained env) (obtain_message env request q)) (λ a r. refl)
      ∙ ap (λ x. (andthen (write_obtained env) x).1.calls)
          (obtained_eq request (Request.write_envelope m) q h)

  finish-writes :
      (m : WriteRequest) (path : Text) (x : Result (List (Envelope Request)))
      → x.0 ≡ done (all_parsed env m.envelope)
      → all_parsed env m.envelope ≢ []
      → (andthen (finish m path) x).1.calls
        ≡ x.1.calls
          ++ Call.handle_write_envelopes path (all_parsed env m.envelope) m.synchronous ∷ []
  unfolding write_all ask_write
  finish-writes m path (throws e, p) h n = cc
  finish-writes m path (faults, p) h n = cc
  finish-writes m path (done [], p) h n = elim (n (sym (done-injective h))) [ ]
  finish-writes m path (done (e ∷ es), p) h n =
      andthen-calls
        (λ result.
          if (m.acknowledge || m.synchronous) && not result.deferred
          then acknowledge_write env result
          else return tt)
        (ask_write env path (e ∷ es) m.synchronous p)
        (λ r. tail-calls env ((m.acknowledge || m.synchronous) && not r.deferred) r)
      ∙ ap (λ v. p.calls ++ Call.handle_write_envelopes path v m.synchronous ∷ [])
          (done-injective h)

  -- What a request has to be to be written.
  pub record IsAccepted (m : WriteRequest) (path : Text) : Type 0 where
    pub has_path : m.path ≡ some path
    pub writable : IsWritable env path
    pub filled : All (λ s. s ≢ []) m.envelope
    pub parsed : all_parsed env m.envelope ≢ []

  checked-writes :
      (m : WriteRequest) (path : Text) (x : Result Bool)
      → IsAccepted m path
      → x.0 ≡ done true
      → (andthen (checked m path) x).1.calls
        ≡ x.1.calls
          ++ Call.handle_write_envelopes path (all_parsed env m.envelope) m.synchronous ∷ []
  unfolding write_parsed
  checked-writes m path (throws e, p) a h = cc
  checked-writes m path (faults, p) a h = cc
  checked-writes m path (done false, p) a h = cc
  checked-writes m path (done true, p) a h = elim (Bool-cases (is_empty m.envelope)) [
    | inl e ↦ elim (a.parsed (ap (all_parsed env) (emptied m.envelope e))) [ ]
    | inr e ↦ rw e (
        finish-writes m path (parse_all env m.envelope p) (parse-done env m.envelope p a.filled)
          a.parsed
        ∙ ap
            (λ c.
              c ++ Call.handle_write_envelopes path (all_parsed env m.envelope) m.synchronous ∷ [])
            (parse-calls env m.envelope p))
  ]

  -- A write request is handed to the write handler, with all of its envelopes that parse, where it has
  -- a path that allows it, no envelope in it is empty, and at least one of them parses.
  pub process_write_envelope-writes :
      (request : Envelope Request) (m : WriteRequest) (path : Text) (p : Progress)
      → (get_message env.parse_message 0 request).0 ≡ some (Request.write_envelope m)
      → IsAccepted m path
      → (process_write_envelope env request p).1.calls
        ≡ p.calls ++ Call.handle_write_envelopes path (all_parsed env m.envelope) m.synchronous ∷ []
  process_write_envelope-writes request m path p g a =
      let q : Progress = record p { logs = p.logs ++ Log.begin_process "WriteEnvelope" ∷ [] } in
      logged-calls request m p g
      ∙ ap (λ x. x.1.calls) (checked-eq m q path a.has_path)
      ∙ checked-writes m path (check_write_path env path q) a (check-passes env path q a.writable)
      ∙ ap
          (λ c.
            c ++ Call.handle_write_envelopes path (all_parsed env m.envelope) m.synchronous ∷ [])
          (check-calls env path q)

  -- A request whose message is a write calls the write handler at most once, and nothing else: with
  -- its path, which is that of a stream, or that of a stream set in the store, and with all of the
  -- envelopes in it that parse, in their order, of which there is at least one.
  pub process_write_envelope-IsWritten :
      (request : Envelope Request) (m : WriteRequest) (p : Progress)
      → (get_message env.parse_message 0 request).0 ≡ some (Request.write_envelope m)
      → IsWritten m p.calls (process_write_envelope env request p).1.calls
  process_write_envelope-IsWritten request m p h =
      subst (IsWritten m p.calls) (sym (logged-calls request m p h)) (
        write_request-IsWritten m
          (record p { logs = p.logs ++ Log.begin_process "WriteEnvelope" ∷ [] }))
