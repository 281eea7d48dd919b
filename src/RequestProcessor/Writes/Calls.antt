-- ===== src/RequestProcessor/Writes/Calls.antt =====
-- src/zippylog/request_processor.cpp, `ProcessWriteEnvelope`: what is written is what the request
-- holds, and goes where the path allows it.
use zippylog.Prelude.{
  All, ◌≡◌, ◌≢◌, refl, sym, ap, ◌∙◌, ◌⊎◌, inl, inr, Bool, true, false, Option, none, some, List, [],
  ◌∷◌, ◌++◌, Text, is_empty, if◌then◌else◌, done, throws, faults, Bool-cases, Option-cases,
  some-injective, done-injective,
}
use zippylog.Store.Path.{StorePath, parse_path}
use zippylog.Envelope.{Envelope}
use zippylog.RequestProcessor.Messages.{Request, Response, Log, HandlerResult}
use zippylog.RequestProcessor.State.{
  Environment, Progress, Result, Process, andthen, return, answer, populate_error_response,
  envelope_of, check_path,
}
use zippylog.RequestProcessor.State.Paths.{IsServed, check_path_iff, check_path_answers}
use zippylog.RequestProcessor.Subscriptions.{value}
use zippylog.RequestProcessor.Writes.{parse_all, acknowledge_write, check_write_path}

-- What calls no implementation.
abbrev pub IsQuiet : {A : Type 0} → Process A → Type 0
IsQuiet m = (p : Progress) → (m p).1.calls ≡ p.calls

pub andthen-calls :
    {A B : Type 0} (f : A → Process B) (x : Result A)
    → ((a : A) → IsQuiet (f a))
    → (andthen f x).1.calls ≡ x.1.calls
andthen-calls f (done a, p) h = h a p
andthen-calls f (throws e, p) h = refl
andthen-calls f (faults, p) h = refl

pub emptied {ℓ} : {A : Type ℓ} (s : List A) → is_empty s ≡ true → s ≡ []
emptied [] h = refl
emptied (c ∷ s) h = cc

filled : (s : Text) → is_empty s ≡ false → s ≢ []
filled [] h = cc
filled (c ∷ s) h = λ e. cc

pub andthen-done :
    {A B : Type 0} (f : A → Process B) (x : Result A) (a : A)
    → x.0 ≡ done a
    → (andthen f x).0 ≡ (f a x.1).0
andthen-done f (done b, p) a h = ap (λ c. (f c p).0) (done-injective h)
andthen-done f (throws e, p) a h = cc
andthen-done f (faults, p) a h = cc

module _ (env : Environment) where
  -- The envelopes of a request that parse, in order.
  abbrev pub all_parsed : List Text → List (Envelope Request)
  all_parsed [] = []
  all_parsed (s ∷ ss) = elim (env.parse_envelope s) [
    | none ↦ all_parsed ss
    | some e ↦ e ∷ all_parsed ss
  ]

  pub parse-calls : (ss : List Text) → IsQuiet (parse_all env ss)
  unfolding parse_all
  parse-calls [] p = refl
  parse-calls ([] ∷ ss) p = refl
  parse-calls ((c ∷ t) ∷ ss) p = elim (Option-cases (env.parse_envelope (c ∷ t))) [
    | inl h ↦
        rw (h, parse_all)
          (parse-calls ss
            (record p { logs = p.logs ++ Log.envelope_parse_failure (some (c ∷ t)) ∷ [] }))
    | inr h ↦
        rw (h.1, parse_all)
          (andthen-calls (λ es. return (h.0 ∷ es)) (parse_all env ss p) (λ es q. refl)
            ∙ parse-calls ss p)
  ]

  cons_result :
      (e : Envelope Request) (x : Result (List (Envelope Request))) (es : List (Envelope Request))
      → (andthen (λ r. return (e ∷ r)) x).0 ≡ done es
      → (es' : List (Envelope Request)) × (x.0 ≡ done es') × (es ≡ e ∷ es')
  cons_result e (done r, p) es h = (r, refl, sym (done-injective h))
  cons_result e (throws m, p) es h = cc
  cons_result e (faults, p) es h = cc

  pub parse-parsed :
      (ss : List Text) (p : Progress) (es : List (Envelope Request))
      → (parse_all env ss p).0 ≡ done es
      → es ≡ all_parsed ss
  unfolding parse_all
  parse-parsed [] p es h = sym (done-injective h)
  parse-parsed ([] ∷ ss) p es h = cc
  parse-parsed ((c ∷ t) ∷ ss) p es h = elim (Option-cases (env.parse_envelope (c ∷ t))) [
    | inl k ↦
        rw (k, all_parsed)
          (parse-parsed ss
            (record p { logs = p.logs ++ Log.envelope_parse_failure (some (c ∷ t)) ∷ [] }) es
            (rw (k, parse_all) at h))
    | inr k ↦
        (let (es', q, r) = cons_result k.0 (parse_all env ss p) es (rw (k.1, parse_all) at h) in
          rw (k.1, all_parsed) (r ∙ ap (◌∷◌ k.0) (parse-parsed ss p es' q)))
  ]

  pub value-calls : {A : Type 0} (o : Option A) → IsQuiet (value o)
  value-calls none p = refl
  value-calls (some a) p = refl

  acknowledge-calls : (r : HandlerResult) → IsQuiet (acknowledge_write env r)
  unfolding acknowledge_write envelope_of
  acknowledge-calls r p = elim (Bool-cases r.have_error) [
    | inl h ↦ rw h refl
    | inr h ↦ elim (Bool-cases r.is_write) [
      | inr w ↦ rw (h, w) refl
      | inl w ↦
          rw (h, w)
            (andthen-calls (λ n. answer env (Response.write_ack n)) (value r.envelopes_written p)
                (λ n q. refl)
              ∙ value-calls r.envelopes_written p)
    ]
  ]

  pub tail-calls :
      (b : Bool) (r : HandlerResult) → IsQuiet (if b then acknowledge_write env r else return tt)
  tail-calls true r p = acknowledge-calls r p
  tail-calls false r p = refl

  -- A path that a request may write to: a stream, or a stream set that is there.
  unfoldable pub IsWritable : Text → Type 0
  IsWritable path =
      (r : StorePath) × (parse_path path ≡ some r)
      × ((r.stream ≢ []) ⊎ IsServed env path true true false)

  path-calls : (path : Text) (b s t : Bool) → IsQuiet (check_path env path b s t)
  path-calls path b s t p = elim (check_path_answers env path b s t p) [
    | inl h ↦ ap (λ x. x.1.calls) h
    | inr h ↦ h.4
  ]

  pub check-calls : (path : Text) → IsQuiet (check_write_path env path)
  unfolding check_write_path populate_error_response envelope_of
  check-calls path p = elim (Option-cases (parse_path path)) [
    | inl h ↦ rw (h, check_write_path) refl
    | inr h ↦ elim (Bool-cases (is_empty h.0.stream)) [
      | inr s ↦ rw (h.1, check_write_path, s) refl
      | inl s ↦ elim (Bool-cases (is_empty h.0.set)) [
        | inl t ↦ rw (h.1, check_write_path, s, t) refl
        | inr t ↦ rw (h.1, check_write_path, s, t) (path-calls path true true false p)
      ]
    ]
  ]

  clash : done false ≡ done true → ⊥
  clash h = cc

  pub check-IsWritable :
      (path : Text) (p : Progress) → (check_write_path env path p).0 ≡ done true → IsWritable path
  unfolding check_write_path populate_error_response envelope_of IsWritable
  check-IsWritable path p h = elim (Option-cases (parse_path path)) [
    | inl k ↦ elim (clash (rw (k, check_write_path) at h)) [ ]
    | inr k ↦ elim (Bool-cases (is_empty k.0.stream)) [
      | inr s ↦ (k.0, k.1, inl (filled k.0.stream s))
      | inl s ↦ elim (Bool-cases (is_empty k.0.set)) [
        | inl t ↦ elim (clash (rw (k.1, check_write_path, s, t) at h)) [ ]
        | inr t ↦ (
          k.0,
          k.1,
          inr (
              (check_path_iff env path true true false p).0
                (rw (k.1, check_write_path, s, t) at h)),
        )
      ]
    ]
  ]

  -- Where no envelope of a request is empty, parsing goes through all of them.
  pub parse-done :
      (ss : List Text) (p : Progress)
      → All (λ s. s ≢ []) ss
      → (parse_all env ss p).0 ≡ done (all_parsed ss)
  unfolding parse_all
  parse-done [] p h = refl
  parse-done ([] ∷ ss) p h = elim (h.0 refl) [ ]
  parse-done ((c ∷ t) ∷ ss) p h = elim (Option-cases (env.parse_envelope (c ∷ t))) [
    | inl k ↦
        rw (k, parse_all, all_parsed)
          (parse-done ss
            (record p { logs = p.logs ++ Log.envelope_parse_failure (some (c ∷ t)) ∷ [] }) h.1)
    | inr k ↦
        rw (k.1, parse_all, all_parsed)
          (andthen-done (λ es. return (k.0 ∷ es)) (parse_all env ss p) (all_parsed ss)
            (parse-done ss p h.1))
  ]

  unset :
      (path : Text) (r : StorePath)
      → parse_path path ≡ some r
      → IsServed env path true true false
      → r.set ≢ []
  unset path r h k e =
      (k.set_exists refl).0 (ap (λ x. x.set) (some-injective _ _ (sym k.parses ∙ h)) ∙ e)

  pub check-passes :
      (path : Text) (p : Progress) → IsWritable path → (check_write_path env path p).0 ≡ done true
  unfolding check_write_path populate_error_response envelope_of IsWritable
  check-passes path p (r, h, w) = elim (Bool-cases (is_empty r.stream)) [
    | inr s ↦ rw (h, check_write_path, s) refl
    | inl s ↦ elim w [
      | inl k ↦ elim (k (emptied r.stream s)) [ ]
      | inr k ↦ elim (Bool-cases (is_empty r.set)) [
        | inl t ↦ elim (unset path r h k (emptied r.set t)) [ ]
        | inr t ↦ rw (h, check_write_path, s, t) ((check_path_iff env path true true false p).1 k)
      ]
    ]
  ]
