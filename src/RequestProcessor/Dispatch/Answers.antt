-- ===== src/RequestProcessor/Dispatch/Answers.antt =====
-- src/zippylog/request_processor.cpp, `ProcessMessages` and `ProcessRequest`: every request is
-- answered or deferred, and the first answer carries the tags of the request.
use zippylog.Prelude.{
  ℕ, ◌≡◌, refl, sym, ap, ◌∙◌, ◌⊎◌, inl, inr, true, false, Option, none, some, List, [], ◌∷◌, ◌++◌,
  Text, is_empty, ◌==◌, arith, done, throws, faults, Bool-cases,
}
use mathlib.Core.List.{append-nil, append_assoc}
use zippylog.Envelope.{Envelope, add_tag}
use zippylog.RequestProcessor.Messages.{Request}
use zippylog.RequestProcessor.State.{
  Environment, Progress, Result, andthen, populate_error_response, envelope_of,
}
use zippylog.RequestProcessor.Info.{ResponseStatus, authoritative, deferred}
use zippylog.RequestProcessor.Segment.{add_tags}
use zippylog.RequestProcessor.Dispatch.{
  dispatch, send_response, process_request, catch_all, request_envelope, process_initial,
  process_messages, tag_first,
}

is_empty-append {ℓ} : {A : Type ℓ} (xs : List A) (x : A) → is_empty (xs ++ x ∷ []) ≡ false
is_empty-append [] x = refl
is_empty-append (_ ∷ _) x = refl

is_empty-tag_first :
    (tags : List Text) (es : List (Envelope Request)) → is_empty (tag_first tags es) ≡ is_empty es
unfolding tag_first
is_empty-tag_first tags [] = refl
is_empty-tag_first tags (e ∷ es) = refl

add_tags-tag : (tags : List Text) (e : Envelope Request) → (add_tags tags e).tag ≡ e.tag ++ tags
unfolding add_tags add_tag
add_tags-tag [] e = sym (append-nil e.tag)
add_tags-tag (t ∷ tags) e = add_tags-tag tags (add_tag t e) ∙ append_assoc e.tag (t ∷ []) tags

add_tags-message : (tags : List Text) (e : Envelope Request) → (add_tags tags e).message ≡ e.message
unfolding add_tags add_tag
add_tags-message [] e = refl
add_tags-message (t ∷ tags) e = add_tags-message tags (add_tag t e)

module _ (env : Environment) where
  catch_all-answers :
      (tags : List Text) (x : Result ResponseStatus)
      → (catch_all env tags x).0 ≡ done tt
      → (is_empty (catch_all env tags x).1.output ≡ false) ⊎ (x.0 ≡ done deferred)
  unfolding catch_all populate_error_response envelope_of
  catch_all-answers tags (done deferred, p) h = inr refl
  catch_all-answers tags (done authoritative, p) h = inl (ground arith)
  catch_all-answers tags (throws e, p) h =
      inl (is_empty-tag_first tags _ ∙ is_empty-append p.output _)
  catch_all-answers tags (faults, p) h = cc

  -- What `ProcessMessages` does with the first message: it is refused with an answer, or the request
  -- in it is processed.
  IsRefusedOr : List Text → Text → Progress → Result Unit → Type 0
  IsRefusedOr identities initial p x =
      ((x.0 ≡ done tt) × (is_empty x.1.output ≡ false))
      ⊎ ((request : Envelope Request) × (request_envelope env initial ≡ some request)
          × (x ≡ catch_all env request.tag (process_request env identities request p)))

  parsed-cases :
      (identities : List Text) (version : ℕ) (rest : Text) (p : Progress)
      → (version == 1) ≡ true
      → is_empty rest ≡ false
      → (o : Option (Envelope Request)) → request_envelope env (version ∷ rest) ≡ o
      → IsRefusedOr identities
          (version ∷ rest)
          p
          (process_initial env identities (version ∷ rest) p)
  unfolding process_initial IsRefusedOr populate_error_response envelope_of request_envelope
  parsed-cases identities version rest p v r none e =
      rw (v, r, e) (inl (refl, is_empty-append p.output _))
  parsed-cases identities version rest p v r (some request) e =
      rw (v, r, e) (inr (request, refl, refl))

  process_initial-cases :
      (identities : List Text) (initial : Text) (p : Progress)
      → IsRefusedOr identities initial p (process_initial env identities initial p)
  unfolding process_initial IsRefusedOr populate_error_response envelope_of request_envelope
  process_initial-cases identities [] p = inl (refl, is_empty-append p.output _)
  process_initial-cases identities (version ∷ rest) p = elim (Bool-cases (version == 1)) [
    | inr v ↦ rw v (inl (refl, is_empty-append p.output _))
    | inl v ↦ elim (Bool-cases (is_empty rest)) [
      | inl r ↦ rw (v, r) (inl (refl, is_empty-append p.output _))
      | inr r ↦
          parsed-cases identities version rest p v r (request_envelope env (version ∷ rest)) refl
    ]
  ]

  -- A container with a message that is processed to its end has an answer in the output, unless its
  -- first message holds a request that was processed to the result `DEFERRED`.
  pub process_messages_answered :
      (identities : List Text) (initial : Text) (more : List Text) (p : Progress)
      → (process_messages env identities (initial ∷ more) p).0 ≡ done tt
      → (is_empty (process_messages env identities (initial ∷ more) p).1.output ≡ false)
        ⊎ ((request : Envelope Request) × (request_envelope env initial ≡ some request)
            × ((process_request env identities request (record p { output = [] })).0
                ≡ done deferred))
  unfolding process_messages IsRefusedOr
  process_messages_answered identities initial more p h =
      elim (process_initial-cases identities initial (record p { output = [] })) [
        | inl k ↦ inl k.1
        | inr k ↦ elim (catch_all-answers k.0.tag _ (sym (ap (λ x. x.0) k.2) ∙ h)) [
          | inl a ↦ inl (ap (λ x. is_empty x.1.output) k.2 ∙ a)
          | inr d ↦ inr (k.0, k.1, d)
        ]
      ]

  -- What `SEND_RESPONSE` leaves where its result is authoritative.
  IsTagged : List Text → List (Envelope Request) → List (Envelope Request) → Type 0
  IsTagged tags before after =
      (e e' : Envelope Request) × (es : List (Envelope Request)) × (before ≡ e ∷ es)
      × (after ≡ e' ∷ es)
      × (e'.tag ≡ e.tag ++ tags)
      × (e'.message ≡ e.message)

  output-tags :
      (tags : List Text) (p : Progress) (o : List (Envelope Request))
      → p.output ≡ o
      → (send_response env tags authoritative p).0 ≡ done authoritative
      → IsTagged tags p.output (send_response env tags authoritative p).1.output
  unfolding send_response tag_first IsTagged
  output-tags tags p [] o h = ground arith
  output-tags tags p (e ∷ es) o h =
      rw o (e, add_tags tags e, es, refl, refl, add_tags-tag tags e, add_tags-message tags e)

  send-tags :
      (tags : List Text) (x : Result ResponseStatus)
      → (andthen (send_response env tags) x).0 ≡ done authoritative
      → IsTagged tags x.1.output (andthen (send_response env tags) x).1.output
  unfolding send_response
  send-tags tags (throws e, p) h = cc
  send-tags tags (faults, p) h = cc
  send-tags tags (done deferred, p) h = cc
  send-tags tags (done authoritative, p) h = output-tags tags p p.output refl h

  -- An authoritative request has the response of its handler as the output, where the first envelope
  -- has the tags of the request behind its own, and the same messages.
  pub process_request-tags :
      (identities : List Text) (request : Envelope Request) (p : Progress)
      → (process_request env identities request p).0 ≡ done authoritative
      → (e e' : Envelope Request) × (es : List (Envelope Request)) × ((dispatch env identities
            request p).1.output
          ≡ e ∷ es)
        × ((process_request env identities request p).1.output ≡ e' ∷ es)
        × (e'.tag ≡ e.tag ++ request.tag)
        × (e'.message ≡ e.message)
  unfolding process_request IsTagged
  process_request-tags identities request p h =
      send-tags request.tag (dispatch env identities request p) h
