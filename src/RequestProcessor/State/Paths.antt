-- ===== src/RequestProcessor/State/Paths.antt =====
-- src/zippylog/request_processor.cpp, `CheckPath`: the paths that it lets through, and its answer to
-- the others.
use Prim.Native.String.{String}
use zippylog.Prelude.{
  ◌&&◌, ◌==◌, not, ◌≡◌, ◌≢◌, ◌↔◌, refl, ◌⊎◌, inl, inr, Bool, true, false, none, some, [], ◌∷◌, ◌++◌,
  Text, length, arith, Outcome, done, Option-cases, bytes, if◌then◌else◌,
}
use zippylog.Store.Path.{StorePath, parse_path}
use zippylog.Envelope.{new_envelope}
use zippylog.RequestProcessor.Messages.{Response, ErrorCode, invalid_path, path_not_found}
use zippylog.RequestProcessor.State.{
  Environment, Progress, Process, populate_error_response, envelope_of, add_to_envelope, check_path,
  refuse, return,
}

-- The path names all that is required, and the store has it.
pub record IsServed (env : Environment) (path : Text) (bucket set stream : Bool) : Type 0 where
  pub parsed : StorePath
  pub parses : parse_path path ≡ some parsed
  pub bucket_exists :
      bucket ≡ true → (parsed.bucket ≢ []) × (env.backend.bucket_exists parsed.bucket ≡ true)
  pub set_exists :
      set ≡ true
      → (parsed.set ≢ []) × (env.backend.stream_set_exists parsed.bucket parsed.set ≡ true)
  pub stream_exists :
      stream ≡ true
      → (parsed.stream ≢ [])
        × (env.backend.stream_exists parsed.bucket parsed.set parsed.stream ≡ true)

module _ (env : Environment) where
  passed :
      (path : Text) (b s t : Bool) (p : Progress) (r : StorePath)
      → parse_path path ≡ some r
      → (check_path env path b s t p).0 ≡ done true
      → IsServed env path b s t
  unfolding check_path populate_error_response envelope_of
  passed path b s t p r h k = record {
    parsed = r;
    parses = h;
    bucket_exists = ground arith;
    set_exists = ground arith;
    stream_exists = ground arith;
  }

  unparsed :
      (path : Text) (b s t : Bool) (p : Progress)
      → parse_path path ≡ none
      → (check_path env path b s t p).0 ≡ done false
  unfolding check_path populate_error_response envelope_of
  unparsed path b s t p h = rw (h, check_path) refl

  served :
      (path : Text) (b s t : Bool) (p : Progress)
      → IsServed env path b s t
      → (check_path env path b s t p).0 ≡ done true
  unfolding check_path populate_error_response envelope_of
  served path b s t p h = ground (arith, h.parses, h.bucket_exists, h.set_exists, h.stream_exists)

  clash : {o : Outcome Bool} → o ≡ done true → o ≡ done false → ⊥
  clash h k = cc

  -- A path passes exactly if it parses, names each part that is required, and the store has those
  -- parts.
  pub check_path_iff :
      (path : Text) (bucket set stream : Bool) (p : Progress)
      → ((check_path env path bucket set stream p).0 ≡ done true)
        ↔ IsServed env path bucket set stream
  check_path_iff path b s t p = elim (Option-cases (parse_path path)) [
    | inl h ↦ (λ k. elim (clash k (unparsed path b s t p h)) [ ], served path b s t p)
    | inr h ↦ (passed path b s t p h.0 h.1, served path b s t p)
  ]

  -- A check passes and leaves everything, or fails with one error.
  IsAnswered : Progress → Process Bool → Type 0
  IsAnswered p m =
      (m p ≡ (done true, p))
      ⊎ ((code : ErrorCode) × (message : Text) × ((code ≡ invalid_path) ⊎ (code ≡ path_not_found))
          × ((m p).0 ≡ done false)
          × ((m p).1.calls ≡ p.calls)
          × ((m p).1.output
              ≡ p.output
                ++ add_to_envelope env (Response.error code message)
                    (new_envelope (env.clock p.readings))
                  ∷ []))

  refused :
      (p : Progress) (code : ErrorCode) (message : String)
      → (code ≡ invalid_path) ⊎ (code ≡ path_not_found)
      → IsAnswered p (refuse env code message false)
  unfolding IsAnswered populate_error_response envelope_of
  refused p code message h = inr (code, bytes message, h, refl, refl, refl)

  -- The tests of the check in their order, whatever they test.
  tests-IsAnswered :
      (p : Progress) (b₁ b₂ b₃ b₄ b₅ b₆ : Bool)
      → IsAnswered p (
          if b₁
          then refuse env ErrorCode.invalid_path "path does not contain a bucket component" false
          else if b₂
          then refuse env ErrorCode.invalid_path "path does not contain a stream set component"
              false
          else if b₃
          then refuse env ErrorCode.invalid_path "path does not contain a stream component" false
          else if b₄
          then refuse env ErrorCode.path_not_found "bucket does not exist" false
          else if b₅
          then refuse env ErrorCode.path_not_found "stream set does not exist" false
          else if b₆
          then refuse env ErrorCode.path_not_found "stream does not exist" false
          else return true)
  unfolding IsAnswered populate_error_response envelope_of
  tests-IsAnswered p true _ _ _ _ _ =
      refused p ErrorCode.invalid_path "path does not contain a bucket component" (inl refl)
  tests-IsAnswered p false true _ _ _ _ =
      refused p ErrorCode.invalid_path "path does not contain a stream set component" (inl refl)
  tests-IsAnswered p false false true _ _ _ =
      refused p ErrorCode.invalid_path "path does not contain a stream component" (inl refl)
  tests-IsAnswered p false false false true _ _ =
      refused p ErrorCode.path_not_found "bucket does not exist" (inr refl)
  tests-IsAnswered p false false false false true _ =
      refused p ErrorCode.path_not_found "stream set does not exist" (inr refl)
  tests-IsAnswered p false false false false false true =
      refused p ErrorCode.path_not_found "stream does not exist" (inr refl)
  tests-IsAnswered p false false false false false false = inl refl

  check-IsAnswered :
      (path : Text) (bucket set stream : Bool) (p : Progress)
      → IsAnswered p (check_path env path bucket set stream)
  unfolding check_path
  check-IsAnswered path b s t p = elim (Option-cases (parse_path path)) [
    | inl h ↦
        rw (h, check_path)
          (refused p ErrorCode.invalid_path "supplied path does not parse" (inl refl))
    | inr h ↦
        rw (h.1, check_path)
          (tests-IsAnswered p (b && (length h.0.bucket == 0)) (s && (length h.0.set == 0))
            (t && (length h.0.stream == 0)) (b && not (env.backend.bucket_exists h.0.bucket))
            (s && not (env.backend.stream_set_exists h.0.bucket h.0.set))
            (t && not (env.backend.stream_exists h.0.bucket h.0.set h.0.stream)))
  ]

  -- The check ends with a result always. Where a path passes nothing is answered or logged; where it
  -- does not, the output has one envelope more, an error with the code for a path that is not valid
  -- or for one that is not found, and no call is made.
  pub check_path_answers :
      (path : Text) (bucket set stream : Bool) (p : Progress)
      → (check_path env path bucket set stream p ≡ (done true, p))
        ⊎ ((code : ErrorCode) × (message : Text) × ((code ≡ invalid_path) ⊎ (code ≡ path_not_found))
            × ((check_path env path bucket set stream p).0 ≡ done false)
            × ((check_path env path bucket set stream p).1.calls ≡ p.calls)
            × ((check_path env path bucket set stream p).1.output
                ≡ p.output
                  ++ add_to_envelope env
                      (Response.error code message)
                      (new_envelope (env.clock p.readings))
                    ∷ []))
  unfolding IsAnswered
  check_path_answers path bucket set stream p = check-IsAnswered path bucket set stream p
