-- ===== src/Http/Batch.antt =====
-- What answers a batch of emails.
use catapulte.Common.{
  ℕ, suc, ◌≤◌, ◌<◌, List, [], ◌∷◌, ◌++◌, ◌≡◌, ◌∙◌, ◌⊎◌, refl, sym, ap, subst, Result, ok, err,
  length, ltb, arith, Bool-cases, Result-cases, Result-elim, append_assoc, inl, inr,
}
use catapulte.Entity.{EmailId}
use catapulte.Port.Call.{After, History, Oracle}
use catapulte.SubmitEmail.{SubmitEmailError, SubmitEmailInput, execute}
use catapulte.Http.Dto.{
  EnvelopeConversionError, SubmitEmailRequest, into_submit_input, max_emails_per_batch,
}
use catapulte.Http.Failure.{AppError, bad_request_raw, submit}
use catapulte.Http.Emails.{
  BatchItemResultDto, Codec, accepted, execute_input, message, rejected, submit_each,
  submit_email_batch,
}

module _ (c : Codec) where
  module _ (o : Oracle) (ids : ℕ → EmailId) where
    -- The submission of a request's input, under the next id, has returned `result`.
    abbrev pub Submits :
        ℕ → SubmitEmailRequest → Result EmailId SubmitEmailError → History → History → Type 0
    Submits n req result start h =
        (input : SubmitEmailInput) × (into_submit_input c.parsers req ≡ ok input)
        × (execute o (ids n) input start ≡ (result, h))

    abbrev pub IsInvalid : SubmitEmailRequest → EnvelopeConversionError → Type 0
    IsInvalid req e = into_submit_input c.parsers req ≡ err e

    -- Every request has its result at its position: an invalid one the message of its error, and a
    -- valid one the id that its submission returned. The submissions were made in that order, and
    -- nothing else was.
    abbrev pub Answered :
        ℕ → List SubmitEmailRequest → List BatchItemResultDto → History → History → Type 0
    Answered n [] [] start h = h ≡ start
    Answered n [] (r ∷ results) start h = ⊥
    Answered n (req ∷ rest) [] start h = ⊥
    Answered n (req ∷ rest) (rejected m ∷ results) start h =
        ((e : EnvelopeConversionError) × IsInvalid req e × (m ≡ message e))
        × Answered n rest results start h
    Answered n (req ∷ rest) (accepted s ∷ results) start h =
        (id : EmailId) × (k : History) × Submits n req (ok id) start k
        × (s ≡ c.print_uuid id.uuid)
        × Answered (suc n) rest results k h

    -- The requests were gone through up to one whose submission failed with the error, the last thing
    -- that was done; those before it were invalid or submitted.
    abbrev pub Failed : ℕ → List SubmitEmailRequest → AppError → History → History → Type 0
    Failed n [] e start h = ⊥
    Failed n (req ∷ rest) e start h =
        ((x : SubmitEmailError) × Submits n req (err x) start h × (e ≡ submit x))
        ⊎ (((x : EnvelopeConversionError) × IsInvalid req x × Failed n rest e start h)
            ⊎ ((id : EmailId) × (k : History) × Submits n req (ok id) start k
                × Failed (suc n) rest e k h))

    -- The results of the requests that are left stand behind those of the earlier ones.
    abbrev EachOutcome :
        ℕ
        → List SubmitEmailRequest
        → List BatchItemResultDto
        → History
        → Result (List BatchItemResultDto) AppError
        → History
        → Type 0
    EachOutcome n reqs earlier start (ok results) h =
        (more : List BatchItemResultDto) × (results ≡ earlier ++ more)
        × Answered n reqs more start h
    EachOutcome n reqs earlier start (err e) h = Failed n reqs e start h

    rejected-EachOutcome :
        (n : ℕ) (req : SubmitEmailRequest) (reqs : List SubmitEmailRequest)
        (earlier : List BatchItemResultDto) (x : EnvelopeConversionError) (start : History)
        (result : Result (List BatchItemResultDto) AppError) (h : History)
        → IsInvalid req x
        → EachOutcome n reqs (earlier ++ rejected (message x) ∷ []) start result h
        → EachOutcome n (req ∷ reqs) earlier start result h
    rejected-EachOutcome n req reqs earlier x start (ok results) h invalid (more, same, answered) =
        let r = rejected (message x) in
        (r ∷ more, same ∙ append_assoc earlier (r ∷ []) more, ((x, invalid, refl), answered))
    rejected-EachOutcome n req reqs earlier x start (err e) h invalid failed =
        inr (inl (x, invalid, failed))

    accepted-EachOutcome :
        (n : ℕ) (req : SubmitEmailRequest) (reqs : List SubmitEmailRequest)
        (earlier : List BatchItemResultDto) (id : EmailId) (start k : History)
        (result : Result (List BatchItemResultDto) AppError) (h : History)
        → Submits n req (ok id) start k
        → EachOutcome (suc n) reqs (earlier ++ accepted (c.print_uuid id.uuid) ∷ []) k result h
        → EachOutcome n (req ∷ reqs) earlier start result h
    accepted-EachOutcome n req reqs earlier id start k (ok results) h done (more, same, answered) =
        let r = accepted (c.print_uuid id.uuid) in
        (r ∷ more, same ∙ append_assoc earlier (r ∷ []) more, (id, k, done, refl, answered))
    accepted-EachOutcome n req reqs earlier id start k (err e) h done failed =
        inr (inr (id, k, done, failed))

    append_nil : (rs : List BatchItemResultDto) → rs ++ [] ≡ rs
    append_nil [] = refl
    append_nil (r ∷ rs) = ap (λ l. r ∷ l) (append_nil rs)

    executed :
        (id : EmailId) (input : SubmitEmailInput) (h : History)
        → ((done : EmailId) × (k : History) × (execute o id input h ≡ (ok done, k))
            × (execute_input c o id input h ≡ (ok done, k)))
          ⊎ ((x : SubmitEmailError) × (k : History) × (execute o id input h ≡ (err x, k))
              × (execute_input c o id input h ≡ (err (submit x), k)))
    unfolding execute_input execute
    executed id input h =
        let run = execute o id input h in
        elim (Result-cases run.0) [
          | inl (done, e) ↦ inl (done, run.1, ap (λ r. (r, run.1)) e, rw (e, execute_input) refl)
          | inr (x, e) ↦ inr (x, run.1, ap (λ r. (r, run.1)) e, rw (e, execute_input) refl)
        ]

    submit_each-EachOutcome :
        (reqs : List SubmitEmailRequest) (n : ℕ) (earlier : List BatchItemResultDto) (h : History)
        → After (EachOutcome n reqs earlier h) h (submit_each c o ids n reqs earlier)
    unfolding submit_each execute_input execute
    submit_each-EachOutcome [] n earlier h = ([], sym (append_nil earlier), refl)
    submit_each-EachOutcome (req ∷ rest) n earlier h =
        Result-elim (After (EachOutcome n (req ∷ rest) earlier h) h)
          (into_submit_input c.parsers req) _ _
          (λ input valid. elim (executed (ids n) input h) [
            | inl (done, k, e, f) ↦ rw f (
                accepted-EachOutcome n req rest earlier done h k _ _ (input, valid, e)
                  (submit_each-EachOutcome rest (suc n)
                    (earlier ++ accepted (c.print_uuid done.uuid) ∷ []) k))
            | inr (x, k, e, f) ↦ rw f (inl (x, (input, valid, e), refl))
          ])
          (λ x invalid.
            rejected-EachOutcome n req rest earlier x h _ _ invalid
              (submit_each-EachOutcome rest n (earlier ++ rejected (message x) ∷ []) h))

    -- The outcome of a batch, on both branches.
    abbrev pub BatchOutcome :
        List SubmitEmailRequest
        → History
        → Result (List BatchItemResultDto) AppError
        → History
        → Type 0
    BatchOutcome reqs start (ok results) h =
        (length reqs ≤ max_emails_per_batch) × Answered 0 reqs results start h
    BatchOutcome reqs start (err e) h =
        ((max_emails_per_batch < length reqs)
          × (e ≡ bad_request_raw "batch exceeds maximum of 100 emails")
          × (h ≡ start))
        ⊎ ((length reqs ≤ max_emails_per_batch) × Failed 0 reqs e start h)

    each-BatchOutcome :
        (reqs : List SubmitEmailRequest) (start h : History)
        (r : Result (List BatchItemResultDto) AppError)
        → length reqs ≤ max_emails_per_batch
        → EachOutcome 0 reqs [] start r h
        → BatchOutcome reqs start r h
    each-BatchOutcome reqs start h (ok results) few (more, same, answered) =
        (few, subst (λ l. Answered 0 reqs l start h) (sym same) answered)
    each-BatchOutcome reqs start h (err e) few failed = inr (few, failed)

    -- A batch that is answered has at most 100 emails and one result for each, in their order: the
    -- message of its error for an invalid email, and for a valid one the id that its submission
    -- returned. The valid emails were submitted in their order, each under the next id, and nothing
    -- else was called. A batch fails above that limit, and then calls nothing, or with the error of
    -- the first submission that fails: the emails before it have been submitted, and no later one.
    pub submit_email_batch-BatchOutcome :
        (reqs : List SubmitEmailRequest) (start : History)
        → After (BatchOutcome reqs start) start (submit_email_batch c o ids reqs)
    unfolding submit_email_batch
    submit_email_batch-BatchOutcome reqs start =
        elim (Bool-cases (ltb max_emails_per_batch (length reqs))) [
          | inl many ↦ rw (many, submit_email_batch) (inl (ground (arith, many), refl, refl))
          | inr few ↦
              rw (few, submit_email_batch)
                (each-BatchOutcome reqs start _ _ (ground (arith, few))
                  (submit_each-EachOutcome reqs 0 [] start))
        ]
