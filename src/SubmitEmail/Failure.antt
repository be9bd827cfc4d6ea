-- ===== src/SubmitEmail/Failure.antt =====
-- `SubmitEmailService::execute` when it fails.
use catapulte.Common.{List, [], ◌∷◌, ◌≡◌, refl, false, Result, ok, err, arith, Result-elim}
use catapulte.Entity.{AttachmentRef, Envelope, EmailId}
use catapulte.Port.Types.{EmailRepositoryError, SaveResult, created, duplicate}
use catapulte.Port.Call.{After, History, Oracle, enqueue, save, set_attachments}
use catapulte.Port.Trace.{row_live}
use catapulte.Port.Rules.{After-try}
use catapulte.SubmitEmail.{
  SubmitEmailInput, SubmitEmailError, persist, enqueue_failed, envelope_of, execute, submit_created,
  submit_saved, store_attachments, patch_attachments, enqueue_email, roll_back,
}
use catapulte.SubmitEmail.RollBack.{
  CleanedUp, Storing, StoreOutcome, roll_back-CleanedUp, store_attachments-outcome,
}

module _ (o : Oracle) where
  -- What holds after a part of a submission, if it has failed.
  abbrev FailsClean :
      {A : Type 0} → EmailId → History → Result A SubmitEmailError → History → Type 0
  FailsClean id start (err e) h = CleanedUp o id start h
  FailsClean id start (ok a) h = Unit

  enqueue_email-FailsClean :
      {start h : History} (id : EmailId) (input : SubmitEmailInput) (refs : List AttachmentRef)
      → Storing o start refs h
      → After (FailsClean id start) h (enqueue_email o id input refs)
  unfolding enqueue_email roll_back
  enqueue_email-FailsClean {start = start} {h = h} id input refs s =
      let env = envelope_of input refs in
      Result-elim (After (FailsClean {A = EmailId} id start) (enqueue id env ∷ h))
        (o h (enqueue id env)) _ _ (λ _ _. tt)
        (λ e eq.
          roll_back-CleanedUp o EmailId id refs (enqueue_failed e)
            (record { blobs = s.blobs; queue = ground (arith, s.queue); events = s.events }))

  -- After the patch of the row: what is stored is still accounted for, or all is taken back.
  abbrev PatchOutcome :
      EmailId → History → List AttachmentRef → Result (Unit {0}) SubmitEmailError → History → Type 0
  PatchOutcome id start refs (err e) h = CleanedUp o id start h
  PatchOutcome id start refs (ok _) h = Storing o start refs h

  patch_attachments-outcome :
      {start h : History} (id : EmailId) (refs : List AttachmentRef)
      → Storing o start refs h
      → After (PatchOutcome id start refs) h (patch_attachments o id refs)
  unfolding patch_attachments roll_back
  patch_attachments-outcome id [] s = s
  patch_attachments-outcome {start = start} {h = h} id (r ∷ rest) s =
      let refs = r ∷ rest in
      Result-elim (After (PatchOutcome id start refs) (set_attachments id refs ∷ h))
        (o h (set_attachments id refs)) _ _
        (λ _ _. record { blobs = s.blobs; queue = s.queue; events = s.events })
        (λ e eq.
          roll_back-CleanedUp o (Unit {0}) id refs (persist e)
            (record { blobs = s.blobs; queue = s.queue; events = s.events }))

  submit_created-FailsClean :
      (id : EmailId) (input : SubmitEmailInput) (start h : History)
      → Storing o start [] h
      → After (FailsClean id start) h (submit_created o id input)
  unfolding submit_created
  submit_created-FailsClean id input start h s =
      After-try (FailsClean id start) (StoreOutcome o id start)
        (store_attachments o id input.attachments []) _ _ h
        (store_attachments-outcome o id start input.attachments [] h s)
        (λ refs k stored.
          After-try (FailsClean id start) (PatchOutcome id start refs) (patch_attachments o id refs)
            _ _ k (patch_attachments-outcome id refs stored)
            (λ _ l patched. enqueue_email-FailsClean id input refs patched) (λ e l clean. clean))
        (λ e k clean. clean)

  submit_saved-FailsClean :
      (id : EmailId) (input : SubmitEmailInput) (result : SaveResult) (start h : History)
      → Storing o start [] h
      → After (FailsClean id start) h (submit_saved o id input result)
  unfolding submit_saved
  submit_saved-FailsClean id input (duplicate existing) start h s = tt
  submit_saved-FailsClean id input (created _) start h s =
      submit_created-FailsClean id input start h s

  save_err-CleanedUp :
      (id : EmailId) (env : Envelope) (h : History) {e : EmailRepositoryError}
      → row_live o id h ≡ false
      → o h (save id env) ≡ err e
      → CleanedUp o id h (save id env ∷ h)
  save_err-CleanedUp id env h fresh failed = record {
    blobs = λ b. ground arith;
    row = ground arith;
    queue = refl;
    events = refl;
  }

  execute-FailsClean :
      (id : EmailId) (input : SubmitEmailInput) (h : History)
      → row_live o id h ≡ false
      → After (FailsClean id h) h (execute o id input)
  unfolding execute
  execute-FailsClean id input h fresh =
      let env = envelope_of input [] in
      Result-elim (After (FailsClean {A = EmailId} id h) (save id env ∷ h)) (o h (save id env)) _ _
        (λ result _.
          submit_saved-FailsClean id input result h (save id env ∷ h)
            (record { blobs = λ b live. ground arith; queue = refl; events = refl }))
        (λ e failed. save_err-CleanedUp id env h fresh failed)

  FailsClean-err :
      {A : Type 0} (id : EmailId) (start k : History) (r : Result A SubmitEmailError)
      {e : SubmitEmailError}
      → FailsClean id start r k
      → r ≡ err e
      → CleanedUp o id start k
  FailsClean-err id start k (ok a) c failed = cc
  FailsClean-err id start k (err e) c failed = c

  -- A submission under a fresh id that returns an error, wherever it failed, has left nothing
  -- behind: no blob that it stored is still stored, its row is gone, nothing was queued and
  -- nothing was published. A removal counts when it is asked for, as its own result is ignored.
  pub execute-CleanedUp :
      (id : EmailId) (input : SubmitEmailInput) (h : History) {e : SubmitEmailError}
      → row_live o id h ≡ false
      → (execute o id input h).0 ≡ err e
      → CleanedUp o id h (execute o id input h).1
  execute-CleanedUp id input h fresh failed =
      FailsClean-err id h (execute o id input h).1 (execute o id input h).0
        (execute-FailsClean id input h fresh) failed
