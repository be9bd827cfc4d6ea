-- ===== src/SubmitEmail/Success.antt =====
-- `SubmitEmailService::execute` in domain/src/use_case/submit_email.rs, when it succeeds.
use catapulte.Common.{List, [], ◌∷◌, ◌≡◌, true, Result, ok, err, map, All}
use catapulte.Entity.{AttachmentRef, EmailId}
use catapulte.Entity.LifecycleEvent.{queued}
use catapulte.Port.Types.{EmailRepositoryError, SaveResult, created, duplicate}
use catapulte.Port.Call.{History, Oracle, enqueue, publish, save, set_attachments}
use catapulte.Port.Trace.{blob_live, enqueued, published}
use catapulte.SubmitEmail.{SubmitEmailInput, SubmitEmailError, envelope_of}
use catapulte.SubmitEmail.RollBack.{StoreOutcome}
use catapulte.SubmitEmail.Stored.{input_label, ref_label, AllStored, StoreSuccess}

module _ (o : Oracle) where
  -- The row was patched with the references right before, unless there are none.
  abbrev pub IsPatched : EmailId → List AttachmentRef → History → Type 0
  IsPatched id [] k = Unit
  IsPatched id (r ∷ rest) k =
      (l : History) × (k ≡ set_attachments id (r ∷ rest) ∷ l)
      × (o l (set_attachments id (r ∷ rest)) ≡ ok tt)

  -- The email `id` has been queued between `start` and `h` with all that was submitted: the
  -- references name the attachments of the input in their order, their blobs are stored, the row was
  -- patched with them, the queue accepted the envelope, and the event was published last. It is the
  -- only email that was queued since `start`, and its event the only one that was published.
  pub record QueuedUp (id : EmailId) (input : SubmitEmailInput) (start h : History) : Type 0 where
    pub refs : List AttachmentRef
    pub before : History
    pub labels : map ref_label refs ≡ map input_label input.attachments
    pub stored : All (λ r. blob_live o r.blob h ≡ true) refs
    pub patched : IsPatched id refs before
    pub accepted : o before (enqueue id (envelope_of input refs)) ≡ ok tt
    pub trace :
        h ≡ publish (queued id input.correlation_id) ∷ enqueue id (envelope_of input refs) ∷ before
    pub once : enqueued o h ≡ id ∷ enqueued o start
    pub announced : published h ≡ queued id input.correlation_id ∷ published start

  -- Since `start` nothing was queued or published.
  abbrev IsUnannounced : History → History → Type 0
  IsUnannounced start h = (enqueued o h ≡ enqueued o start) × (published h ≡ published start)

  abbrev PatchSuccess :
      EmailId → History → List AttachmentRef → Result (Unit {0}) SubmitEmailError → History → Type 0
  PatchSuccess id start refs (err e) k = Unit
  PatchSuccess id start refs (ok _) k =
      IsPatched id refs k × AllStored o refs k × IsUnannounced start k

  abbrev CreatedSuccess :
      EmailId → SubmitEmailInput → History → Result EmailId SubmitEmailError → History → Type 0
  CreatedSuccess id input start (err e) h = Unit
  CreatedSuccess id input start (ok r) h = (r ≡ id) × QueuedUp id input start h

  -- What the loop over the attachments leaves, if it succeeds.
  abbrev BothStored :
      EmailId
      → SubmitEmailInput
      → History
      → Result (List AttachmentRef) SubmitEmailError
      → History
      → Type 0
  BothStored id input start r h =
      StoreSuccess o input.attachments [] r h × StoreOutcome o id start r h

  -- What a submission that returns `r` has done, by the answer of `save`.
  abbrev SavedAs :
      EmailId
      → SubmitEmailInput
      → History
      → Result SaveResult EmailRepositoryError
      → EmailId
      → History
      → Type 0
  SavedAs id input start (ok (duplicate existing)) r h =
      (r ≡ existing) × (h ≡ save id (envelope_of input []) ∷ start)
  SavedAs id input start (ok (created _)) r h = (r ≡ id) × QueuedUp id input start h
  SavedAs id input start (err _) r h = ⊥

  abbrev pub Succeeded :
      EmailId → SubmitEmailInput → History → Result EmailId SubmitEmailError → History → Type 0
  Succeeded id input start (err e) h = Unit
  Succeeded id input start (ok r) h =
      SavedAs id input start (o start (save id (envelope_of input []))) r h

  -- Of an answer of `save`, in place of the oracle's.
  abbrev SavedOutcome :
      EmailId
      → SubmitEmailInput
      → History
      → Result SaveResult EmailRepositoryError
      → Result EmailId SubmitEmailError
      → History
      → Type 0
  SavedOutcome id input start answer (err e) h = Unit
  SavedOutcome id input start answer (ok r) h = SavedAs id input start answer r h
