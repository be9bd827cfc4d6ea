-- ===== src/SubmitEmail/Stored.antt =====
-- The loop over the attachments in domain/src/use_case/submit_email.rs, when it succeeds.
use mathlib.Core.List.{append-nil, append_assoc, map-append}
use catapulte.Common.{
  String, List, [], ◌∷◌, ◌++◌, ◌≡◌, sym, ◌∙◌, true, Result, ok, err, arith, Result-elim, map, All,
}
use catapulte.Entity.{AttachmentRef, BlobRef, EmailId}
use catapulte.Port.Types.{AttachmentReader, PutResult}
use catapulte.Port.Call.{After, History, Oracle, put}
use catapulte.Port.Trace.{blob_live, same_blob_refl}
use catapulte.SubmitEmail.{
  AttachmentInput, inline, stream, remote, SubmitEmailError, filename, content_type, attachment_ref,
  store_attachments, open_reader, roll_back,
}
use catapulte.SubmitEmail.RollBack.{has_blob, has_blob-append}

-- Name and type of an attachment, as submitted and as stored.
abbrev pub input_label : AttachmentInput → String × String
input_label att = (filename att, content_type att)

abbrev pub ref_label : AttachmentRef → String × String
ref_label r = (r.filename, r.content_type)

module _ (o : Oracle) where
  -- Every blob of `refs` is stored at `h`.
  abbrev pub AllStored : List AttachmentRef → History → Type 0
  AllStored refs h = (b : BlobRef) → has_blob b refs ≡ true → blob_live o b h ≡ true

  abbrev pub StoreSuccess :
      List AttachmentInput
      → List AttachmentRef
      → Result (List AttachmentRef) SubmitEmailError
      → History
      → Type 0
  StoreSuccess atts written (err e) h = Unit
  StoreSuccess atts written (ok refs) h =
      (map ref_label refs ≡ map ref_label written ++ map input_label atts) × AllStored refs h

  open_reader-AllStored :
      (att : AttachmentInput) (refs : List AttachmentRef) (h : History)
      → AllStored refs h
      → AllStored refs (open_reader o att h).1
  unfolding open_reader
  open_reader-AllStored (inline _ _ _) refs h s = s
  open_reader-AllStored (stream _ _ _) refs h s = s
  open_reader-AllStored (remote _ _ _) refs h s = s

  put_ok-AllStored :
      (att : AttachmentInput) (reader : AttachmentReader) (refs : List AttachmentRef)
      (p : PutResult) (h : History)
      → o h (put reader) ≡ ok p
      → AllStored refs h
      → AllStored (refs ++ attachment_ref att p ∷ []) (put reader ∷ h)
  unfolding attachment_ref
  put_ok-AllStored att reader refs p h e s b =
      ground (arith, s b, has_blob-append b refs (attachment_ref att p))

  labels-step :
      (att : AttachmentInput) (p : PutResult) (written refs : List AttachmentRef)
      (rest : List AttachmentInput)
      → map ref_label refs
        ≡ map ref_label (written ++ attachment_ref att p ∷ []) ++ map input_label rest
      → map ref_label refs ≡ map ref_label written ++ map input_label (att ∷ rest)
  unfolding attachment_ref
  labels-step att p written refs rest e = e ∙ simp (map-append, append_assoc)

  StoreSuccess-step :
      (att : AttachmentInput) (p : PutResult) (rest : List AttachmentInput)
      (written : List AttachmentRef) (r : Result (List AttachmentRef) SubmitEmailError)
      (h : History)
      → StoreSuccess rest (written ++ attachment_ref att p ∷ []) r h
      → StoreSuccess (att ∷ rest) written r h
  StoreSuccess-step att p rest written (ok refs) h s =
      (labels-step att p written refs rest s.0, s.1)
  StoreSuccess-step att p rest written (err e) h s = tt

  roll_back-StoreSuccess :
      (id : EmailId) (atts : List AttachmentInput) (refs written : List AttachmentRef)
      (e : SubmitEmailError) (h : History)
      → After (StoreSuccess atts refs) h (roll_back o id written e)
  unfolding roll_back
  roll_back-StoreSuccess id atts refs written e h = tt

  pub store_attachments-success :
      (id : EmailId) (atts : List AttachmentInput) (written : List AttachmentRef) (h : History)
      → AllStored written h
      → After (StoreSuccess atts written) h (store_attachments o id atts written)
  unfolding store_attachments
  store_attachments-success id [] written h s = (sym (append-nil (map ref_label written)), s)
  store_attachments-success id (att ∷ rest) written h s =
      let opened = open_reader o att h in
      let s' = open_reader-AllStored att written h s in
      let P : Result (List AttachmentRef) SubmitEmailError → History → Type 0 =
        StoreSuccess (att ∷ rest) written in
      Result-elim (After P opened.1) opened.0 _ _
        (λ reader _.
          Result-elim (After P (put reader ∷ opened.1)) (o opened.1 (put reader)) _ _
            (λ p e.
              let more = written ++ attachment_ref att p ∷ [] in
              let run = store_attachments o id rest more (put reader ∷ opened.1) in
              StoreSuccess-step att p rest written run.0 run.1 (
                store_attachments-success id rest more (put reader ∷ opened.1)
                  (put_ok-AllStored att reader written p opened.1 e s')))
            (λ e _.
              roll_back-StoreSuccess id (att ∷ rest) written written _ (put reader ∷ opened.1)))
        (λ e _. roll_back-StoreSuccess id (att ∷ rest) written written _ opened.1)

  pub AllStored-All :
      (refs : List AttachmentRef) (h : History)
      → AllStored refs h
      → All (λ r. blob_live o r.blob h ≡ true) refs
  AllStored-All [] h s = tt
  AllStored-All (r ∷ rest) h s = (
    s r.blob (ground (arith, same_blob_refl r.blob)),
    AllStored-All rest h (λ b e. s b (ground arith)),
  )
