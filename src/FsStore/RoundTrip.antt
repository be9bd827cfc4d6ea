-- ===== src/FsStore/RoundTrip.antt =====
-- A blob that is stored is read back.
use catapulte.Common.{
  ℕ, String, List, [], ◌∷◌, ◌++◌, ◌≡◌, refl, Bool, false, none, some, Result, ok, err, length,
  arith, str_eq, eq_iff, ap, ◌∙◌, ◌⊎◌, Bool-cases, inl, inr,
}
use catapulte.Entity.{BlobRef, Bytes}
use catapulte.Port.Types.{AttachmentReader, AttachmentStoreError, PutResult, not_found}
use catapulte.FsStore.{
  Disk, Entry, after_write, commit, delete, file, find_entry, get, put, remove_entry, rename,
  with_tmp, write_committed,
}
use catapulte.FsStore.Failure.{HasFailure, write_committed-HasFailure}
use catapulte.FsStore.Key.{is_dangerous_key}

abbrev pub none_fails : ℕ → Bool
none_fails n = false

find_entry-remove :
    (key : String) (entries : List Entry) → find_entry key (remove_entry key entries) ≡ none
unfolding find_entry remove_entry
find_entry-remove key [] = refl
find_entry-remove key (e ∷ es) = ground (arith, find_entry-remove key es)

find_entry-last :
    (key : String) (entries : List Entry) (new : Entry)
    → new.name ≡ key
    → find_entry key (remove_entry key entries ++ new ∷ []) ≡ some new
unfolding find_entry remove_entry
find_entry-last key [] new named = ground (arith, named, eq_iff new.name key)
find_entry-last key (e ∷ es) new named = ground (arith, named, find_entry-last key es new named)

find_entry-other :
    (key other : String) (entries : List Entry) (new : Entry)
    → new.name ≡ key
    → str_eq key other ≡ false
    → find_entry other (remove_entry key entries ++ new ∷ []) ≡ find_entry other entries
unfolding find_entry remove_entry
find_entry-other key other [] new named differ = ground (arith, named, differ)
find_entry-other key other (e ∷ es) new named differ = ground (
  arith,
  named,
  differ,
  eq_iff e.name key,
  eq_iff e.name other,
  find_entry-other key other es new named differ,
)

find_entry-kept :
    (key other : String) (entries : List Entry)
    → str_eq key other ≡ false
    → find_entry other (remove_entry key entries) ≡ find_entry other entries
unfolding find_entry remove_entry
find_entry-kept key other [] differ = refl
find_entry-kept key other (e ∷ es) differ =
    ground
      (arith, differ, eq_iff e.name key, eq_iff e.name other, find_entry-kept key other es differ)

get-root :
    (blob : BlobRef) (d d' : Disk)
    → d.root ≡ d'.root
    → get none_fails blob d ≡ get none_fails blob d'
unfolding get
get-root blob d d' same = rw same refl

module _ (at : ℕ) (key : String) (disk : Disk) where
  -- The root with the new file in place of what had its name.
  abbrev pub committed : Bytes → List Entry
  committed bytes = remove_entry key disk.root ++ file key bytes at ∷ []

  abbrev RootOf : AttachmentReader → Result ℕ AttachmentStoreError → Disk → Type 0
  RootOf reader (ok n) d =
      (bytes : Bytes) × (reader ≡ ok bytes) × (n ≡ length bytes) × (d.root ≡ committed bytes)
  RootOf reader (err e) d = (d.root ≡ disk.root) ⊎ ((bytes : Bytes) × (d.root ≡ committed bytes))

  abbrev RootAfter : AttachmentReader → Result ℕ AttachmentStoreError × Disk → Type 0
  RootAfter reader (r, d) = RootOf reader r d

  commit-RootAfter :
      (fails : ℕ → Bool) (tmp_name : String) (bytes : Bytes)
      → RootAfter
          (ok bytes)
          (commit fails key (file tmp_name bytes at) (with_tmp (file tmp_name bytes at) disk))
  unfolding commit rename
  commit-RootAfter fails tmp_name bytes = elim (Bool-cases (fails 2)) [
    | inl a ↦ rw (a, commit) (inl refl)
    | inr a ↦
        rw (a, commit)
          (elim (Bool-cases (fails 3)) [
            | inl b ↦ rw (b, commit) (inl refl)
            | inr b ↦
                rw (b, commit)
                  (elim (Bool-cases (fails 4)) [
                    | inl c ↦ rw (c, commit) (inl refl)
                    | inr c ↦
                        rw (c, commit)
                          (elim (Bool-cases (fails 5)) [
                            | inl d ↦ rw (d, commit) (inr (bytes, refl))
                            | inr d ↦
                                rw (d, commit)
                                  (elim (Bool-cases (fails 6)) [
                                    | inl e ↦ rw (e, commit) (inr (bytes, refl))
                                    | inr e ↦ rw (e, commit) (bytes, refl, refl, refl)
                                  ])
                          ])
                  ])
          ])
  ]

  write_committed-RootAfter :
      (fails : ℕ → Bool) (part : Bytes) (tmp_name : String) (reader : AttachmentReader)
      → RootAfter reader (write_committed fails at part tmp_name key reader disk)
  unfolding write_committed
  write_committed-RootAfter fails part tmp_name (err x) = elim (Bool-cases (fails 0)) [
    | inl a ↦ rw (a, write_committed) (inl refl)
    | inr a ↦ rw (a, write_committed) (inl refl)
  ]
  write_committed-RootAfter fails part tmp_name (ok bytes) = elim (Bool-cases (fails 0)) [
    | inl a ↦ rw (a, write_committed) (inl refl)
    | inr a ↦
        rw (a, write_committed)
          (elim (Bool-cases (fails 1)) [
            | inl b ↦ rw (b, write_committed) (inl refl)
            | inr b ↦ rw (b, write_committed) (commit-RootAfter fails tmp_name bytes)
          ])
  ]

  abbrev pub blob_at : BlobRef
  blob_at = record { backend = "fs"; key = key }

  -- What a `put` leaves behind: it failed because the reader or a call did, or the blob is read back as the reader gave it, and is gone
  -- once it is deleted. The other blob reads as before, whatever failed.
  abbrev pub Stored :
      (ℕ → Bool)
      → BlobRef
      → AttachmentReader
      → Result PutResult AttachmentStoreError × Disk
      → Type 0
  Stored fails other reader outcome =
      (((e : AttachmentStoreError) × (outcome.0 ≡ err e) × HasFailure fails reader)
        ⊎ ((bytes : Bytes) × (reader ≡ ok bytes)
            × (outcome.0 ≡ ok (record { blob = blob_at; size_bytes = length bytes }))
            × (get none_fails blob_at outcome.1 ≡ ok (ok bytes))
            × (get none_fails blob_at (delete none_fails blob_at outcome.1).1 ≡ err not_found)))
      × (get none_fails other outcome.1 ≡ get none_fails other disk)

  get-other :
      (bytes : Bytes) (other : BlobRef) (d : Disk)
      → str_eq key other.key ≡ false
      → d.root ≡ committed bytes
      → get none_fails other d ≡ get none_fails other disk
  unfolding get
  get-other bytes other d differ same =
      rw same (rw (find_entry-other key other.key disk.root (file key bytes at) refl differ) refl)

  get-committed :
      (bytes : Bytes) (d : Disk)
      → is_dangerous_key key ≡ false
      → str_eq key "" ≡ false
      → d.root ≡ committed bytes
      → get none_fails blob_at d ≡ ok (ok bytes)
  unfolding get
  get-committed bytes d safe named same =
      rw safe
        (rw named (rw same (rw (find_entry-last key disk.root (file key bytes at) refl) refl)))

  delete-root :
      (bytes : Bytes) (d : Disk)
      → is_dangerous_key key ≡ false
      → str_eq key "" ≡ false
      → find_entry key d.root ≡ some (file key bytes at)
      → (delete none_fails blob_at d).1.root ≡ remove_entry key d.root
  unfolding delete
  delete-root bytes d safe named found = rw safe (rw named (rw found refl))

  get-absent :
      (d : Disk)
      → is_dangerous_key key ≡ false
      → str_eq key "" ≡ false
      → find_entry key d.root ≡ none
      → get none_fails blob_at d ≡ err not_found
  unfolding get
  get-absent d safe named absent = rw safe (rw named (rw absent refl))

  get-deleted :
      (bytes : Bytes) (d : Disk)
      → is_dangerous_key key ≡ false
      → str_eq key "" ≡ false
      → d.root ≡ committed bytes
      → get none_fails blob_at (delete none_fails blob_at d).1 ≡ err not_found
  get-deleted bytes d safe named same =
      let found =
        ap (find_entry key) same ∙ find_entry-last key disk.root (file key bytes at) refl in
      get-absent (delete none_fails blob_at d).1 safe named
        (ap (find_entry key) (delete-root bytes d safe named found) ∙ find_entry-remove key d.root)

  get-failed :
      (reader : AttachmentReader) (e : AttachmentStoreError) (other : BlobRef) (d d' : Disk)
      → d'.root ≡ d.root
      → str_eq key other.key ≡ false
      → RootOf reader (err e) d
      → get none_fails other d' ≡ get none_fails other disk
  get-failed reader e other d d' kept differ (inl same) = get-root other d' disk (kept ∙ same)
  get-failed reader e other d d' kept differ (inr (bytes, same)) =
      get-other bytes other d' differ (kept ∙ same)

  after_write-Stored :
      (fails : ℕ → Bool) (tmp_name : String) (reader : AttachmentReader) (other : BlobRef)
      (w : Result ℕ AttachmentStoreError × Disk)
      → is_dangerous_key key ≡ false
      → str_eq key "" ≡ false
      → str_eq key other.key ≡ false
      → RootAfter reader w
      → ((e : AttachmentStoreError) → w.0 ≡ err e → HasFailure fails reader)
      → Stored fails other reader (after_write fails tmp_name key w)
  unfolding after_write
  after_write-Stored fails tmp_name reader other (ok n, d) safe named differ
        (bytes, read, size, same) why =
      (
        inr (
          bytes,
          read,
          ap (λ k. ok (record { blob = blob_at; size_bytes = k })) size,
          get-committed bytes d safe named same,
          get-deleted bytes d safe named same,
        ),
        get-other bytes other d differ same,
      )
  after_write-Stored fails tmp_name reader other (err e, d) safe named differ root why =
      elim (Bool-cases (fails 7)) [
        | inl f ↦ rw f (inl (e, refl, why e refl), get-failed reader e other d d refl differ root)
        | inr f ↦ rw f (inl (e, refl, why e refl), get-failed reader e other d _ refl differ root)
      ]

  -- A `put` under a new name fails only if the reader or a call fails. If it succeeds, the reader was read to its end, the
  -- blob is read back with exactly those bytes and their number, and is gone once it is deleted; and
  -- a blob of another name reads as before in any case.
  pub put-Stored :
      (fails : ℕ → Bool) (part : Bytes) (tmp_name : String) (reader : AttachmentReader)
      (other : BlobRef)
      → is_dangerous_key key ≡ false
      → str_eq key "" ≡ false
      → str_eq key other.key ≡ false
      → Stored fails other reader (put fails at part tmp_name key reader disk)
  unfolding put
  put-Stored fails part tmp_name reader other safe named differ =
      after_write-Stored fails tmp_name reader other _ safe named differ
        (write_committed-RootAfter fails part tmp_name reader)
        (write_committed-HasFailure at key disk fails part tmp_name reader)

  after_write-root :
      (fails : ℕ → Bool) (tmp_name : String) (reader : AttachmentReader)
      (w : Result ℕ AttachmentStoreError × Disk) (p : PutResult)
      → RootAfter reader w
      → (after_write fails tmp_name key w).0 ≡ ok p
      → (bytes : Bytes) × ((after_write fails tmp_name key w).1.root ≡ committed bytes)
  unfolding after_write
  after_write-root fails tmp_name reader (ok n, d) p (bytes, _, _, same) e = (bytes, same)
  after_write-root fails tmp_name reader (err x, d) p root e = cc

  pub put-root :
      (fails : ℕ → Bool) (part : Bytes) (tmp_name : String) (reader : AttachmentReader)
      (p : PutResult)
      → (put fails at part tmp_name key reader disk).0 ≡ ok p
      → (bytes : Bytes) × ((put fails at part tmp_name key reader disk).1.root ≡ committed bytes)
  unfolding put
  put-root fails part tmp_name reader p e =
      after_write-root fails tmp_name reader _ p
        (write_committed-RootAfter fails part tmp_name reader) e
