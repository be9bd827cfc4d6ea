-- ===== src/FsStore/Failure.antt =====
-- Why a `put` into the file system store fails.
use catapulte.Common.{
  ℕ, String, ◌≡◌, refl, Bool, true, false, Result, ok, err, ◌⊎◌, inl, inr, if◌then◌else◌,
}
use catapulte.Entity.{AnyError, Bytes}
use catapulte.Port.Types.{AttachmentReader, AttachmentStoreError}
use catapulte.FsStore.{Disk, Entry, commit, write_committed}

-- Why a `put` may fail: the reader fails, or a call of the file system.
abbrev pub HasFailure : (ℕ → Bool) → AttachmentReader → Type 0
HasFailure fails reader = ((x : AnyError) × (reader ≡ err x)) ⊎ ((n : ℕ) × (fails n ≡ true))

failure-cases :
    (fails : ℕ → Bool) (n : ℕ) (t : Bool) (x rest : Result ℕ AttachmentStoreError × Disk)
    (e : AttachmentStoreError)
    → fails n ≡ t
    → (rest.0 ≡ err e → (k : ℕ) × (fails k ≡ true))
    → (if t then x else rest).0 ≡ err e
    → (k : ℕ) × (fails k ≡ true)
failure-cases fails n true x rest e same more h = (n, same)
failure-cases fails n false x rest e same more h = more h

failure-step :
    (fails : ℕ → Bool) (n : ℕ) (x rest : Result ℕ AttachmentStoreError × Disk)
    (e : AttachmentStoreError)
    → (rest.0 ≡ err e → (k : ℕ) × (fails k ≡ true))
    → (if fails n then x else rest).0 ≡ err e
    → (k : ℕ) × (fails k ≡ true)
failure-step fails n x rest e = failure-cases fails n (fails n) x rest e refl

module _ (at : ℕ) (key : String) (disk : Disk) where
  commit-failure :
      (fails : ℕ → Bool) (x : Entry) (d : Disk) (e : AttachmentStoreError)
      → (commit fails key x d).0 ≡ err e
      → (n : ℕ) × (fails n ≡ true)
  unfolding commit
  commit-failure fails x d e h =
      failure-step fails 2 _ _ e
        (failure-step fails 3 _ _ e (
          failure-step fails 4 _ _ e
            (failure-step fails 5 _ _ e (failure-step fails 6 _ _ e (λ h'. cc)))))
        h

  pub write_committed-HasFailure :
      (fails : ℕ → Bool) (part : Bytes) (tmp_name : String) (reader : AttachmentReader)
      (e : AttachmentStoreError)
      → (write_committed fails at part tmp_name key reader disk).0 ≡ err e
      → HasFailure fails reader
  unfolding write_committed
  write_committed-HasFailure fails part tmp_name (err x) e h = inl (x, refl)
  write_committed-HasFailure fails part tmp_name (ok bytes) e h =
      inr (failure-step fails 0 _ _ e (failure-step fails 1 _ _ e (commit-failure fails _ _ e)) h)
