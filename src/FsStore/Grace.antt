-- ===== src/FsStore/Grace.antt =====
-- What the collector is shown of the store: a fresh blob is not among the keys that it may delete.
use catapulte.Common.{
  ℕ, ◌<◌, String, List, [], ◌∷◌, ◌++◌, ◌≡◌, Bool, true, false, Result, ok, err, All, filter, arith,
  str_eq, eq_iff, Bool-cases, ok-injective, subst, sym, ◌∙◌, ◌+◌, inl, inr,
}
use catapulte.Entity.{BlobRef, Bytes}
use catapulte.Port.Types.{AttachmentReader, PutResult}
use catapulte.Port.Call.{After, History, Oracle, is_cancelled, list_all_attachment_blobs}
use catapulte.Port.Call as Call
use catapulte.Port.Trace.{same_blob}
use catapulte.Gc.{SweepError, blob_of, sweep_once}
use catapulte.Gc.Sweep.{SweepOutcome, orphans, refers_to, sweep_once-outcome}
use catapulte.Gc.InUse.{All-front, Spared}
use catapulte.FsStore.RoundTrip.{none_fails, put-root}
use catapulte.FsStore.{
  Disk, Entry, file, is_listed, is_older_than, list_keys_older_than, names, put, remove_entry,
}

-- Every entry with the name is younger than the grace period.
abbrev pub IsFresh : ℕ → ℕ → String → List Entry → Type 0
IsFresh now age key entries =
    All (λ e. str_eq e.name key ≡ true → is_older_than now age e ≡ false) entries

names-filter :
    (now age : ℕ) (key : String) (entries : List Entry)
    → IsFresh now age key entries
    → All (λ k. str_eq k key ≡ false) (names (filter (is_older_than now age) entries))
unfolding names
names-filter now age key [] fresh = tt
names-filter now age key (e ∷ es) fresh = elim (Bool-cases (is_older_than now age e)) [
  | inr young ↦ rw young (names-filter now age key es fresh.1)
  | inl old ↦ rw old (elim (Bool-cases (is_listed e)) [
    | inr hidden ↦ rw (hidden, names) (names-filter now age key es fresh.1)
    | inl listed ↦
        rw (listed, names) (ground (arith, fresh.0, old), names-filter now age key es fresh.1)
  ])
]

committed-IsFresh :
    (now age at : ℕ) (key : String) (bytes : Bytes) (entries : List Entry)
    → 0 < age
    → now < age + at
    → IsFresh now age key (remove_entry key entries ++ file key bytes at ∷ [])
unfolding remove_entry is_older_than
committed-IsFresh now age at key bytes [] some_age young =
    ((λ _. ground (arith, some_age, young)), tt)
committed-IsFresh now age at key bytes (e ∷ es) some_age young =
    elim (Bool-cases (str_eq e.name key)) [
      | inl same ↦
          rw (same, remove_entry) (committed-IsFresh now age at key bytes es some_age young)
      | inr other ↦
          rw (other, remove_entry)
            ((λ same. cc), committed-IsFresh now age at key bytes es some_age young)
    ]

list_keys-fresh :
    (now age : ℕ) (key : String) (d : Disk) (keys : List String)
    → IsFresh now age key d.root
    → list_keys_older_than none_fails now age d ≡ ok keys
    → All (λ k. str_eq k key ≡ false) keys
unfolding list_keys_older_than
list_keys-fresh now age key d keys fresh e =
    subst (All (λ k. str_eq k key ≡ false)) (ok-injective _ keys e)
      (names-filter now age key d.root fresh)

All-orphans :
    (backend key : String) (in_use : List BlobRef) (keys : List String)
    → All (λ k. str_eq k key ≡ false) keys
    → All
        (λ k. same_blob (blob_of backend k) (blob_of backend key) ≡ false)
        (orphans backend in_use keys)
All-orphans backend key in_use [] all = tt
All-orphans backend key in_use (k ∷ ks) all =
    elim (Bool-cases (refers_to (blob_of backend k) in_use)) [
      | inl r ↦ rw r (All-orphans backend key in_use ks all.1)
      | inr r ↦
          rw r
            (ground (arith, all.0, eq_iff backend backend), All-orphans backend key in_use ks all.1)
    ]

module _ (o : Oracle) where
  outcome-Spared :
      (backend key : String) (grace : ℕ) (start h : History) (r : Result (Unit {0}) SweepError)
      → ((keys : List String)
          → o (list_all_attachment_blobs ∷ is_cancelled ∷ start) (Call.list_keys_older_than grace)
            ≡ ok keys
          → All (λ k. str_eq k key ≡ false) keys)
      → SweepOutcome o backend grace start r h
      → Spared backend (blob_of backend key) start h
  outcome-Spared backend key grace start h (err _) hidden same = ([], same, tt)
  outcome-Spared backend key grace start h (ok _) hidden (inl quiet) = ([], quiet.1, tt)
  outcome-Spared backend key grace start h (ok _) hidden (inr (in_use, keys, l, f, s)) = (
    s.done,
    s.gone,
    All-front _ s.done s.left (
        subst (All (λ k. same_blob (blob_of backend k) (blob_of backend key) ≡ false)) s.split
          (All-orphans backend key in_use keys (hidden keys f))),
  )

  -- A blob that was put into the file system store less than the grace period ago, which is not zero, survives a sweep
  -- that is given the store's listing, even though no email refers to it yet.
  pub sweep_once-fresh :
      (grace now at : ℕ) (key tmp_name : String) (part : Bytes) (reader : AttachmentReader)
      (fails : ℕ → Bool) (disk : Disk) (p : PutResult) (start : History)
      → 0 < grace
      → now < grace + at
      → (put fails at part tmp_name key reader disk).0 ≡ ok p
      → o (list_all_attachment_blobs ∷ is_cancelled ∷ start) (Call.list_keys_older_than grace)
        ≡ list_keys_older_than none_fails now grace (put fails at part tmp_name key reader disk).1
      → After (λ _ h. Spared "fs" (blob_of "fs" key) start h) start (sweep_once o "fs" grace)
  sweep_once-fresh grace now at key tmp_name part reader fails disk p start some_age young stored
        listing =
      let (bytes, root) = put-root at key disk fails part tmp_name reader p stored in
      let d = (put fails at part tmp_name key reader disk).1 in
      outcome-Spared "fs" key grace start _ _
        (λ keys found.
          list_keys-fresh now grace key d keys
            (subst (IsFresh now grace key) (sym root)
              (committed-IsFresh now grace at key bytes disk.root some_age young))
            (sym listing ∙ found))
        (sweep_once-outcome o "fs" grace start)
