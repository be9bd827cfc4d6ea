-- ===== src/Gc/Sweep.antt =====
-- What a sweep deletes.
use catapulte.Common.{
  ℕ, String, List, [], ◌∷◌, ◌++◌, ◌≡◌, ◌∙◌, ◌⊎◌, refl, ap, Bool, true, false, not, ◌||◌, Result, ok,
  err, arith, Bool-cases, inl, inr, Result-elim, filter,
}
use catapulte.Entity.{BlobRef}
use catapulte.Port.Call.{
  After, History, Oracle, delete_blob, is_cancelled, list_all_attachment_blobs,
  list_keys_older_than,
}
use catapulte.Port.Trace.{deleted, same_blob}
use catapulte.Gc.{SweepError, live_keys, contains, blob_of, sweep_keys, sweep_store, sweep_once}

-- Whether one of the blobs is `b`.
abbrev pub refers_to : BlobRef → List BlobRef → Bool
refers_to b [] = false
refers_to b (x ∷ xs) = same_blob x b || refers_to b xs

-- The orphans among the keys: those to which none of the blobs in use refers.
abbrev pub orphans : String → List BlobRef → List String → List String
orphans backend in_use = filter (λ key. not (refers_to (blob_of backend key) in_use))

-- The blobs of the keys, deleted one after the other, on top of those deleted before.
abbrev pub delete_keys : String → List String → List BlobRef → List BlobRef
delete_keys backend [] before = before
delete_keys backend (k ∷ ks) before = delete_keys backend ks (blob_of backend k ∷ before)

-- A key is live exactly if a blob of the backend with that key is in use.
contains-live_keys :
    (backend key : String) (bs : List BlobRef)
    → contains key (live_keys backend bs) ≡ refers_to (blob_of backend key) bs
unfolding contains live_keys
contains-live_keys backend key [] = refl
contains-live_keys backend key (b ∷ bs) = ground (arith, contains-live_keys backend key bs)

module _ (o : Oracle) where
  -- The last call asked whether to stop, and the answer was yes.
  abbrev pub WasCancelled : History → Type 0
  WasCancelled h = (k : History) × (h ≡ is_cancelled ∷ k) × (o k is_cancelled ≡ true)

  -- The keys `found` were deleted in their order, up to the end or up to a cancellation.
  pub record Swept (backend : String) (found : List String) (start h : History) : Type 0 where
    pub done : List String
    pub left : List String
    pub split : found ≡ done ++ left
    pub gone : deleted h ≡ delete_keys backend done (deleted start)
    pub complete : (left ≡ []) ⊎ WasCancelled h

  Swept-more :
      (backend key : String) (found : List String) (start h : History)
      → Swept backend found (delete_blob (blob_of backend key) ∷ is_cancelled ∷ start) h
      → Swept backend (key ∷ found) start h
  Swept-more backend key found start h s = record {
    done = key ∷ s.done;
    left = s.left;
    split = ap (λ l. key ∷ l) s.split;
    gone = s.gone;
    complete = s.complete;
  }

  Swept-moved :
      (backend : String) (found : List String) (start k h : History)
      → deleted k ≡ deleted start
      → Swept backend found k h
      → Swept backend found start h
  Swept-moved backend found start k h e s = record {
    done = s.done;
    left = s.left;
    split = s.split;
    gone = s.gone ∙ ap (delete_keys backend s.done) e;
    complete = s.complete;
  }

  module _ (backend : String) (in_use : List BlobRef) where
    sweep_keys-Swept :
        (keys : List String) (start : History)
        → After
            (λ _ h. Swept backend (orphans backend in_use keys) start h)
            start
            (sweep_keys o backend (live_keys backend in_use) keys)
    unfolding sweep_keys
    sweep_keys-Swept [] start = record {
      done = [];
      left = [];
      split = refl;
      gone = refl;
      complete = inl refl;
    }
    sweep_keys-Swept (key ∷ rest) start = elim (Bool-cases (o start is_cancelled)) [
      | inl e ↦
          rw (e, sweep_keys)
            (record {
              done = [];
              left = orphans backend in_use (key ∷ rest);
              split = refl;
              gone = refl;
              complete = inr (start, refl, e);
            })
      | inr e ↦
          rw (e, sweep_keys)
            (elim (Bool-cases (refers_to (blob_of backend key) in_use)) [
              | inl live ↦
                  rw (contains-live_keys backend key in_use, sweep_keys)
                    (rw (live, sweep_keys)
                      (Swept-moved backend _ start (is_cancelled ∷ start) _ refl
                        (sweep_keys-Swept rest (is_cancelled ∷ start))))
              | inr orphan ↦
                  rw (contains-live_keys backend key in_use, sweep_keys)
                    (rw (orphan, sweep_keys)
                      (Swept-more backend key _ start _ (
                        sweep_keys-Swept rest
                          (delete_blob (blob_of backend key) ∷ is_cancelled ∷ start))))
            ])
    ]

  -- The outcome of a sweep of `backend` with the grace period `grace`.
  abbrev pub SweepOutcome : String → ℕ → History → Result (Unit {0}) SweepError → History → Type 0
  SweepOutcome backend grace start (err e) h = deleted h ≡ deleted start
  SweepOutcome backend grace start (ok _) h =
      (WasCancelled h × (deleted h ≡ deleted start))
      ⊎ ((in_use : List BlobRef) × (keys : List String) × (o (is_cancelled ∷ start)
              list_all_attachment_blobs
            ≡ ok in_use)
          × (o (list_all_attachment_blobs ∷ is_cancelled ∷ start) (list_keys_older_than grace)
              ≡ ok keys)
          × Swept backend (orphans backend in_use keys) start h)

  -- A sweep, on every branch. A failed listing deletes nothing. A success was either cancelled
  -- before the listings, and deleted nothing, or it deleted, in the store's order and each by one
  -- call, keys of the second listing to which no email of the first one refers: all of them, or
  -- those up to a cancellation.
  pub sweep_once-outcome :
      (backend : String) (grace : ℕ) (start : History)
      → After (SweepOutcome backend grace start) start (sweep_once o backend grace)
  unfolding sweep_once sweep_store
  sweep_once-outcome backend grace start = elim (Bool-cases (o start is_cancelled)) [
    | inl e ↦ rw (e, sweep_once) (inl ((start, refl, e), refl))
    | inr e ↦
        rw (e, sweep_once)
          (let h1 = is_cancelled ∷ start in
            let h2 = list_all_attachment_blobs ∷ h1 in
            let h3 = list_keys_older_than grace ∷ h2 in
            Result-elim (After (SweepOutcome backend grace start) h2)
              (o h1 list_all_attachment_blobs) _ _
              (λ in_use listed.
                Result-elim (After (SweepOutcome backend grace start) h3)
                  (o h2 (list_keys_older_than grace)) _ _
                  (λ keys found. inr (
                    in_use,
                    keys,
                    listed,
                    found,
                    Swept-moved backend _ start h3 _ refl (sweep_keys-Swept backend in_use keys h3),
                  ))
                  (λ x failed. refl))
              (λ x failed. refl))
  ]
