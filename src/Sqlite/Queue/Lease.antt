-- ===== src/Sqlite/Queue/Lease.antt =====
-- The lease of an entry of the queue table in adapter/outbound-sqlite/src/email_queue.rs.
use catapulte.Common.{
  ℕ, ◌+◌, ◌≤◌, List, [], ◌∷◌, ◌++◌, ◌≡◌, ◌∙◌, refl, sym, ap, subst, true, false, Option, none, some,
  arith, Bool-cases, inl, inr, All, ◌⊎◌,
}
use catapulte.Common.Int.{pos, i64_max}
use catapulte.Entity.{Bytes}
use catapulte.Sqlite.{QueueRow}
use catapulte.Sqlite.Queue.{
  same_bytes, claim_until, is_claimable, older, oldest, claimed, update_entry, claim_row, claim,
  delete_entry, returned,
}

same_bytes_iff : (a b : Bytes) → same_bytes a b ≡ true → a ≡ b
unfolding same_bytes
same_bytes_iff [] [] h = refl
same_bytes_iff [] (_ ∷ _) h = cc
same_bytes_iff (_ ∷ _) [] h = cc
same_bytes_iff (a ∷ as') (b ∷ bs) h = ground (arith, same_bytes_iff as' bs)

same_bytes_refl : (a : Bytes) → same_bytes a a ≡ true
unfolding same_bytes
same_bytes_refl [] = refl
same_bytes_refl (a ∷ as') = ground (arith, same_bytes_refl as')

-- How the queue table changes: a new entry, a claim, an acknowledgement, a return. Each has the
-- time at which it runs, or none if it depends on no clock.
pub data Change : Type 0 where
  add : QueueRow → Change
  take : ℕ → Change
  drop : Bytes → Change
  give_back : ℕ → ℕ → Bytes → Change

abbrev pub apply : Change → List QueueRow → List QueueRow
apply (add r) rows = rows ++ r ∷ []
apply (take now) rows = (claim now rows).1
apply (drop entry) rows = delete_entry entry rows
apply (give_back now delay entry) rows = update_entry (returned now delay) entry rows

abbrev pub apply_all : List Change → List QueueRow → List QueueRow
apply_all [] rows = rows
apply_all (c ∷ cs) rows = apply_all cs (apply c rows)

-- The row, if it is of the entry `e`, is leased until `until`.
abbrev pub IsLeased : Bytes → ℕ → QueueRow → Type 0
IsLeased e until row =
    (same_bytes row.id e ≡ false) ⊎ ((u : ℕ) × (row.claimed_until ≡ some (pos u)) × (until ≤ u))

-- A change that respects the lease of `e`: another entry is added or returned, and claims happen by
-- the time `until`.
abbrev pub Respects : Bytes → ℕ → Change → Type 0
Respects e until (add r) = same_bytes r.id e ≡ false
Respects e until (take now) = now ≤ until
Respects e until (drop entry) = Unit {0}
Respects e until (give_back now delay entry) = same_bytes entry e ≡ false

module _ (e : Bytes) (until : ℕ) where
  IsLeased-claimable :
      (now : ℕ) (row : QueueRow)
      → now ≤ until
      → IsLeased e until row
      → is_claimable now row ≡ true
      → same_bytes row.id e ≡ false
  unfolding is_claimable
  IsLeased-claimable now row h (inl other) c = other
  IsLeased-claimable now row h (inr (u, eq, le)) c = ground (arith, eq, le, c)

  oldest-other :
      (now : ℕ) (rows : List QueueRow) (r : QueueRow)
      → now ≤ until
      → All (IsLeased e until) rows
      → oldest now rows ≡ some r
      → same_bytes r.id e ≡ false
  unfolding oldest older
  oldest-other now [] r h all eq = cc
  oldest-other now (x ∷ xs) r h all eq =
      ground (arith, IsLeased-claimable now x h all.0, oldest-other now xs r h all.1)

  -- An update that keeps the ids and touches another entry only.
  update_entry-IsLeased :
      (f : QueueRow → QueueRow) (entry : Bytes) (rows : List QueueRow)
      → ((x : QueueRow) → (f x).id ≡ x.id)
      → same_bytes entry e ≡ false
      → All (IsLeased e until) rows
      → All (IsLeased e until) (update_entry f entry rows)
  unfolding update_entry
  update_entry-IsLeased f entry [] keeps other all = tt
  update_entry-IsLeased f entry (x ∷ xs) keeps other all =
      elim (Bool-cases (same_bytes x.id entry)) [
        | inl same ↦
            rw (same, update_entry)
              (
                inl (rw (keeps x) (rw (same_bytes_iff x.id entry same) other)),
                update_entry-IsLeased f entry xs keeps other all.1,
              )
        | inr differs ↦
            rw (differs, update_entry) (all.0, update_entry-IsLeased f entry xs keeps other all.1)
      ]

  All-append :
      (xs : List QueueRow) (r : QueueRow)
      → All (IsLeased e until) xs
      → IsLeased e until r
      → All (IsLeased e until) (xs ++ r ∷ [])
  All-append [] r all h = (h, tt)
  All-append (x ∷ xs) r all h = (all.0, All-append xs r all.1 h)

  delete_entry-IsLeased :
      (entry : Bytes) (rows : List QueueRow)
      → All (IsLeased e until) rows
      → All (IsLeased e until) (delete_entry entry rows)
  unfolding delete_entry
  delete_entry-IsLeased entry [] all = tt
  delete_entry-IsLeased entry (x ∷ xs) all = elim (Bool-cases (same_bytes x.id entry)) [
    | inl same ↦ rw (same, delete_entry) (delete_entry-IsLeased entry xs all.1)
    | inr differs ↦ rw (differs, delete_entry) (all.0, delete_entry-IsLeased entry xs all.1)
  ]

  claim_row-IsLeased :
      (now : ℕ) (rows : List QueueRow) (chosen : Option QueueRow)
      → now ≤ until
      → oldest now rows ≡ chosen
      → All (IsLeased e until) rows
      → All (IsLeased e until) (claim_row now rows chosen).1
  unfolding claim_row claimed
  claim_row-IsLeased now rows none h eq all = all
  claim_row-IsLeased now rows (some r) h eq all =
      update_entry-IsLeased (claimed now) r.id rows (λ x. refl) (oldest-other now rows r h all eq)
        all

  apply-IsLeased :
      (c : Change) (rows : List QueueRow)
      → Respects e until c
      → All (IsLeased e until) rows
      → All (IsLeased e until) (apply c rows)
  unfolding claim
  apply-IsLeased (add r) rows h all = All-append rows r all (inl h)
  apply-IsLeased (take now) rows h all = claim_row-IsLeased now rows (oldest now rows) h refl all
  apply-IsLeased (drop entry) rows h all = delete_entry-IsLeased entry rows all
  apply-IsLeased (give_back now delay entry) rows h all =
      update_entry-IsLeased (returned now delay) entry rows (λ x. refl) h all

  apply_all-IsLeased :
      (cs : List Change) (rows : List QueueRow)
      → All (Respects e until) cs
      → All (IsLeased e until) rows
      → All (IsLeased e until) (apply_all cs rows)
  apply_all-IsLeased [] rows h all = all
  apply_all-IsLeased (c ∷ cs) rows h all =
      apply_all-IsLeased cs (apply c rows) h.1 (apply-IsLeased c rows h.0 all)

-- The rows of a claimed entry are leased for five minutes.
claimed-IsLeased :
    (now : ℕ) (e : Bytes) (rows : List QueueRow)
    → now + 300000 ≤ i64_max
    → All (IsLeased e (now + 300000)) (update_entry (claimed now) e rows)
unfolding update_entry claimed claim_until
claimed-IsLeased now e [] fits = tt
claimed-IsLeased now e (x ∷ xs) fits = elim (Bool-cases (same_bytes x.id e)) [
  | inl same ↦
      rw (same, update_entry)
        (inr (now + 300000, ground arith, omega arith), claimed-IsLeased now e xs fits)
  | inr differs ↦ rw (differs, update_entry) (inl differs, claimed-IsLeased now e xs fits)
]

claim_row-claimed :
    (now : ℕ) (rows : List QueueRow) (chosen : Option QueueRow) (r : QueueRow)
    → (claim_row now rows chosen).0 ≡ some r
    → (x : QueueRow) × (chosen ≡ some x) × (r ≡ claimed now x)
unfolding claim_row
claim_row-claimed now rows none r h = cc
claim_row-claimed now rows (some x) r h =
    (x, refl, ap (λ o. elim o [ some y ↦ y | none ↦ r ]) (sym h))

first-IsLeased :
    (now : ℕ) (rows : List QueueRow) (chosen : Option QueueRow) (r : QueueRow)
    → now + 300000 ≤ i64_max
    → (claim_row now rows chosen).0 ≡ some r
    → All (IsLeased r.id (now + 300000)) (claim_row now rows chosen).1
unfolding claim_row claimed
first-IsLeased now rows none r fits h = cc
first-IsLeased now rows (some x) r fits h =
    subst (λ y. All (IsLeased y.id (now + 300000)) (update_entry (claimed now) x.id rows))
      (ap (λ o. elim o [ some y ↦ y | none ↦ r ]) h) (claimed-IsLeased now x.id rows fits)

-- An entry that was claimed at `now` is handed to nobody else for five minutes: whatever other
-- changes the queue table goes through, as long as the entry itself is not returned nor its id
-- added anew, no claim up to `now + 300000` takes it.
pub claim-lease :
    (now later : ℕ) (rows : List QueueRow) (r s : QueueRow) (cs : List Change)
    → now + 300000 ≤ i64_max
    → later ≤ now + 300000
    → (claim now rows).0 ≡ some r
    → All (Respects r.id (now + 300000)) cs
    → (claim later (apply_all cs (claim now rows).1)).0 ≡ some s
    → same_bytes s.id r.id ≡ false
unfolding claim
claim-lease now later rows r s cs fits soon first respects second =
    let until = now + 300000 in
    let leased = first-IsLeased now rows (oldest now rows) r fits first in
    let rows' = apply_all cs (claim now rows).1 in
    let (x, chosen, same) = claim_row-claimed later rows' (oldest later rows') s second in
    rw (ap (λ y. y.id) same ∙ claimed-id later x) (
      oldest-other r.id until later rows' x soon
        (apply_all-IsLeased r.id until cs (claim now rows).1 respects leased) chosen)
  where
    claimed-id : (t : ℕ) (x : QueueRow) → (claimed t x).id ≡ x.id
    claimed-id t x = unfold claimed in refl
