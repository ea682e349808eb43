-- ===== src/Control/Ledger/Committed.antt =====
-- A committed row stays, whatever the ledger does (src/execution/control/index.ts).
use mathlib.Core.Path.{subst}
use ari_os.Prelude.{
  String, Bool, true, not, ◌&&◌, ◌||◌, List, [], ◌∷◌, ◌++◌, map, ◌≡◌, sym, arith, Bool-cases, inl,
  inr, str_eq,
}
use ari_os.Prelude.Int.{ℤ}
use ari_os.Control.Ledger.Rows.{
  LedgerEntry, LedgerOptions, Ledger, Reservation, is_reserved, has_id, has_expired, unexpired,
  expire, has_committed, is_released, is_row_bindable, without, commit_row, reserve, release,
  commit, insert_row, inserted, plain_row, is_malformed,
}
use ari_os.Control.Ledger.Snapshot.{committed_row, add_missing}
use ari_os.Control.Ledger.Within.{WithinLimits}
use ari_os.Control.Ledger.Granted.{Answer, Granted, granted, unchanged, expired, reserve_within_lem}
use ari_os.Control.Ledger.Agreement.{accepted}
use ari_os.Control.Ledger.Steps.{
  LedgerStep, reads, reserves, reserves_within, releases, commits, reconciles, LedgerSteps, stop,
  step,
}

module _ (id : String) where
  in_unexpired :
      (now : ℤ) (rs : List Reservation)
      → has_committed id rs ≡ true
      → has_committed id (unexpired now rs) ≡ true
  unfolding has_committed unexpired has_expired
  in_unexpired now [] h = h
  in_unexpired now (r ∷ rs) h = ground (arith, in_unexpired now rs)

  in_append :
      (rs ss : List Reservation) → has_committed id rs ≡ true → has_committed id (rs ++ ss) ≡ true
  unfolding has_committed
  in_append [] ss h = absurd (cc)
  in_append (r ∷ rs) ss h = ground (arith, in_append rs ss)

  in_without :
      (x : String) (rs : List Reservation)
      → has_committed id rs ≡ true
      → has_committed id (without x rs) ≡ true
  unfolding has_committed without is_released
  in_without x [] h = h
  in_without x (r ∷ rs) h = ground (arith, in_without x rs)

  committed_stays :
      (x : String) (at : ℤ) (r : Reservation)
      → (str_eq r.entry.id id && not (is_reserved r.state)) ≡ true
      → (str_eq (commit_row x at r).entry.id id && not (is_reserved (commit_row x at r).state))
        ≡ true
  unfolding commit_row is_released
  committed_stays x at r h = ground arith

  in_commit :
      (x : String) (at : ℤ) (rs : List Reservation)
      → has_committed id rs ≡ true
      → has_committed id (map (commit_row x at) rs) ≡ true
  unfolding has_committed
  in_commit x at [] h = h
  in_commit x at (r ∷ rs) h = ground (arith, in_commit x at rs, committed_stays x at r)

  in_add_missing :
      (es : List LedgerEntry) (rs : List Reservation)
      → has_committed id rs ≡ true
      → has_committed id (add_missing es rs) ≡ true
  unfolding add_missing
  in_add_missing [] rs h = h
  in_add_missing (e ∷ es) rs h = elim (Bool-cases (has_id e.id rs)) [
    | inl k ↦ rw k (in_add_missing es rs h)
    | inr k ↦ rw k (in_add_missing es _ (in_append rs (committed_row e ∷ []) h))
  ]

  in_insert :
      (r : Reservation) (l : Ledger)
      → has_committed id l.rows ≡ true
      → has_committed id (inserted l (insert_row r l)).1.rows ≡ true
  unfolding inserted insert_row
  in_insert r l h = elim (Bool-cases (has_id r.entry.id l.rows || not (is_row_bindable r))) [
    | inl k ↦ rw k h
    | inr k ↦ rw k (in_append l.rows (r ∷ []) h)
  ]

  in_reserve :
      (o : LedgerOptions) (e : LedgerEntry) (l : Ledger)
      → has_committed id l.rows ≡ true
      → has_committed id (reserve o e l).1.rows ≡ true
  unfolding reserve
  in_reserve o e l h = elim (Bool-cases (is_malformed e)) [
    | inl k ↦ rw k h
    | inr k ↦ rw k (in_insert (plain_row o e) l h)
  ]

  in_within :
      (e : LedgerEntry) (limits : WithinLimits) (l : Ledger) (r : Bool × Ledger)
      → has_committed id l.rows ≡ true
      → Answer (Granted e limits l) e.at l r
      → has_committed id r.1.rows ≡ true
  unfolding expire
  in_within e limits l r h (unchanged a b) = rw b h
  in_within e limits l r h (expired a b) = rw b (in_unexpired e.at l.rows h)
  in_within e limits l r h (granted a g) =
      rw g.inserted (in_append (unexpired e.at l.rows) (g.row ∷ []) (in_unexpired e.at l.rows h))

  in_step :
      (o : LedgerOptions) (l m : Ledger)
      → LedgerStep o l m
      → has_committed id l.rows ≡ true
      → has_committed id m.rows ≡ true
  unfolding expire release commit
  in_step o _ _ (reads now l) h = in_unexpired now l.rows h
  in_step o _ _ (reserves e l) h = in_reserve o e l h
  in_step o _ _ (reserves_within e limits l) h =
      in_within e limits l _ h (reserve_within_lem o e limits l)
  in_step o _ _ (releases changes x l) h = in_without x l.rows h
  in_step o _ _ (commits changes x at l) h = in_commit x at l.rows h
  in_step o _ _ (reconciles es now l r e) h =
      subst (λ m. has_committed id m.1.rows ≡ true) (sym (accepted es now l r e))
        (in_add_missing es (unexpired now l.rows) (in_unexpired now l.rows h))

-- A committed entry is committed still after any number of operations: no expiry, release, new
-- reservation or snapshot removes it.
pub LedgerSteps-committed :
    (o : LedgerOptions) (id : String) (l m : Ledger)
    → LedgerSteps o l m
    → has_committed id l.rows ≡ true
    → has_committed id m.rows ≡ true
LedgerSteps-committed o id _ _ (stop l) h = h
LedgerSteps-committed o id _ _ (step l m n s rest) h =
    LedgerSteps-committed o id m n rest (in_step id o l m s h)
