-- ===== src/Signer/Claimed.antt =====
-- An authorization is claimed once (src/signer/replay.ts).
use mathlib.Core.Path.{subst}
use ari_os.Prelude.Texts.{str_eq-true}
use ari_os.Prelude.{
  ℕ, ◌+◌, ◌≤◌, String, Bool, true, false, ◌&&◌, List, [], ◌∷◌, ◌++◌, Option, none, some, ◌≡◌, refl,
  arith, Bool-cases, inl, inr, str_eq, if◌then◌else◌,
}
use ari_os.Prelude.Int.{ℤ}
use ari_os.Signer.Replay.{
  ReplayRow, has_row, claimed_row, insert_or_ignore, consume_until, consume, moved, transition,
  recovered_row, recover_signed,
}
use ari_os.Signer.Fence.{moved-id}
use ari_os.Signer.Keys.{has_row-map}
use ari_os.Signer.Stores.{consumes, moves}
use ari_os.Signer.Once.{FenceCall, asks, recovers, after_call, recovered-id}

-- The times that a call claims an authorization.
unfoldable pub claims : String → FenceCall → List ReplayRow → ℕ
unfolding consume
claims id (asks (consumes x until now)) rs =
    if str_eq x id && (consume x until now rs).0 then 1 else 0
claims id (asks (moves x from to text now)) rs = 0
claims id (recovers x now) rs = 0

unfoldable pub claims_all : String → List FenceCall → List ReplayRow → ℕ
unfolding claims after_call
claims_all id [] rs = 0
claims_all id (c ∷ cs) rs = claims id c rs + claims_all id cs (after_call c rs)

module _ (id : String) where
  -- The claims that are left.
  abbrev room : List ReplayRow → ℕ
  room rs = if has_row id rs then 0 else 1

  pushed_room : (rs : List ReplayRow) (r : ReplayRow) → room (rs ++ r ∷ []) ≤ room rs
  unfolding has_row
  pushed_room [] r = ground arith
  pushed_room (q ∷ rs) r = elim (Bool-cases (str_eq q.id id)) [
    | inl e ↦ rw e (omega arith)
    | inr e ↦ rw e (pushed_room rs r)
  ]

  has_row-last :
      (rs : List ReplayRow) (r : ReplayRow)
      → str_eq r.id id ≡ true
      → has_row id (rs ++ r ∷ []) ≡ true
  unfolding has_row
  has_row-last [] r h = rw h refl
  has_row-last (q ∷ rs) r h = ground (arith, has_row-last rs r)

  inserted_room :
      (x : String) (until : ℤ) (now : ℕ) (rs : List ReplayRow) (taken : Bool)
      → has_row x rs ≡ taken
      → (if str_eq x id && (insert_or_ignore x until now rs).0 then 1 else 0)
          + room (insert_or_ignore x until now rs).1
        ≤ room rs
  unfolding insert_or_ignore
  inserted_room x until now rs true h = rw h (ground arith)
  inserted_room x until now rs false h = rw h (elim (Bool-cases (str_eq x id)) [
    | inl e ↦ rw e (
        rw (has_row-last rs (claimed_row x until now) e)
          (rw (subst (λ y. has_row y rs ≡ false) (str_eq-true x id e) h) (omega arith)))
    | inr e ↦ rw e (omega (arith, pushed_room rs (claimed_row x until now)))
  ])

  consumed_room :
      (x : String) (until : Option ℤ) (now : ℕ) (rs : List ReplayRow)
      → (if str_eq x id && (consume_until x until now rs).0 then 1 else 0)
          + room (consume_until x until now rs).1
        ≤ room rs
  unfolding consume_until
  consumed_room x none now rs = ground arith
  consumed_room x (some n) now rs = elim (Bool-cases (str_eq x "")) [
    | inl e ↦ rw e (ground arith)
    | inr e ↦ rw e (inserted_room x n now rs _ refl)
  ]

  -- The claims of a call come out of the room.
  call_room :
      (c : FenceCall) (rs : List ReplayRow) → claims id c rs + room (after_call c rs) ≤ room rs
  unfolding claims after_call consume transition recover_signed
  call_room (asks (consumes x until now)) rs = consumed_room x _ now rs
  call_room (asks (moves x from to text now)) rs =
      rw (has_row-map (moved x from to text now) id rs (moved-id x from to text now)) (omega arith)
  call_room (recovers x now) rs =
      rw (has_row-map (recovered_row x now) id rs (recovered-id x now)) (omega arith)

  calls_room : (cs : List FenceCall) (rs : List ReplayRow) → claims_all id cs rs ≤ room rs
  unfolding claims_all
  calls_room [] rs = omega arith
  calls_room (c ∷ cs) rs = omega (arith, call_room c rs, calls_room cs (after_call c rs))

-- Any number of requests and recoveries claims an authorization at most once, and never when it has a
-- row already.
pub claims_once :
    (id : String) (cs : List FenceCall) (rs : List ReplayRow)
    → claims_all id cs rs ≤ (if has_row id rs then 0 else 1)
claims_once id cs rs = calls_room id cs rs
