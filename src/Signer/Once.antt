-- ===== src/Signer/Once.antt =====
-- An authorization is consumed once, and its signature released once (src/signer/replay.ts).
use ari_os.Prelude.Texts.{str_eq-true}
use ari_os.Prelude.{
  ℕ, ◌+◌, ◌≤◌, String, Bool, true, false, ◌&&◌, List, [], ◌∷◌, ◌++◌, map, Option, none, some, ◌≡◌,
  refl, sym, ap, ◌∙◌, arith, Bool-cases, inl, inr, and_true, str_eq, if◌then◌else◌,
}
use ari_os.Prelude.Int.{ℤ}
use mathlib.Core.Path.{subst}
use mathlib.Core.Bool.{false≢true}
use ari_os.Signer.State.{ExecutionState}
use ari_os.Signer.Replay.{
  ReplayRow, has_row, claimed_row, insert_or_ignore, consume_until, consume, moved, transition, get,
  is_recoverable, recovered_row, first_recoverable, data_of, recover_signed, is_there,
}
use ari_os.Signer.Fence.{Unique, moved-id}
use ari_os.Signer.Keys.{Unique-map}
use ari_os.Signer.Stores.{FenceRequest, consumes, moves, in_sqlite, sqlite-Unique}

-- A request, or the recovery of a signature.
pub data FenceCall : Type 0 where
  asks : FenceRequest → FenceCall
  recovers : String → ℕ → FenceCall

unfoldable pub after_call : FenceCall → List ReplayRow → List ReplayRow
unfolding consume transition recover_signed
after_call (asks q) rs = (in_sqlite q rs).1
after_call (recovers id now) rs = (recover_signed id now rs).1

-- The times that a call releases the signature of an authorization.
unfoldable pub releases : String → FenceCall → List ReplayRow → ℕ
unfolding recover_signed
releases id (asks q) rs = 0
releases id (recovers x now) rs =
    if str_eq x id && is_there (recover_signed x now rs).0 then 1 else 0

unfoldable pub releases_all : String → List FenceCall → List ReplayRow → ℕ
unfolding releases after_call
releases_all id [] rs = 0
releases_all id (c ∷ cs) rs = releases id c rs + releases_all id cs (after_call c rs)

-- The releases that are left.
abbrev budget : Option ReplayRow → ℕ
budget none = 1
budget (some r) = if r.recovered then 0 else 1

budget_bound : (o : Option ReplayRow) → budget o ≤ 1
budget_bound none = omega arith
budget_bound (some r) = ground arith

moved-recovered :
    (x : String) (from to : ExecutionState) (text : Option String) (now : ℕ) (r : ReplayRow)
    → (moved x from to text now r).recovered ≡ r.recovered
unfolding moved
moved-recovered x from to text now r = ground arith

pub recovered-id : (x : String) (now : ℕ) (r : ReplayRow) → (recovered_row x now r).id ≡ r.id
unfolding recovered_row
recovered-id x now r = ground arith

module _ (id : String) where
  budget-moved :
      (x : String) (from to : ExecutionState) (text : Option String) (now : ℕ) (rs : List ReplayRow)
      → budget (get id (map (moved x from to text now) rs)) ≡ budget (get id rs)
  unfolding get
  budget-moved x from to text now [] = refl
  budget-moved x from to text now (r ∷ rs) = elim (Bool-cases (str_eq r.id id)) [
    | inl e ↦
        rw (moved-id x from to text now r) (rw e (rw (moved-recovered x from to text now r) refl))
    | inr e ↦ rw (moved-id x from to text now r) (rw e (budget-moved x from to text now rs))
  ]

  pushed_budget :
      (rs : List ReplayRow) (r : ReplayRow) → budget (get id (rs ++ r ∷ [])) ≤ budget (get id rs)
  unfolding get
  pushed_budget [] r = budget_bound (get id (r ∷ []))
  pushed_budget (q ∷ rs) r = elim (Bool-cases (str_eq q.id id)) [
    | inl e ↦ rw e (omega arith)
    | inr e ↦ rw e (pushed_budget rs r)
  ]

  inserted_budget :
      (x : String) (until : ℤ) (now : ℕ) (rs : List ReplayRow)
      → budget (get id (insert_or_ignore x until now rs).1) ≤ budget (get id rs)
  unfolding insert_or_ignore
  inserted_budget x until now rs = elim (Bool-cases (has_row x rs)) [
    | inl e ↦ rw e (omega arith)
    | inr e ↦ rw e (pushed_budget rs (claimed_row x until now))
  ]

  consumed_budget :
      (x : String) (until : Option ℤ) (now : ℕ) (rs : List ReplayRow)
      → budget (get id (consume_until x until now rs).1) ≤ budget (get id rs)
  unfolding consume_until
  consumed_budget x none now rs = omega arith
  consumed_budget x (some n) now rs = elim (Bool-cases (str_eq x "")) [
    | inl e ↦ rw e (omega arith)
    | inr e ↦ rw e (inserted_budget x n now rs)
  ]

  row_budget :
      (x : String) (now : ℕ) (r : ReplayRow)
      → budget (some (recovered_row x now r)) ≤ budget (some r)
  unfolding recovered_row
  row_budget x now r = ground arith

  recovered_budget :
      (x : String) (now : ℕ) (rs : List ReplayRow)
      → budget (get id (map (recovered_row x now) rs)) ≤ budget (get id rs)
  unfolding get
  recovered_budget x now [] = omega arith
  recovered_budget x now (r ∷ rs) = elim (Bool-cases (str_eq r.id id)) [
    | inl e ↦ rw (recovered-id x now r) (rw e (row_budget x now r))
    | inr e ↦ rw (recovered-id x now r) (rw e (recovered_budget x now rs))
  ]

  none_recoverable : (rs : List ReplayRow) → has_row id rs ≡ false → first_recoverable id rs ≡ none
  unfolding has_row first_recoverable is_recoverable
  none_recoverable [] h = refl
  none_recoverable (r ∷ rs) h = ground (arith, none_recoverable rs)

  spent_row :
      (now : ℕ) (r : ReplayRow)
      → is_recoverable id r ≡ true
      → budget (some (recovered_row id now r)) + 1 ≤ budget (some r)
  unfolding recovered_row is_recoverable
  spent_row now r h = ground arith

  other_row : (r : ReplayRow) → str_eq r.id id ≡ false → is_recoverable id r ≡ false
  unfolding is_recoverable
  other_row r e = rw e refl

  rest_there :
      (b : Bool) (r : ReplayRow) (o : Option ReplayRow)
      → is_there (if b then some r else o) ≡ true
      → b ≡ false
      → is_there o ≡ true
  rest_there true r o h e = absurd (cc)
  rest_there false r o h e = h

  -- With distinct identifiers the first recoverable row is the row of the identifier.
  first_is :
      (r : ReplayRow) (rs : List ReplayRow)
      → Unique (r ∷ rs)
      → str_eq r.id id ≡ true
      → is_there (first_recoverable id (r ∷ rs)) ≡ true
      → is_recoverable id r ≡ true
  unfolding Unique first_recoverable
  first_is r rs u e h = elim (Bool-cases (is_recoverable id r)) [
    | inl k ↦ k
    | inr k ↦ absurd (
        false≢true (
          sym (
            ap is_there
              (none_recoverable rs (subst (λ x. has_row x rs ≡ false) (str_eq-true r.id id e) u.0)))
          ∙ rest_there (is_recoverable id r) r _ h k))
  ]

  spent_budget :
      (now : ℕ) (rs : List ReplayRow)
      → Unique rs
      → is_there (first_recoverable id rs) ≡ true
      → budget (get id (map (recovered_row id now) rs)) + 1 ≤ budget (get id rs)
  unfolding get first_recoverable Unique
  spent_budget now [] u h = absurd (cc)
  spent_budget now (r ∷ rs) u h = elim (Bool-cases (str_eq r.id id)) [
    | inl e ↦ rw (recovered-id id now r) (rw e (spent_row now r (first_is r rs u e h)))
    | inr e ↦
        rw (recovered-id id now r)
          (rw e (spent_budget now rs u.1 (rest_there (is_recoverable id r) r _ h (other_row r e))))
  ]

  data_there : (o : Option ReplayRow) → is_there (data_of o) ≡ true → is_there o ≡ true
  data_there none h = h
  data_there (some r) h = refl

  recover_budget :
      (x : String) (now : ℕ) (rs : List ReplayRow)
      → Unique rs
      → (b : Bool) → (str_eq x id && is_there (data_of (first_recoverable x rs))) ≡ b
      → (if b then 1 else 0) + budget (get id (map (recovered_row x now) rs)) ≤ budget (get id rs)
  recover_budget x now rs u false e = omega (arith, recovered_budget x now rs)
  recover_budget x now rs u true e =
      let (a, b) = and_true (str_eq x id) _ e in
      let p = str_eq-true x id a in
      let there = subst (λ y. is_there (first_recoverable y rs) ≡ true) p (data_there _ b) in
      let spent =
        subst (λ y. budget (get id (map (recovered_row y now) rs)) + 1 ≤ budget (get id rs)) (sym p)
          (spent_budget now rs u there) in
      omega (arith, spent)

  -- The releases of a call come out of the budget.
  call_budget :
      (c : FenceCall) (rs : List ReplayRow)
      → Unique rs
      → releases id c rs + budget (get id (after_call c rs)) ≤ budget (get id rs)
  unfolding releases after_call consume transition recover_signed
  call_budget (asks (consumes x until now)) rs u = omega (arith, consumed_budget x _ now rs)
  call_budget (asks (moves x from to text now)) rs u =
      omega (arith, budget-moved x from to text now rs)
  call_budget (recovers x now) rs u = recover_budget x now rs u _ refl

  call-Unique : (c : FenceCall) (rs : List ReplayRow) → Unique rs → Unique (after_call c rs)
  unfolding after_call recover_signed
  call-Unique (asks q) rs u = sqlite-Unique q rs u
  call-Unique (recovers x now) rs u = Unique-map (recovered_row x now) rs (recovered-id x now) u

  calls_budget :
      (cs : List FenceCall) (rs : List ReplayRow)
      → Unique rs
      → releases_all id cs rs ≤ budget (get id rs)
  unfolding releases_all
  calls_budget [] rs u = omega arith
  calls_budget (c ∷ cs) rs u =
      omega (arith, call_budget c rs u, calls_budget cs (after_call c rs) (call-Unique c rs u))

-- Any number of requests and recoveries releases the signature of an authorization at most once.
pub releases_once :
    (id : String) (cs : List FenceCall) (rs : List ReplayRow)
    → Unique rs
    → releases_all id cs rs ≤ 1
releases_once id cs rs u = omega (arith, calls_budget id cs rs u, budget_bound (get id rs))
