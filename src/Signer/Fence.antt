-- ===== src/Signer/Fence.antt =====
-- The one-time fence that both replay stores implement (src/signer/replay.ts, authorization.ts): what
-- an authorization's state is, as a function of its identifier.
use mathlib.Core.Path.{subst}
use mathlib.Core.Bool.{false≢true}
use text.Mathlib.TextPositions.{eq_refl}
use ari_os.Prelude.Texts.{str_eq-true, str_eq-false_sym}
use ari_os.Prelude.{
  ℕ, String, Bool, true, false, not, ◌&&◌, List, [], ◌∷◌, ◌++◌, map, Option, none, some, ◌≡◌, refl,
  sym, ap, ◌∙◌, arith, Bool-cases, inl, inr, str_eq, ◌==◌, if◌then◌else◌,
}
use ari_os.Prelude.Int.{ℤ}
use ari_os.Signer.State.{ExecutionState, claimed, same_state}
use ari_os.Signer.Replay.{
  ReplayRow, has_row, claimed_row, insert_or_ignore, is_in_state, moved, count_in_state, transition,
  is_there, is_at,
}

abbrev pub Fence : Type 0
Fence = String → Option ExecutionState

-- The fence with a state set.
abbrev pub fence_set : String → ExecutionState → Bool → Fence → Fence
fence_set id state done f x = if str_eq x id && done then some state else f x

-- An authorization is claimed when it has no state yet.
abbrev pub fence_consume : String → Fence → Bool × Fence
fence_consume id f = (not (is_there (f id)), fence_set id claimed (not (is_there (f id))) f)

-- A state moves on only from the one that the caller expects.
abbrev pub fence_transition : String → ExecutionState → ExecutionState → Fence → Bool × Fence
fence_transition id from to f = (is_at from (f id), fence_set id to (is_at from (f id)) f)

-- The fence of a table: the state of the row of an identifier.
unfoldable pub state_at : List ReplayRow → Fence
state_at [] x = none
state_at (r ∷ rs) x = let rest = state_at rs x in if str_eq r.id x then some r.state else rest

-- The primary key.
unfoldable pub Unique : List ReplayRow → Type 0
unfolding has_row
Unique [] = Unit
Unique (r ∷ rs) = (has_row r.id rs ≡ false) × Unique rs

pub same_text : (k id x : String) → str_eq k x ≡ true → str_eq k id ≡ str_eq x id
same_text k id x e = ap (λ y. str_eq y id) (str_eq-true k x e)

pub other_text : (k id x : String) → str_eq k x ≡ false → str_eq x id ≡ true → str_eq k id ≡ false
other_text k id x e h = subst (λ y. str_eq k y ≡ false) (str_eq-true x id h) e

-- One row of a transition, against the fence of the row and the rest. The tests: the row is at `x`, the
-- row is at `id`, `x` is `id`, the row is in the expected state.
moved_step :
    (at_x at_id is_id expected : Bool) (state from to : ExecutionState)
    (rest_id rest_x after : Option ExecutionState)
    → same_state state from ≡ expected
    → (at_x ≡ true → at_id ≡ is_id)
    → (at_x ≡ false → is_id ≡ true → at_id ≡ false)
    → after ≡ (if is_id && is_at from rest_id then some to else rest_x)
    → (if at_x then some (if at_id && expected then to else state) else after) ≡ (
        if is_id && is_at from (if at_id then some state else rest_id)
        then some to
        else if at_x
        then some state
        else rest_x)
moved_step true true true true state from to rest_id rest_x after e h k a = rw e refl
moved_step true true true false state from to rest_id rest_x after e h k a = rw e refl
moved_step true true false expected state from to rest_id rest_x after e h k a =
    absurd (false≢true (sym (h refl)))
moved_step true false true expected state from to rest_id rest_x after e h k a =
    absurd (false≢true (h refl))
moved_step true false false expected state from to rest_id rest_x after e h k a = refl
moved_step false true true expected state from to rest_id rest_x after e h k a =
    absurd (false≢true (sym (k refl refl)))
moved_step false false true expected state from to rest_id rest_x after e h k a = a
moved_step false true false expected state from to rest_id rest_x after e h k a = a
moved_step false false false expected state from to rest_id rest_x after e h k a = a

moved-state :
    (id : String) (from to : ExecutionState) (text : Option String) (now : ℕ) (r : ReplayRow)
    → (moved id from to text now r).state
      ≡ (if str_eq r.id id && same_state r.state from then to else r.state)
unfolding moved is_in_state
moved-state id from to text now r = ground arith

pub moved-id :
    (id : String) (from to : ExecutionState) (text : Option String) (now : ℕ) (r : ReplayRow)
    → (moved id from to text now r).id ≡ r.id
unfolding moved
moved-id id from to text now r = ground arith

state_at-moved :
    (id : String) (from to : ExecutionState) (text : Option String) (now : ℕ) (rs : List ReplayRow)
    (x : String)
    → state_at (map (moved id from to text now) rs) x
      ≡ (if str_eq x id && is_at from (state_at rs id) then some to else state_at rs x)
unfolding state_at
state_at-moved id from to text now [] x = ground arith
state_at-moved id from to text now (r ∷ rs) x = rw (moved-id id from to text now r) (
    rw (moved-state id from to text now r) (
      moved_step (str_eq r.id x) (str_eq r.id id) (str_eq x id) (same_state r.state from) r.state
        from to (state_at rs id) (state_at rs x) (state_at (map (moved id from to text now) rs) x)
        refl (same_text r.id id x) (other_text r.id id x)
        (state_at-moved id from to text now rs x)))

pub count_none :
    (id : String) (from : ExecutionState) (rs : List ReplayRow)
    → has_row id rs ≡ false
    → count_in_state id from rs ≡ 0
unfolding has_row count_in_state is_in_state
count_none id from [] h = refl
count_none id from (r ∷ rs) h = ground (arith, count_none id from rs)

-- With distinct identifiers a transition changes one row exactly when the fence is in the state.
count_one :
    (id : String) (from : ExecutionState) (rs : List ReplayRow)
    → Unique rs
    → (count_in_state id from rs == 1) ≡ is_at from (state_at rs id)
unfolding Unique count_in_state is_in_state state_at
count_one id from [] h = refl
count_one id from (r ∷ rs) h = elim (Bool-cases (str_eq r.id id)) [
  | inl e ↦ ground (
    arith,
    e,
    count_none id from rs (subst (λ x. has_row x rs ≡ false) (str_eq-true r.id id e) h.0),
  )
  | inr e ↦ rw e (rw (sym (count_one id from rs h.1)) (ground arith))
]

pub has_row-is_there :
    (id : String) (rs : List ReplayRow) → has_row id rs ≡ is_there (state_at rs id)
unfolding has_row state_at
has_row-is_there id [] = refl
has_row-is_there id (r ∷ rs) = elim (Bool-cases (str_eq r.id id)) [
  | inl e ↦ rw e refl
  | inr e ↦ rw e (has_row-is_there id rs)
]

not_there :
    (b : Bool) (s : ExecutionState) (o : Option ExecutionState)
    → is_there (if b then some s else o) ≡ false
    → (b ≡ false) × (is_there o ≡ false)
not_there true s o h = absurd (cc)
not_there false s o h = (refl, h)

state_at-push :
    (rs : List ReplayRow) (r : ReplayRow) (x : String)
    → is_there (state_at rs x) ≡ false
    → state_at (rs ++ r ∷ []) x ≡ (if str_eq r.id x then some r.state else none)
unfolding state_at
state_at-push [] r x h = refl
state_at-push (q ∷ rs) r x h =
    let (a, b) = not_there (str_eq q.id x) q.state (state_at rs x) h in
    rw a (state_at-push rs r x b)

state_at-append :
    (rs : List ReplayRow) (r : ReplayRow) (x : String)
    → str_eq r.id x ≡ false
    → state_at (rs ++ r ∷ []) x ≡ state_at rs x
unfolding state_at
state_at-append [] r x h = rw h refl
state_at-append (q ∷ rs) r x h = rw (state_at-append rs r x h) refl

-- The fence after a claim of an identifier without a row.
state_at-claimed :
    (id : String) (expires_at : ℤ) (now : ℕ) (rs : List ReplayRow) (x : String)
    → is_there (state_at rs id) ≡ false
    → state_at (rs ++ claimed_row id expires_at now ∷ []) x
      ≡ (if str_eq x id then some claimed else state_at rs x)
state_at-claimed id expires_at now rs x h = elim (Bool-cases (str_eq x id)) [
  | inl e ↦ rw e (
      subst (λ y. state_at (rs ++ claimed_row id expires_at now ∷ []) y ≡ some claimed)
        (sym (str_eq-true x id e))
        (state_at-push rs (claimed_row id expires_at now) id h ∙ rw (eq_refl id) refl))
  | inr e ↦ rw e (state_at-append rs (claimed_row id expires_at now) x (str_eq-false_sym x id e))
]

-- A state and an answer of a store, seen as those of the fence.
pub record Refines {S : Type 0} (view : S → Fence) (r : Bool × S) (abstract : Bool × Fence)
    : Type 0 where
  pub answered : r.0 ≡ abstract.0
  pub left : (x : String) → view r.1 x ≡ abstract.1 x

pub unset_eq : {A : Type 0} (b : Bool) (x y : A) → y ≡ (if b && false then x else y)
unset_eq true x y = refl
unset_eq false x y = refl

pub set_eq : {A : Type 0} (b : Bool) (x y : A) → (if b then x else y) ≡ (if b && true then x else y)
set_eq true x y = refl
set_eq false x y = refl

pub insert-Refines :
    (id : String) (expires_at : ℤ) (now : ℕ) (rs : List ReplayRow)
    → Refines state_at (insert_or_ignore id expires_at now rs) (fence_consume id (state_at rs))
unfolding insert_or_ignore
insert-Refines id expires_at now rs = elim (Bool-cases (is_there (state_at rs id))) [
  | inl e ↦ rw (has_row-is_there id rs) (
      rw e (record {
        answered = refl;
        left = λ x. unset_eq (str_eq x id) (some claimed) (state_at rs x);
      }))
  | inr e ↦ rw (has_row-is_there id rs) (
      rw e (record {
        answered = refl;
        left = λ x.
            state_at-claimed id expires_at now rs x e
            ∙ set_eq (str_eq x id) (some claimed) (state_at rs x);
      }))
]

pub transition-Refines :
    (id : String) (from to : ExecutionState) (text : Option String) (now : ℕ) (rs : List ReplayRow)
    → Unique rs
    → Refines state_at
        (transition id from to text now rs)
        (fence_transition id from to (state_at rs))
unfolding transition
transition-Refines id from to text now rs h = record {
  answered = count_one id from rs h;
  left = λ x. state_at-moved id from to text now rs x;
}
