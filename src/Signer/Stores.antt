-- ===== src/Signer/Stores.antt =====
-- Both replay stores answer as the fence does, request after request (src/signer/replay.ts and
-- authorization.ts).
use mathlib.Core.Path.{fun_ext}
use ari_os.Prelude.Maps.{map_get, map_get-set}
use ari_os.Prelude.{
  ℕ, String, Bool, true, false, not, ◌&&◌, List, [], ◌∷◌, Option, none, some, All, ◌≡◌, refl, sym,
  ap, ◌∙◌, arith, Bool-cases, inl, inr, str_eq,
}
use ari_os.Prelude.Int.{ℤ}
use ari_os.Prelude.Number.{Number, integer_of}
use ari_os.Signer.State.{ExecutionState, claimed}
use ari_os.Signer.Replay.{
  ReplayRow, consume_until, consume, safe_integer, moved, transition, MemoryStore, is_there,
  memory_consume, is_at, memory_transition,
}
use ari_os.Signer.Keys.{Unique-map, consume-Unique}
use ari_os.Signer.Fence.{
  Fence, moved-id, fence_consume, fence_transition, state_at, Unique, Refines, insert-Refines,
  transition-Refines, unset_eq, set_eq,
}

-- A request that changes a store, at a moment. The data that `get` reads is not compared: the stores
-- differ on a transition without data, which sets the column to NULL and leaves the map's data.
pub data FenceRequest : Type 0 where
  consumes : String → Number → ℕ → FenceRequest
  moves : String → ExecutionState → ExecutionState → Option String → ℕ → FenceRequest

-- An authorization is asked for by a text that is not empty, until a safe integer.
abbrev is_some : Option ℤ → Bool
is_some none = false
is_some (some n) = true

abbrev pub is_well_formed : FenceRequest → Bool
is_well_formed (consumes id expires_at now) =
    not (str_eq id "") && is_some (safe_integer (integer_of expires_at))
is_well_formed (moves id from to text now) = true

abbrev pub in_sqlite : FenceRequest → List ReplayRow → Bool × List ReplayRow
in_sqlite (consumes id expires_at now) rs = consume id expires_at now rs
in_sqlite (moves id from to text now) rs = transition id from to text now rs

abbrev pub in_memory : FenceRequest → MemoryStore → Bool × MemoryStore
in_memory (consumes id expires_at now) s = memory_consume id s
in_memory (moves id from to text now) s = memory_transition id from to text s

abbrev pub in_fence : FenceRequest → Fence → Bool × Fence
in_fence (consumes id expires_at now) f = fence_consume id f
in_fence (moves id from to text now) f = fence_transition id from to f

-- The answers to requests one after the other.
unfoldable pub answers :
    {S : Type 0} → (FenceRequest → S → Bool × S) → List FenceRequest → S → List Bool
answers step [] s = []
answers step (q ∷ qs) s = (step q s).0 ∷ answers step qs (step q s).1

-- What the requests leave.
unfoldable pub left_by : {S : Type 0} → (FenceRequest → S → Bool × S) → List FenceRequest → S → S
left_by step [] s = s
left_by step (q ∷ qs) s = left_by step qs (step q s).1

consume_until-Refines :
    (id : String) (expires_at : Option ℤ) (now : ℕ) (rs : List ReplayRow)
    → (not (str_eq id "") && is_some expires_at) ≡ true
    → Refines state_at (consume_until id expires_at now rs) (fence_consume id (state_at rs))
unfolding consume_until
consume_until-Refines id none now rs h = absurd (ground arith)
consume_until-Refines id (some n) now rs h = elim (Bool-cases (str_eq id "")) [
  | inl e ↦ absurd (ground (arith, e, h))
  | inr e ↦ rw e (insert-Refines id n now rs)
]

sqlite-Refines :
    (q : FenceRequest) (rs : List ReplayRow)
    → is_well_formed q ≡ true
    → Unique rs
    → Refines state_at (in_sqlite q rs) (in_fence q (state_at rs))
unfolding consume
sqlite-Refines (consumes id expires_at now) rs h u = consume_until-Refines id _ now rs h
sqlite-Refines (moves id from to text now) rs h u = transition-Refines id from to text now rs u

abbrev pub in_states : MemoryStore → Fence
in_states s x = map_get x s.states

memory-Refines :
    (q : FenceRequest) (s : MemoryStore)
    → Refines in_states (in_memory q s) (in_fence q (in_states s))
unfolding memory_consume memory_transition
memory-Refines (consumes id expires_at now) s = elim (Bool-cases (is_there (map_get id s.states))) [
  | inl e ↦ rw e (record {
    answered = refl;
    left = λ x. unset_eq (str_eq x id) (some claimed) (map_get x s.states);
  })
  | inr e ↦ rw e (record {
    answered = refl;
    left = λ x.
        map_get-set id x claimed s.states
        ∙ set_eq (str_eq x id) (some claimed) (map_get x s.states);
  })
]
memory-Refines (moves id from to text now) s =
    elim (Bool-cases (is_at from (map_get id s.states))) [
      | inl e ↦ rw e (record {
        answered = refl;
        left =
            λ x. map_get-set id x to s.states ∙ set_eq (str_eq x id) (some to) (map_get x s.states);
      })
      | inr e ↦ rw e (record {
        answered = refl;
        left = λ x. unset_eq (str_eq x id) (some to) (map_get x s.states);
      })
    ]

pub sqlite-Unique : (q : FenceRequest) (rs : List ReplayRow) → Unique rs → Unique (in_sqlite q rs).1
unfolding consume transition
sqlite-Unique (consumes id expires_at now) rs h = consume-Unique id _ now rs h
sqlite-Unique (moves id from to text now) rs h =
    Unique-map (moved id from to text now) rs (moved-id id from to text now) h

-- A table with distinct identifiers answers well-formed requests as the fence of its states does.
pub sqlite_answers :
    (qs : List FenceRequest) (rs : List ReplayRow)
    → All (λ q. is_well_formed q ≡ true) qs
    → Unique rs
    → answers in_sqlite qs rs ≡ answers in_fence qs (state_at rs)
unfolding answers
sqlite_answers [] rs h u = refl
sqlite_answers (q ∷ qs) rs h u =
    let r = sqlite-Refines q rs h.0 u in
    rw r.answered (
      rw (sqlite_answers qs (in_sqlite q rs).1 h.1 (sqlite-Unique q rs u))
        (ap (λ f. (in_fence q (state_at rs)).0 ∷ answers in_fence qs f) (fun_ext r.left)))

pub memory_answers :
    (qs : List FenceRequest) (s : MemoryStore)
    → answers in_memory qs s ≡ answers in_fence qs (in_states s)
unfolding answers
memory_answers [] s = refl
memory_answers (q ∷ qs) s =
    let r = memory-Refines q s in
    rw r.answered (
      rw (memory_answers qs (in_memory q s).1)
        (ap (λ f. (in_fence q (in_states s)).0 ∷ answers in_fence qs f) (fun_ext r.left)))

sqlite_states :
    (qs : List FenceRequest) (rs : List ReplayRow)
    → All (λ q. is_well_formed q ≡ true) qs
    → Unique rs
    → state_at (left_by in_sqlite qs rs) ≡ left_by in_fence qs (state_at rs)
unfolding left_by
sqlite_states [] rs h u = refl
sqlite_states (q ∷ qs) rs h u =
    sqlite_states qs (in_sqlite q rs).1 h.1 (sqlite-Unique q rs u)
    ∙ ap (left_by in_fence qs) (fun_ext (sqlite-Refines q rs h.0 u).left)

memory_states :
    (qs : List FenceRequest) (s : MemoryStore)
    → in_states (left_by in_memory qs s) ≡ left_by in_fence qs (in_states s)
unfolding left_by
memory_states [] s = refl
memory_states (q ∷ qs) s =
    memory_states qs (in_memory q s).1
    ∙ ap (left_by in_fence qs) (fun_ext (memory-Refines q s).left)

abbrev pub empty_map : MemoryStore
empty_map = record { states = []; texts = [] }

-- A store, seen as a fence, answers the requests as the fence does and is left with its states.
pub record Implements {S : Type 0} (step : FenceRequest → S → Bool × S) (view : S → Fence)
    (qs : List FenceRequest) (s : S) (f : Fence) : Type 0 where
  pub answered : answers step qs s ≡ answers in_fence qs f
  pub states : view (left_by step qs s) ≡ left_by in_fence qs f

-- The fence in which nothing is claimed yet.
abbrev pub no_claims : Fence
no_claims x = none

-- Started empty, the table and the map both implement, for any well-formed claims and transitions, the
-- fence in which nothing is claimed: they give its answers, each other's therefore, and hold its states.
-- The data kept with a state is not compared.
pub stores_agree :
    (qs : List FenceRequest)
    → All (λ q. is_well_formed q ≡ true) qs
    → Implements in_sqlite state_at qs [] no_claims
      × Implements in_memory in_states qs empty_map no_claims
      × (answers in_sqlite qs [] ≡ answers in_memory qs empty_map)
unfolding state_at map_get Unique
stores_agree qs h =
    let a = sqlite_answers qs [] h tt in
    let b = memory_answers qs empty_map in
    (
      record { answered = a; states = sqlite_states qs [] h tt },
      record { answered = b; states = memory_states qs empty_map },
      a ∙ sym b,
    )
