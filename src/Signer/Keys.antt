-- ===== src/Signer/Keys.antt =====
-- Requests keep the identifiers of the rows of the fence distinct (src/signer/replay.ts).

use ari_os.Prelude.Texts.{str_eq-false_sym}
use ari_os.Prelude.{
  ℕ, String, false, List, [], ◌∷◌, ◌++◌, map, Option, none, some, ◌≡◌, refl, arith, Bool-cases, inl,
  inr, or_false, str_eq,
}
use ari_os.Prelude.Int.{ℤ}
use ari_os.Signer.Replay.{ReplayRow, has_row, claimed_row, insert_or_ignore, consume_until}
use ari_os.Signer.Fence.{Unique}

-- A change that keeps identifiers.
pub has_row-map :
    (f : ReplayRow → ReplayRow) (x : String) (rs : List ReplayRow)
    → ((r : ReplayRow) → (f r).id ≡ r.id)
    → has_row x (map f rs) ≡ has_row x rs
unfolding has_row
has_row-map f x [] k = refl
has_row-map f x (r ∷ rs) k = rw (k r) (rw (has_row-map f x rs k) refl)

pub Unique-map :
    (f : ReplayRow → ReplayRow) (rs : List ReplayRow)
    → ((r : ReplayRow) → (f r).id ≡ r.id)
    → Unique rs
    → Unique (map f rs)
unfolding Unique
Unique-map f [] k h = tt
Unique-map f (r ∷ rs) k h = (rw (k r) (rw (has_row-map f r.id rs k) h.0), Unique-map f rs k h.1)

push-has_row :
    (x : String) (rs : List ReplayRow) (r : ReplayRow)
    → has_row x rs ≡ false
    → str_eq r.id x ≡ false
    → has_row x (rs ++ r ∷ []) ≡ false
unfolding has_row
push-has_row x [] r h k = rw k refl
push-has_row x (q ∷ rs) r h k = ground (arith, push-has_row x rs r)

push-Unique :
    (rs : List ReplayRow) (r : ReplayRow)
    → Unique rs
    → has_row r.id rs ≡ false
    → Unique (rs ++ r ∷ [])
unfolding Unique has_row
push-Unique [] r h k = (refl, tt)
push-Unique (q ∷ rs) r h k =
    let (a, b) = or_false (str_eq q.id r.id) (has_row r.id rs) k in
    (push-has_row q.id rs r h.0 (str_eq-false_sym q.id r.id a), push-Unique rs r h.1 b)

insert-Unique :
    (id : String) (expires_at : ℤ) (now : ℕ) (rs : List ReplayRow)
    → Unique rs
    → Unique (insert_or_ignore id expires_at now rs).1
unfolding insert_or_ignore
insert-Unique id expires_at now rs h = elim (Bool-cases (has_row id rs)) [
  | inl e ↦ rw e h
  | inr e ↦ rw e (push-Unique rs (claimed_row id expires_at now) h e)
]

pub consume-Unique :
    (id : String) (expires_at : Option ℤ) (now : ℕ) (rs : List ReplayRow)
    → Unique rs
    → Unique (consume_until id expires_at now rs).1
unfolding consume_until
consume-Unique id none now rs h = h
consume-Unique id (some n) now rs h = elim (Bool-cases (str_eq id "")) [
  | inl e ↦ rw e h
  | inr e ↦ rw e (insert-Unique id n now rs h)
]
