-- ===== src/Signer/Written.antt =====
-- What a transition writes is what is read back (`transition`, `get` of src/signer/replay.ts).
use mathlib.Core.Path.{subst}
use ari_os.Prelude.Texts.{str_eq-true}
use ari_os.Prelude.{
  ℕ, ◌+◌, String, Bool, true, false, List, [], ◌∷◌, map, Option, some, ◌≡◌, refl, sym, ap, ◌∙◌,
  arith, Bool-cases, inl, inr, str_eq, ◌==◌,
}
use ari_os.Signer.State.{ExecutionState}
use ari_os.Signer.Replay.{ReplayRow, has_row, is_in_state, moved, count_in_state, transition, get}
use ari_os.Signer.Fence.{Unique, moved-id, count_none}

module _ (id : String) (from to : ExecutionState) (text : Option String) (now : ℕ) where
  abbrev change : ReplayRow → ReplayRow
  change = moved id from to text now

  -- The row of the identifier, before and after.
  record Moved (rs : List ReplayRow) : Type 0 where
    row : ReplayRow
    before : get id rs ≡ some row
    expected : is_in_state id from row ≡ true
    after : get id (map change rs) ≡ some (change row)

  here :
      (r : ReplayRow) (rs : List ReplayRow)
      → str_eq r.id id ≡ true
      → has_row r.id rs ≡ false
      → (count_in_state id from (r ∷ rs) == 1) ≡ true
      → (there : Bool) → is_in_state id from r ≡ there
      → Moved (r ∷ rs)
  unfolding get count_in_state
  here r rs e u h true k = record {
    row = r;
    before = rw e refl;
    expected = k;
    after = rw (moved-id id from to text now r) (rw e refl);
  }
  here r rs e u h false k = absurd (
      ground (
        arith,
        k,
        h,
        count_none id from rs (subst (λ x. has_row x rs ≡ false) (str_eq-true r.id id e) u),
      ))

  skip_count :
      (r : ReplayRow) (rs : List ReplayRow)
      → str_eq r.id id ≡ false
      → count_in_state id from (r ∷ rs) ≡ count_in_state id from rs
  unfolding count_in_state is_in_state
  skip_count r rs e = rw e (omega arith)

  there : (r : ReplayRow) (rs : List ReplayRow) → str_eq r.id id ≡ false → Moved rs → Moved (r ∷ rs)
  unfolding get
  there r rs e m = record {
    row = m.row;
    before = rw e m.before;
    expected = m.expected;
    after = rw (moved-id id from to text now r) (rw e m.after);
  }

  find : (rs : List ReplayRow) → Unique rs → (count_in_state id from rs == 1) ≡ true → Moved rs
  unfolding Unique
  find [] u h = absurd (unfold count_in_state in cc)
  find (r ∷ rs) u h = elim (Bool-cases (str_eq r.id id)) [
    | inl e ↦ here r rs e u.0 h _ refl
    | inr e ↦ there r rs e (find rs u.1 (sym (ap (λ n. n == 1) (skip_count r rs e)) ∙ h))
  ]

-- A row as a transition leaves it.
pub record ReadsBack (id : String) (to : ExecutionState) (text : Option String) (now : ℕ)
    (before after : List ReplayRow) : Type 0 where
  pub old : ReplayRow
  pub new : ReplayRow
  pub was : get id before ≡ some old
  pub is : get id after ≡ some new
  pub state : new.state ≡ to
  pub data_text : new.data_text ≡ text
  pub version : new.version ≡ old.version + 1
  pub updated_at : new.updated_at ≡ now
  pub recovered : new.recovered ≡ old.recovered

-- In a table with distinct identifiers, a transition that answers true is read back: the new state and
-- data, the next version and the time, and whether the signature was released as it was.
pub transition-ReadsBack :
    (id : String) (from to : ExecutionState) (text : Option String) (now : ℕ) (rs : List ReplayRow)
    → Unique rs
    → (transition id from to text now rs).0 ≡ true
    → ReadsBack id to text now rs (transition id from to text now rs).1
unfolding transition moved
transition-ReadsBack id from to text now rs u h =
    let m = find id from to text now rs u h in
    record {
      old = m.row;
      new = record m.row {
        state = to;
        data_text = text;
        version = m.row.version + 1;
        updated_at = now;
      };
      was = m.before;
      is = m.after ∙ rw m.expected refl;
      state = refl;
      data_text = refl;
      version = refl;
      updated_at = refl;
      recovered = refl;
    }
