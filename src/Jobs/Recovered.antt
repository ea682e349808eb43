-- ===== src/Jobs/Recovered.antt =====
-- The recovery of expired leases ends, and leaves none (`claim` of src/autonomy/jobs/index.ts).
use mathlib.Core.Path.{subst}
use mathlib.Core.Option.{some-injective}
use text.Mathlib.TextPositions.{eq_refl}
use ari_os.Prelude.{
  ℕ, zero, suc, ◌+◌, ◌≤◌, Bool, true, false, ◌&&◌, List, [], ◌∷◌, length, Option, none, some,
  Result, ok, err, ◌≡◌, ◌⊎◌, refl, sym, ap, ◌∙◌, arith, Bool-cases, inl, inr, ◌==◌,
}
use ari_os.Jobs.{JobRow, JobQueue, JobError, is_running, set_where, count_where, count_attempts}
use ari_os.Jobs.Claim.{
  is_before, earlier, first_by_schedule, has_expired, recovered_status, recovered_job, runs_as,
  recover_one, recover_turn, recover_next, recover, lease_of,
}

earlier_cases : (r : JobRow) (o : Option JobRow) → (earlier r o ≡ some r) ⊎ (earlier r o ≡ o)
unfolding earlier
earlier_cases r none = inl refl
earlier_cases r (some q) = elim (Bool-cases (is_before q r)) [
  | inl e ↦ inr (rw e refl)
  | inr e ↦ inl (rw e refl)
]

first_step :
    (p : JobRow → Bool) (r : JobRow) (rows : List JobRow)
    → p r ≡ true
    → first_by_schedule p (r ∷ rows) ≡ earlier r (first_by_schedule p rows)
unfolding first_by_schedule
first_step p r rows e = rw e refl

first_skip :
    (p : JobRow → Bool) (r : JobRow) (rows : List JobRow)
    → p r ≡ false
    → first_by_schedule p (r ∷ rows) ≡ first_by_schedule p rows
unfolding first_by_schedule
first_skip p r rows e = rw e refl

module _ (p m : JobRow → Bool) where
  both : JobRow → Bool
  both row = p row && m row

  -- Rows that a change takes out of `p`.
  count-set_where :
      (f : JobRow → JobRow) (rows : List JobRow)
      → ((row : JobRow) → m row ≡ true → p (f row) ≡ false)
      → count_where p (set_where m f rows) + count_where both rows ≤ count_where p rows
  unfolding count_where set_where both
  count-set_where f [] h = omega arith
  count-set_where f (row ∷ rows) h = ground (arith, h row, count-set_where f rows h)

  both_rest :
      (r : JobRow) (rows : List JobRow) → count_where both rows ≤ count_where both (r ∷ rows)
  unfolding count_where
  both_rest r rows = omega arith

  both_here :
      (r row : JobRow) (rows : List JobRow)
      → row ≡ r
      → p r ≡ true
      → m row ≡ true
      → (p row ≡ true) × (1 ≤ count_where both (r ∷ rows))
  unfolding count_where both
  both_here r row rows e h k = (rw e h, rw h (rw (subst (λ x. m x ≡ true) e k) (omega arith)))

  -- The row that is selected counts.
  count_first :
      (row : JobRow) (rows : List JobRow)
      → first_by_schedule p rows ≡ some row
      → m row ≡ true
      → (p row ≡ true) × (1 ≤ count_where both rows)
  count_first row [] h k = absurd (unfold first_by_schedule in cc)
  count_first row (r ∷ rows) h k = elim (Bool-cases (p r)) [
    | inl e ↦ elim (earlier_cases r (first_by_schedule p rows)) [
      | inl c ↦
          both_here r row rows
            (sym (some-injective r row (sym c ∙ sym (first_step p r rows e) ∙ h))) e k
      | inr c ↦
          let (a, b) = count_first row rows (sym c ∙ sym (first_step p r rows e) ∙ h) k in
          (a, omega (arith, b, both_rest r rows))
    ]
    | inr e ↦
        let (a, b) = count_first row rows (sym (first_skip p r rows e) ∙ h) k in
        (a, omega (arith, b, both_rest r rows))
  ]

earlier-some : (r : JobRow) (o : Option JobRow) → earlier r o ≡ none → ⊥
unfolding earlier
earlier-some r none h = cc
earlier-some r (some q) h = elim (Bool-cases (is_before q r)) [
  | inl e ↦ absurd (ground (arith, e, h))
  | inr e ↦ absurd (ground (arith, e, h))
]

pub count_none :
    (p : JobRow → Bool) (rows : List JobRow)
    → first_by_schedule p rows ≡ none
    → count_where p rows ≡ 0
unfolding count_where
count_none p [] h = refl
count_none p (r ∷ rows) h = elim (Bool-cases (p r)) [
  | inl e ↦ absurd (earlier-some r (first_by_schedule p rows) (sym (first_step p r rows e) ∙ h))
  | inr e ↦ rw e (omega (arith, count_none p rows (sym (first_skip p r rows e) ∙ h)))
]

any_row : JobRow → Bool
any_row row = true

first_taken :
    (p : JobRow → Bool) (r : JobRow) (rows : List JobRow)
    → first_by_schedule p rows ≡ some r
    → p r ≡ true
first_taken p r rows h = (count_first p any_row r rows h (unfold any_row in refl)).0

runs_as_self : (now : ℕ) (r : JobRow) → has_expired now r ≡ true → runs_as r r ≡ true
unfolding has_expired runs_as
runs_as_self now r h = rw (eq_refl r.id) (ground (arith, h))

recovered-ends : (now : ℕ) (r row : JobRow) → has_expired now (recovered_job now r row) ≡ false
unfolding has_expired recovered_job recovered_status is_running
recovered-ends now r row = ground arith

abbrev jobs_of : Result JobError JobQueue → List JobRow
jobs_of (ok q) = q.jobs
jobs_of (err e) = []

pub recover_one-jobs :
    (now : ℕ) (r : JobRow) (q after : JobQueue)
    → recover_one now r q ≡ ok after
    → after.jobs ≡ set_where (runs_as r) (recovered_job now r) q.jobs
unfolding recover_one
recover_one-jobs now r q after h = elim (Bool-cases (count_attempts (lease_of r) q.attempts == 1)) [
  | inl a ↦ elim (Bool-cases (count_where (runs_as r) q.jobs == 1)) [
    | inl b ↦ sym (ap jobs_of h) ∙ rw a (rw b refl)
    | inr b ↦ absurd (ground (arith, a, b, h))
  ]
  | inr a ↦ absurd (ground (arith, a, h))
]

-- A turn ends at least one expired lease.
turn_ends :
    (now : ℕ) (r : JobRow) (q after : JobQueue)
    → first_by_schedule (has_expired now) q.jobs ≡ some r
    → recover_one now r q ≡ ok after
    → count_where (has_expired now) after.jobs + 1 ≤ count_where (has_expired now) q.jobs
turn_ends now r q after f h =
    let jobs = recover_one-jobs now r q after h in
    let taken = first_taken (has_expired now) r q.jobs f in
    let (a, b) = count_first (has_expired now) (runs_as r) r q.jobs f (runs_as_self now r taken) in
    rw jobs (
      omega (
        arith,
        b,
        count-set_where (has_expired now) (runs_as r) (recovered_job now r) q.jobs
            (λ row k. recovered-ends now r row),
      ))

pub turn_through :
    (again : JobQueue → Result JobError JobQueue) (x : Result JobError JobQueue) (after : JobQueue)
    → recover_turn again x ≡ ok after
    → (next : JobQueue) × (x ≡ ok next) × (again next ≡ ok after)
unfolding recover_turn
turn_through again (ok q) after h = (q, refl, h)
turn_through again (err e) after h = absurd (cc)

abbrev expired : ℕ → JobQueue → ℕ
expired now q = count_where (has_expired now) q.jobs

-- One turn of the loop, when the turns after it leave none of the leases that it leaves.
next_ends :
    (now fuel : ℕ) (again : JobQueue → Result JobError JobQueue) (q after : JobQueue)
    (o : Option JobRow)
    → ((r : JobQueue) → expired now r ≤ fuel → again r ≡ ok after → expired now after ≡ 0)
    → first_by_schedule (has_expired now) q.jobs ≡ o
    → expired now q ≤ suc fuel
    → recover_next now o again q ≡ ok after
    → expired now after ≡ 0
unfolding recover_next
next_ends now fuel again q after none ih f h e =
    subst (λ rows. count_where (has_expired now) rows ≡ 0) (ap jobs_of e)
      (count_none (has_expired now) q.jobs f)
next_ends now fuel again q after (some r) ih f h e =
    let (next, a, b) = turn_through again (recover_one now r q) after e in
    ih next (omega (arith, turn_ends now r q next f a)) b

recover_ends :
    (now fuel : ℕ) (q after : JobQueue)
    → expired now q ≤ fuel
    → recover fuel now q ≡ ok after
    → expired now after ≡ 0
unfolding recover
recover_ends now zero q after h e =
    subst (λ rows. count_where (has_expired now) rows ≡ 0) (ap jobs_of e) (omega (arith, h))
recover_ends now (suc fuel) q after h e =
    next_ends now fuel (λ r. recover fuel now r) q after _ (λ r. recover_ends now fuel r after) refl
      h e

count_length : (p : JobRow → Bool) (rows : List JobRow) → count_where p rows ≤ length rows
unfolding count_where
count_length p [] = omega arith
count_length p (r ∷ rows) = ground (arith, count_length p rows)

-- With as many turns as there are jobs, a recovery that does not throw leaves no lease expired.
pub recover-length :
    (now : ℕ) (q after : JobQueue)
    → recover (length q.jobs) now q ≡ ok after
    → count_where (has_expired now) after.jobs ≡ 0
recover-length now q after e =
    recover_ends now (length q.jobs) q after (count_length (has_expired now) q.jobs) e
