-- ===== src/Jobs/Keys.antt =====
-- The primary key of the jobs, and the row that a claim writes (src/autonomy/jobs/index.ts).
use mathlib.Core.Path.{subst}
use mathlib.Core.Bool.{false≢true}
use ari_os.Prelude.{
  ℕ, zero, suc, String, Bool, true, false, ◌&&◌, ◌||◌, List, [], ◌∷◌, Option, none, some, Result,
  ok, err, ◌≡◌, refl, sym, ap, ◌∙◌, arith, Bool-cases, inl, inr, str_eq, str_eq_iff, ◌==◌,
  if◌then◌else◌,
}
use ari_os.Jobs.{JobRow, JobQueue, JobError, set_where, count_where, job_by_id}
use ari_os.Jobs.Claim.{
  recovered_job, runs_as, recover_one, recover_next, recover, is_due, is_due_job,
}
use ari_os.Jobs.Recovered.{turn_through, recover_one-jobs}

unfoldable pub has_job : String → List JobRow → Bool
has_job id [] = false
has_job id (row ∷ rows) = str_eq row.id id || has_job id rows

-- The primary key.
unfoldable pub Unique : List JobRow → Type 0
unfolding has_job
Unique [] = Unit
Unique (row ∷ rows) = (has_job row.id rows ≡ false) × Unique rows

has_job-set_where :
    (p : JobRow → Bool) (f : JobRow → JobRow) (id : String) (rows : List JobRow)
    → ((r : JobRow) → (f r).id ≡ r.id)
    → has_job id rows ≡ false
    → has_job id (set_where p f rows) ≡ false
unfolding has_job set_where
has_job-set_where p f id [] k h = refl
has_job-set_where p f id (r ∷ rows) k h = ground (arith, k r, has_job-set_where p f id rows k)

set_where-id :
    (b : Bool) (f : JobRow → JobRow) (r : JobRow)
    → (f r).id ≡ r.id
    → (if b then f r else r).id ≡ r.id
set_where-id true f r k = k
set_where-id false f r k = refl

set_where-Unique :
    (p : JobRow → Bool) (f : JobRow → JobRow) (rows : List JobRow)
    → ((r : JobRow) → (f r).id ≡ r.id)
    → Unique rows
    → Unique (set_where p f rows)
unfolding Unique set_where
set_where-Unique p f [] k u = tt
set_where-Unique p f (r ∷ rows) k u = (
  subst (λ id. has_job id (set_where p f rows) ≡ false) (sym (set_where-id (p r) f r (k r)))
      (has_job-set_where p f r.id rows k u.0),
  set_where-Unique p f rows k u.1,
)

recover_one-Unique :
    (now : ℕ) (r : JobRow) (q after : JobQueue)
    → recover_one now r q ≡ ok after
    → Unique q.jobs
    → Unique after.jobs
unfolding recovered_job
recover_one-Unique now r q after h u =
    rw (recover_one-jobs now r q after h)
      (set_where-Unique (runs_as r) (recovered_job now r) q.jobs (λ row. refl) u)

abbrev jobs_of : List JobRow → Result JobError JobQueue → List JobRow
jobs_of rows (ok q) = q.jobs
jobs_of rows (err e) = rows

next-Unique :
    (now : ℕ) (again : JobQueue → Result JobError JobQueue) (q after : JobQueue) (o : Option JobRow)
    → ((r : JobQueue) → again r ≡ ok after → Unique r.jobs → Unique after.jobs)
    → recover_next now o again q ≡ ok after
    → Unique q.jobs
    → Unique after.jobs
unfolding recover_next
next-Unique now again q after none ih e u = subst Unique (ap (jobs_of []) e) u
next-Unique now again q after (some r) ih e u =
    let (next, a, b) = turn_through again (recover_one now r q) after e in
    ih next b (recover_one-Unique now r q next a u)

pub recover-Unique :
    (now fuel : ℕ) (q after : JobQueue)
    → recover fuel now q ≡ ok after
    → Unique q.jobs
    → Unique after.jobs
unfolding recover
recover-Unique now zero q after e u = subst Unique (ap (jobs_of []) e) u
recover-Unique now (suc fuel) q after e u =
    next-Unique now (λ r. recover fuel now r) q after _ (λ r. recover-Unique now fuel r after) e u

no_due :
    (now : ℕ) (id : String) (rows : List JobRow)
    → has_job id rows ≡ false
    → count_where (is_due_job now id) rows ≡ 0
unfolding has_job count_where is_due_job
no_due now id [] h = refl
no_due now id (r ∷ rows) h = ground (arith, no_due now id rows)

due_job :
    (now : ℕ) (id : String) (r : JobRow) (b : Bool)
    → str_eq r.id id ≡ b
    → is_due_job now id r ≡ (b && is_due now r)
unfolding is_due_job
due_job now id r b e = rw e refl

not_one : (n : ℕ) → n ≡ 0 → (n == 1) ≡ false
not_one n h = ground arith

module _ (now : ℕ) (id : String) (f : JobRow → JobRow) where
  abbrev pub Written : List JobRow → Type 0
  Written rows =
      (r : JobRow) × (is_due now r ≡ true)
      × (r.id ≡ id)
      × (job_by_id id (set_where (is_due_job now id) f rows) ≡ some (f r))

  -- The first row, which has the identifier.
  first-Written :
      (r : JobRow) (rows : List JobRow)
      → (f r).id ≡ r.id
      → has_job r.id rows ≡ false
      → str_eq r.id id ≡ true
      → (count_where (is_due_job now id) (r ∷ rows) == 1) ≡ true
      → (due : Bool) → is_due now r ≡ due
      → Written (r ∷ rows)
  unfolding count_where set_where job_by_id
  first-Written r rows k u e h true d =
      (r, d, (str_eq_iff r.id id).0 e, rw (due_job now id r true e) (rw d (rw k (rw e refl))))
  first-Written r rows k u e h false d = absurd (
      false≢true (
        sym (
          not_one (count_where (is_due_job now id) (r ∷ rows)) (
            rw (due_job now id r true e) (
              rw d (
                rw
                  (no_due now id rows
                    (subst (λ x. has_job x rows ≡ false) ((str_eq_iff r.id id).0 e) u))
                  (omega arith)))))
        ∙ h))

  skip_count :
      (r : JobRow) (rows : List JobRow)
      → str_eq r.id id ≡ false
      → count_where (is_due_job now id) (r ∷ rows) ≡ count_where (is_due_job now id) rows
  unfolding count_where
  skip_count r rows e = rw (due_job now id r false e) (omega arith)

  skip_row :
      (r : JobRow) (rows : List JobRow)
      → str_eq r.id id ≡ false
      → job_by_id id (set_where (is_due_job now id) f (r ∷ rows))
        ≡ job_by_id id (set_where (is_due_job now id) f rows)
  unfolding job_by_id set_where
  skip_row r rows e = rw (due_job now id r false e) (rw e refl)

  -- The row that an update of one due job writes is the row of its identifier.
  pub row-Written :
      (rows : List JobRow)
      → ((r : JobRow) → (f r).id ≡ r.id)
      → Unique rows
      → (count_where (is_due_job now id) rows == 1) ≡ true
      → Written rows
  unfolding Unique
  row-Written [] k u h = absurd (unfold count_where in cc)
  row-Written (r ∷ rows) k u h = elim (Bool-cases (str_eq r.id id)) [
    | inl e ↦ first-Written r rows (k r) u.0 e h _ refl
    | inr e ↦
        let (x, a, b, c) =
          row-Written rows k u.1 (sym (ap (λ n. n == 1) (skip_count r rows e)) ∙ h) in
        (x, a, b, skip_row r rows e ∙ c)
  ]
