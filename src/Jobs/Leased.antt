-- ===== src/Jobs/Leased.antt =====
-- What a claim answers (`claim` of src/autonomy/jobs/index.ts).
use mathlib.Core.Path.{subst}
use text.Mathlib.TextPositions.{eq_refl}
use ari_os.Prelude.{
  ℕ, ◌+◌, ◌≤◌, String, Bool, true, false, ◌||◌, List, [], ◌∷◌, ◌++◌, length, Option, none, some,
  Result, ok, err, ◌≡◌, ◌⊎◌, refl, sym, arith, inl, inr, str_eq, ltb, ◌==◌, if◌then◌else◌,
}
use ari_os.Jobs.{
  JobStatus, JobRow, AttemptRow, Lease, JobQueue, JobError, closed, invalid_text, invalid_lease,
  invalid_clock, claim_conflict, duplicate_attempt, Op, max_safe_integer, set_where, count_where,
  job_by_id,
}
use ari_os.Jobs.Claim.{
  first_by_schedule, recover, is_due, is_claimable, is_due_job, claimed_job, has_attempt,
  new_attempt, start_attempt, claim_row, committed, claim_found, claim_recovered, claim,
}
use ari_os.Jobs.Recovered.{count_none}
use ari_os.Jobs.Keys.{Unique, recover-Unique, row-Written}

-- The lease of a claim: its row runs under it until it expires, on an attempt within the bound that is
-- recorded.
pub record Leased (worker : String) (lease_ms now : ℕ) (l : Lease) (after : JobQueue) : Type 0 where
  pub row : JobRow
  pub found : job_by_id l.job_id after.jobs ≡ some row
  pub running : row.status ≡ JobStatus.running
  pub by_worker : row.worker_id ≡ some worker
  pub for_worker : l.worker_id ≡ worker
  pub token : row.fencing_token ≡ l.fencing_token
  pub fenced : 1 ≤ l.fencing_token
  pub until : row.lease_expires_at ≡ some (now + lease_ms)
  pub bounded : row.attempt_count ≤ row.max_attempts
  pub recorded : has_attempt l.job_id row.attempt_count after.attempts ≡ true

-- A lease, no job that may be claimed, or a throw that changes nothing.
pub data Answer (worker : String) (lease_ms now : ℕ) (q : JobQueue) (r : Op (Option Lease))
    : Type 0 where
  leased :
      (l : Lease)
      → r.0 ≡ ok (some l)
      → Leased worker lease_ms now l r.1
      → Answer worker lease_ms now q r
  idle :
      r.0 ≡ ok none
      → (q.draining ≡ true) ⊎ (count_where (is_claimable now) r.1.jobs ≡ 0)
      → Answer worker lease_ms now q r
  thrown : (e : JobError) → r.0 ≡ err e → r.1 ≡ q → Answer worker lease_ms now q r

has_attempt-last :
    (a : AttemptRow) (rows : List AttemptRow)
    → has_attempt a.job_id a.number (rows ++ a ∷ []) ≡ true
unfolding has_attempt
has_attempt-last a [] = rw (eq_refl a.job_id) (ground arith)
has_attempt-last a (b ∷ rows) = ground (arith, has_attempt-last a rows)

due_bounded : (now : ℕ) (r : JobRow) → is_due now r ≡ true → r.attempt_count + 1 ≤ r.max_attempts
unfolding is_due
due_bounded now r h = ground arith

module _ (worker : String) (lease_ms now : ℕ) (before : JobQueue) where
  started-Answer :
      (row : JobRow) (q : JobQueue) (taken : Bool)
      → has_attempt row.id row.attempt_count q.attempts ≡ taken
      → row.status ≡ JobStatus.running
      → row.worker_id ≡ some worker
      → row.lease_expires_at ≡ some (now + lease_ms)
      → row.attempt_count ≤ row.max_attempts
      → 1 ≤ row.fencing_token
      → job_by_id row.id q.jobs ≡ some row
      → Answer worker lease_ms now before (committed before (start_attempt worker now (some row) q))
  unfolding committed start_attempt new_attempt
  started-Answer row q true h s w u b t j = rw h (thrown duplicate_attempt refl refl)
  started-Answer row q false h s w u b t j = rw h (
      leased (record { job_id = row.id; worker_id = worker; fencing_token = row.fencing_token })
        refl
        (record {
          row = row;
          found = j;
          running = s;
          by_worker = w;
          for_worker = refl;
          token = refl;
          fenced = t;
          until = u;
          bounded = b;
          recorded = has_attempt-last (new_attempt worker now row) q.attempts;
        }))

  claimed_id : (until : ℕ) (r : JobRow) → (claimed_job worker until now r).id ≡ r.id
  unfolding claimed_job
  claimed_id until r = refl

  claimed-Answer :
      (r : JobRow) (q : JobQueue)
      → is_due now r ≡ true
      → job_by_id r.id q.jobs ≡ some (claimed_job worker (now + lease_ms) now r)
      → Answer worker lease_ms now before (
          committed before
            (start_attempt worker now (some (claimed_job worker (now + lease_ms) now r)) q))
  unfolding claimed_job
  claimed-Answer r q d j =
      started-Answer (claimed_job worker (now + lease_ms) now r) q _ refl refl refl refl
        (due_bounded now r d) (omega arith) j

  -- The claim of a row that is due, when one row is updated and when not.
  row-Answer :
      (found : JobRow) (q : JobQueue) (one : Bool)
      → Unique q.jobs
      → (count_where (is_due_job now found.id) q.jobs == 1) ≡ one
      → Answer worker lease_ms now before (committed before (claim_row worker lease_ms now found q))
  unfolding claim_row committed
  row-Answer found q false u h = rw h (thrown claim_conflict refl refl)
  row-Answer found q true u h =
      let change = claimed_job worker (now + lease_ms) now in
      let jobs = set_where (is_due_job now found.id) change q.jobs in
      let (r, due, same, j) =
        row-Written now found.id change q.jobs (claimed_id (now + lease_ms)) u h in
      rw h (
        rw j (
          claimed-Answer r (record q { jobs = jobs }) due
            (subst (λ id. job_by_id id jobs ≡ some (change r)) (sym same) j)))

  found-Answer :
      (o : Option JobRow) (q : JobQueue)
      → first_by_schedule (is_claimable now) q.jobs ≡ o
      → Unique q.jobs
      → Answer worker lease_ms now before (claim_found worker lease_ms now o before q)
  unfolding claim_found
  found-Answer none q h u = idle refl (inr (count_none (is_claimable now) q.jobs h))
  found-Answer (some row) q h u = row-Answer row q _ u refl

  recovered-Answer :
      (r : Result JobError JobQueue)
      → ((q : JobQueue) → r ≡ ok q → Unique q.jobs)
      → Answer worker lease_ms now before (claim_recovered worker lease_ms now before r)
  unfolding claim_recovered
  recovered-Answer (err e) u = thrown e refl refl
  recovered-Answer (ok q) u = found-Answer _ q refl (u q refl)

  if-Answer :
      (b : Bool) (x y : Op (Option Lease))
      → (b ≡ true → Answer worker lease_ms now before x)
      → Answer worker lease_ms now before y
      → Answer worker lease_ms now before (if b then x else y)
  if-Answer true x y h k = h refl
  if-Answer false x y h k = k

-- In a queue with distinct identifiers a claim gives a lease whose row runs under it until it expires,
-- fenced by a positive token, on an attempt within the bound that is recorded; or it answers that
-- there is none, when the queue drains or no job may be claimed; or it throws and changes nothing.
pub claim_lem :
    (worker : String) (lease_ms now : ℕ) (q : JobQueue)
    → Unique q.jobs
    → Answer worker lease_ms now q (claim worker lease_ms now q)
unfolding claim
claim_lem worker lease_ms now q u =
    let split = if-Answer worker lease_ms now q in
    split q.closed _ _ (λ b. thrown closed refl refl)
      (split q.draining _ _ (λ b. idle refl (inl b))
        (split (str_eq worker "") _ _ (λ b. thrown invalid_text refl refl)
          (split (lease_ms == 0 || ltb max_safe_integer lease_ms) _ _
            (λ b. thrown invalid_lease refl refl)
            (split (ltb max_safe_integer now) _ _ (λ b. thrown invalid_clock refl refl)
              (split (ltb max_safe_integer (now + lease_ms)) _ _
                (λ b. thrown invalid_lease refl refl)
                (recovered-Answer worker lease_ms now q (recover (length q.jobs) now q)
                  (λ r e. recover-Unique now (length q.jobs) q r e u)))))))
