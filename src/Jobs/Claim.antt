-- ===== src/Jobs/Claim.antt =====
-- `claim` of `JobQueue` (src/autonomy/jobs/index.ts). Among rows of equal order the first inserted is
-- taken; stored payloads parse.
use ari_os.Prelude.{
  ℕ, zero, suc, ◌+◌, String, Bool, false, not, ◌&&◌, ◌||◌, List, [], ◌∷◌, ◌++◌, map, length, Option,
  none, some, Result, ok, err, str_eq, ltb, leb, ◌==◌, if◌then◌else◌,
}
use ari_os.Jobs.{
  max_safe_integer, JobStatus, Outcome, JobRow, AttemptRow, Lease, JobQueue, JobError, closed,
  invalid_lease, invalid_clock, invalid_text, attempt_lost, lease_conflict, claim_conflict,
  duplicate_attempt, Op, is_running, is_waiting, set_where, count_where, job_by_id, count_attempts,
  finalize,
}

-- ORDER BY scheduled_at, created_at.
unfoldable pub is_before : JobRow → JobRow → Bool
is_before a b =
    ltb a.scheduled_at b.scheduled_at
    || (a.scheduled_at == b.scheduled_at && ltb a.created_at b.created_at)

unfoldable pub earlier : JobRow → Option JobRow → Option JobRow
unfolding is_before
earlier row none = some row
earlier row (some other) = if is_before other row then some other else some row

-- SELECT … WHERE p ORDER BY … LIMIT 1.
unfoldable pub first_by_schedule : (JobRow → Bool) → List JobRow → Option JobRow
unfolding earlier
first_by_schedule p [] = none
first_by_schedule p (row ∷ rows) =
    let rest = first_by_schedule p rows in if p row then earlier row rest else rest

unfoldable pub expired_by : ℕ → Option ℕ → Bool
expired_by now none = false
expired_by now (some at) = leb at now

-- A running job whose lease is over.
unfoldable pub has_expired : ℕ → JobRow → Bool
unfolding is_running expired_by
has_expired now row = is_running row.status && expired_by now row.lease_expires_at

unfoldable pub recovered_status : JobRow → JobStatus
recovered_status row =
    if row.cancel_requested
    then JobStatus.cancelled
    else if leb row.max_attempts row.attempt_count
    then JobStatus.dead_letter
    else JobStatus.queued

abbrev pub lease_error : Bool → Option String
lease_error cancel = if cancel then none else some "Lease expired"

abbrev pub lease_of : JobRow → Lease
lease_of row = record { job_id = row.id; worker_id = ""; fencing_token = row.fencing_token }

unfoldable pub expired_attempt : ℕ → Bool → AttemptRow → AttemptRow
expired_attempt now cancel a = record a {
  finished_at = some now;
  outcome = some (if cancel then Outcome.cancelled else Outcome.failed);
  error = lease_error cancel;
}

unfoldable pub recovered_job : ℕ → JobRow → JobRow → JobRow
unfolding recovered_status
recovered_job now expired row = record row {
  status = recovered_status expired;
  worker_id = none;
  lease_expires_at = none;
  error = lease_error expired.cancel_requested;
  updated_at = now;
}

unfoldable pub runs_as : JobRow → JobRow → Bool
unfolding is_running
runs_as expired row =
    str_eq row.id expired.id && is_running row.status && row.fencing_token == expired.fencing_token

-- One turn of the recovery of expired leases.
unfoldable pub recover_one : ℕ → JobRow → JobQueue → Result JobError JobQueue
unfolding count_attempts count_where set_where finalize expired_attempt recovered_job runs_as
recover_one now expired q =
    if not (count_attempts (lease_of expired) q.attempts == 1)
    then err attempt_lost
    else if not (count_where (runs_as expired) q.jobs == 1)
    then err lease_conflict
    else ok (record q {
      jobs = set_where (runs_as expired) (recovered_job now expired) q.jobs;
      attempts =
          map (finalize (lease_of expired) (expired_attempt now expired.cancel_requested))
            q.attempts;
    })

-- The loop, on fuel: each turn ends one lease.
unfoldable pub recover_turn :
    (JobQueue → Result JobError JobQueue) → Result JobError JobQueue → Result JobError JobQueue
recover_turn again (err e) = err e
recover_turn again (ok q) = again q

unfoldable pub recover_next :
    ℕ → Option JobRow → (JobQueue → Result JobError JobQueue) → JobQueue → Result JobError JobQueue
unfolding recover_one recover_turn
recover_next now none again q = ok q
recover_next now (some expired) again q = recover_turn again (recover_one now expired q)

unfoldable pub recover : ℕ → ℕ → JobQueue → Result JobError JobQueue
unfolding recover_next first_by_schedule has_expired
recover zero now q = ok q
recover (suc fuel) now q =
    recover_next now (first_by_schedule (has_expired now) q.jobs) (λ r. recover fuel now r) q

-- A job that may be claimed at the moment.
unfoldable pub is_due : ℕ → JobRow → Bool
unfolding is_waiting
is_due now row =
    is_waiting row.status && leb row.scheduled_at now && ltb row.attempt_count row.max_attempts

unfoldable pub is_claimable : ℕ → JobRow → Bool
unfolding is_due
is_claimable now row = not row.cancel_requested && is_due now row

unfoldable pub is_due_job : ℕ → String → JobRow → Bool
unfolding is_due
is_due_job now id row = str_eq row.id id && is_due now row

unfoldable pub claimed_job : String → ℕ → ℕ → JobRow → JobRow
claimed_job worker expires now row = record row {
  status = JobStatus.running;
  worker_id = some worker;
  fencing_token = row.fencing_token + 1;
  lease_expires_at = some expires;
  attempt_count = row.attempt_count + 1;
  updated_at = now;
}

unfoldable pub has_attempt : String → ℕ → List AttemptRow → Bool
has_attempt id number [] = false
has_attempt id number (a ∷ rows) =
    (str_eq a.job_id id && a.number == number) || has_attempt id number rows

unfoldable pub new_attempt : String → ℕ → JobRow → AttemptRow
new_attempt worker now row = record {
  job_id = row.id;
  number = row.attempt_count;
  worker_id = worker;
  started_at = now;
  fencing_token = row.fencing_token;
  finished_at = none;
  outcome = none;
  error = none;
  result_ref = none;
}

-- The row that was claimed, read back, and its attempt, unique for its number.
unfoldable pub start_attempt :
    String → ℕ → Option JobRow → JobQueue → Result JobError (Lease × JobQueue)
unfolding has_attempt new_attempt
start_attempt worker now none q = err claim_conflict
start_attempt worker now (some row) q =
    if has_attempt row.id row.attempt_count q.attempts
    then err duplicate_attempt
    else ok (
      record { job_id = row.id; worker_id = worker; fencing_token = row.fencing_token },
      record q { attempts = q.attempts ++ new_attempt worker now row ∷ [] },
    )

unfoldable pub claim_row : String → ℕ → ℕ → JobRow → JobQueue → Result JobError (Lease × JobQueue)
unfolding count_where set_where is_due_job claimed_job start_attempt job_by_id
claim_row worker lease_ms now found q =
    let jobs =
      set_where (is_due_job now found.id) (claimed_job worker (now + lease_ms) now) q.jobs in
    if count_where (is_due_job now found.id) q.jobs == 1
    then start_attempt worker now (job_by_id found.id jobs) (record q { jobs = jobs })
    else err claim_conflict

-- What the transaction answers, and the queue after it: a throw rolls everything back.
unfoldable pub committed : JobQueue → Result JobError (Lease × JobQueue) → Op (Option Lease)
committed before (err e) = (err e, before)
committed before (ok (lease, after)) = (ok (some lease), after)

unfoldable pub claim_found :
    String → ℕ → ℕ → Option JobRow → JobQueue → JobQueue → Op (Option Lease)
unfolding claim_row committed
claim_found worker lease_ms now none before q = (ok none, q)
claim_found worker lease_ms now (some row) before q =
    committed before (claim_row worker lease_ms now row q)

unfoldable pub claim_recovered :
    String → ℕ → ℕ → JobQueue → Result JobError JobQueue → Op (Option Lease)
unfolding claim_found first_by_schedule is_claimable
claim_recovered worker lease_ms now before (err e) = (err e, before)
claim_recovered worker lease_ms now before (ok q) =
    claim_found worker lease_ms now (first_by_schedule (is_claimable now) q.jobs) before q

unfoldable pub claim : String → ℕ → ℕ → JobQueue → Op (Option Lease)
unfolding claim_recovered recover
claim worker lease_ms now q =
    if q.closed
    then (err closed, q)
    else if q.draining
    then (ok none, q)
    else if str_eq worker ""
    then (err invalid_text, q)
    else if lease_ms == 0 || ltb max_safe_integer lease_ms
    then (err invalid_lease, q)
    else if ltb max_safe_integer now
    then (err invalid_clock, q)
    else if ltb max_safe_integer (now + lease_ms)
    then (err invalid_lease, q)
    else claim_recovered worker lease_ms now q (recover (length q.jobs) now q)
