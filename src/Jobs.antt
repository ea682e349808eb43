-- ===== src/Jobs.antt =====
-- The job queue (src/autonomy/jobs/index.ts): the operations of a worker that holds a lease, and the
-- cancellation; claiming is in Claim. A time and a duration are whole numbers, checked to be safe integers;
-- texts are taken to be within the size limit. The tables are lists of rows.
pub mod Finished
pub mod Retry
pub mod Claim
pub mod Recovered
pub mod Keys
pub mod Leased
mod Examples
use ari_os.Prelude.{
  ℕ, ◌+◌, ◌-◌, ◌*◌, ◌^◌, String, Bool, true, false, not, ◌&&◌, ◌||◌, List, [], ◌∷◌, map, Option,
  none, some, Result, ok, err, ◌>>=◌, ◌>>◌, throw_if, str_eq, ltb, leb, ◌==◌, if◌then◌else◌,
}
use ari_os.Prelude.Int.{ℤ, pos, pos_part}
use ari_os.Prelude.Number.{Number, dyadic, round}

abbrev pub max_safe_integer : ℕ
max_safe_integer = 9_007_199_254_740_991

pub data JobStatus : Type 0 where
  scheduled queued running succeeded failed cancelled dead_letter : JobStatus

pub data Outcome : Type 0 where
  succeeded failed cancelled : Outcome

pub record JobRow : Type 0 where
  pub id : String
  pub type_name : String
  pub payload_json : String
  pub idempotency_key : Option String
  pub created_at : ℕ
  pub status : JobStatus
  pub scheduled_at : ℕ
  pub attempt_count : ℕ
  pub max_attempts : ℕ
  pub backoff_ms : ℕ
  pub jitter : Number
  pub worker_id : Option String
  pub fencing_token : ℕ
  pub lease_expires_at : Option ℕ
  pub cancel_requested : Bool
  pub result_ref : Option String
  pub error : Option String
  pub updated_at : ℕ

pub record AttemptRow : Type 0 where
  pub job_id : String
  pub number : ℕ
  pub worker_id : String
  pub started_at : ℕ
  pub fencing_token : ℕ
  pub finished_at : Option ℕ
  pub outcome : Option Outcome
  pub error : Option String
  pub result_ref : Option String

pub record Lease : Type 0 where
  pub job_id : String
  pub worker_id : String
  pub fencing_token : ℕ

pub record JobQueue : Type 0 where
  pub jobs : List JobRow
  pub attempts : List AttemptRow
  pub closed : Bool
  pub draining : Bool

pub data JobError : Type 0 where
  closed invalid_lease invalid_clock attempt_lost backoff_overflow invalid_text : JobError
  lease_conflict claim_conflict duplicate_attempt : JobError

-- What an operation returns or throws, and the queue after it.
abbrev pub Op : Type 0 → Type 0
Op A = Result JobError A × JobQueue

unfoldable pub is_running : JobStatus → Bool
is_running JobStatus.running = true
is_running _ = false

unfoldable pub is_finished : JobStatus → Bool
is_finished JobStatus.succeeded = true
is_finished JobStatus.failed = true
is_finished JobStatus.cancelled = true
is_finished JobStatus.dead_letter = true
is_finished _ = false

unfoldable pub is_waiting : JobStatus → Bool
is_waiting JobStatus.queued = true
is_waiting JobStatus.scheduled = true
is_waiting _ = false

unfoldable pub equals : Option String → Option String → Bool
equals none none = true
equals (some a) (some b) = str_eq a b
equals _ _ = false

unfoldable pub expires_after : ℕ → Option ℕ → Bool
expires_after now none = false
expires_after now (some at) = ltb now at

-- The row runs under this lease.
unfoldable pub runs_under : Lease → JobRow → Bool
unfolding is_running equals
runs_under l row =
    str_eq row.id l.job_id
    && is_running row.status
    && equals row.worker_id (some l.worker_id)
    && row.fencing_token == l.fencing_token

-- And the lease has not expired.
unfoldable pub held : Lease → ℕ → JobRow → Bool
unfolding runs_under expires_after
held l now row = runs_under l row && expires_after now row.lease_expires_at

-- UPDATE jobs SET … WHERE …, with the number of rows that it changes.
unfoldable pub set_where : (JobRow → Bool) → (JobRow → JobRow) → List JobRow → List JobRow
set_where p change [] = []
set_where p change (row ∷ rows) = (if p row then change row else row) ∷ set_where p change rows

unfoldable pub count_where : (JobRow → Bool) → List JobRow → ℕ
count_where p [] = 0
count_where p (row ∷ rows) = (if p row then 1 else 0) + count_where p rows

unfoldable pub first_where : (JobRow → Bool) → List JobRow → Option JobRow
first_where p [] = none
first_where p (row ∷ rows) = if p row then some row else first_where p rows

unfoldable pub job_by_id : String → List JobRow → Option JobRow
job_by_id id [] = none
job_by_id id (row ∷ rows) = if str_eq row.id id then some row else job_by_id id rows

unfoldable pub is_unfinished : Option ℕ → Bool
is_unfinished none = true
is_unfinished (some at) = false

-- The attempt of the lease that is not finalized.
unfoldable pub is_attempt : Lease → AttemptRow → Bool
unfolding is_unfinished
is_attempt l a =
    str_eq a.job_id l.job_id && a.fencing_token == l.fencing_token && is_unfinished a.finished_at

unfoldable pub count_attempts : Lease → List AttemptRow → ℕ
unfolding is_attempt
count_attempts l [] = 0
count_attempts l (a ∷ rows) = (if is_attempt l a then 1 else 0) + count_attempts l rows

unfoldable pub finalize : Lease → (AttemptRow → AttemptRow) → AttemptRow → AttemptRow
unfolding is_attempt
finalize l change a = if is_attempt l a then change a else a

-- The job row is written, then its attempt; when no one attempt is open, all is rolled back.
unfoldable pub commit :
    Lease → ℕ → (JobRow → JobRow) → (AttemptRow → AttemptRow) → Bool → JobQueue → Op Bool
unfolding held set_where count_where count_attempts finalize
commit l now change_job change_attempt answer q =
    if count_where (held l now) q.jobs == 1
    then if count_attempts l q.attempts == 1
      then (
        ok answer,
        record q {
          jobs = set_where (held l now) change_job q.jobs;
          attempts = map (finalize l change_attempt) q.attempts;
        },
      )
      else (err attempt_lost, q)
    else (ok false, record q { jobs = set_where (held l now) change_job q.jobs })

unfoldable pub heartbeat : Lease → ℕ → ℕ → JobQueue → Op Bool
unfolding held set_where count_where
heartbeat l lease_ms now q =
    if q.closed
    then (err closed, q)
    else if lease_ms == 0 || ltb max_safe_integer lease_ms
    then (err invalid_lease, q)
    else if ltb max_safe_integer now
    then (err invalid_clock, q)
    else if ltb max_safe_integer (now + lease_ms)
    then (err invalid_lease, q)
    else (
      ok (count_where (λ row. held l now row && not row.cancel_requested) q.jobs == 1),
      record q {
        jobs =
            set_where (λ row. held l now row && not row.cancel_requested)
              (λ row. record row { lease_expires_at = some (now + lease_ms); updated_at = now })
              q.jobs;
      },
    )

unfoldable pub completed_job : Option String → ℕ → Bool → JobRow → JobRow
completed_job ref now cancel row = record row {
  status = if cancel then JobStatus.cancelled else JobStatus.succeeded;
  result_ref = if cancel then none else ref;
  worker_id = none;
  lease_expires_at = none;
  updated_at = now;
}

unfoldable pub completed_attempt : Option String → ℕ → Bool → AttemptRow → AttemptRow
completed_attempt ref now cancel a = record a {
  finished_at = some now;
  outcome = some (if cancel then Outcome.cancelled else Outcome.succeeded);
  result_ref = if cancel then none else ref;
}

unfoldable pub complete_held : Lease → Option String → ℕ → Option JobRow → JobQueue → Op Bool
unfolding commit completed_job completed_attempt
complete_held l ref now none q = (ok false, q)
complete_held l ref now (some row) q =
    commit l now (completed_job ref now row.cancel_requested)
      (completed_attempt ref now row.cancel_requested) (not row.cancel_requested) q

unfoldable pub complete_at : Lease → Option String → ℕ → JobQueue → Op Bool
unfolding complete_held first_where held
complete_at l ref now q =
    if ltb max_safe_integer now
    then (err invalid_clock, q)
    else complete_held l ref now (first_where (held l now) q.jobs) q

unfoldable pub is_succeeded : JobStatus → Bool
is_succeeded JobStatus.succeeded = true
is_succeeded _ = false

-- A job that has succeeded answers whether it did so with this result.
unfoldable pub complete_existing : Lease → Option String → ℕ → Option JobRow → JobQueue → Op Bool
unfolding complete_at is_succeeded equals
complete_existing l ref now none q = complete_at l ref now q
complete_existing l ref now (some row) q =
    if is_succeeded row.status then (ok (equals row.result_ref ref), q) else complete_at l ref now q

unfoldable pub complete : Lease → Option String → ℕ → JobQueue → Op Bool
unfolding complete_existing job_by_id
complete l ref now q =
    if q.closed then (err closed, q) else complete_existing l ref now (job_by_id l.job_id q.jobs) q

-- backoff * 2^(attempts - 1) * (1 + jitter * random), without the rounding of floating products.
unfoldable pub retry_delay : ℕ → ℕ → Number → Number → ℕ
unfolding round
retry_delay backoff attempts (dyadic (pos j) k) (dyadic (pos r) m) =
    pos_part (round (dyadic (pos (backoff * 2 ^ (attempts - 1) * (2 ^ (k + m) + j * r))) (k + m)))
retry_delay backoff attempts _ _ = 0

unfoldable pub failed_job : JobStatus → ℕ → String → ℕ → JobRow → JobRow
failed_job status at error now row = record row {
  status = status;
  scheduled_at = at;
  error = some error;
  worker_id = none;
  lease_expires_at = none;
  updated_at = now;
}

unfoldable pub failed_attempt : Bool → String → ℕ → AttemptRow → AttemptRow
failed_attempt cancel error now a = record a {
  finished_at = some now;
  outcome = some (if cancel then Outcome.cancelled else Outcome.failed);
  error = some error;
}

unfoldable pub fail_held : Lease → String → ℕ → Number → Option JobRow → JobQueue → Op Bool
unfolding commit failed_job failed_attempt retry_delay
fail_held l error now random none q = (ok false, q)
fail_held l error now random (some row) q =
    if row.cancel_requested
    then commit l now (failed_job JobStatus.cancelled now error now) (failed_attempt true error now)
        true q
    else if leb row.max_attempts row.attempt_count
    then commit l now (failed_job JobStatus.dead_letter now error now)
        (failed_attempt false error now) true q
    else if ltb max_safe_integer
        (now + retry_delay row.backoff_ms row.attempt_count row.jitter random)
    then (err backoff_overflow, q)
    else commit l now
        (failed_job JobStatus.scheduled
          (now + retry_delay row.backoff_ms row.attempt_count row.jitter random) error now)
        (failed_attempt false error now) true q

unfoldable pub fail : Lease → String → ℕ → Number → JobQueue → Op Bool
unfolding fail_held first_where held
fail l error now random q =
    if q.closed
    then (err closed, q)
    else if ltb max_safe_integer now
    then (err invalid_clock, q)
    else fail_held l error now random (first_where (held l now) q.jobs) q

-- A running job is asked to stop; a waiting one is cancelled.
unfoldable pub cancel_row : String → ℕ → JobStatus → JobQueue → JobQueue
unfolding set_where is_running is_waiting
cancel_row id now status q =
    if is_running status
    then record q {
      jobs =
          set_where (λ row. str_eq row.id id && is_running row.status)
            (λ row. record row { cancel_requested = true; updated_at = now }) q.jobs;
    }
    else record q {
      jobs =
          set_where (λ row. str_eq row.id id && is_waiting row.status)
            (λ row. record row {
              status = JobStatus.cancelled;
              cancel_requested = true;
              updated_at = now;
            })
            q.jobs;
    }

unfoldable pub cancel_found : String → ℕ → Option JobRow → JobQueue → Op Bool
unfolding cancel_row is_finished
cancel_found id now none q = (ok false, q)
cancel_found id now (some row) q =
    if is_finished row.status then (ok false, q) else (ok true, cancel_row id now row.status q)

unfoldable pub cancel : String → ℕ → JobQueue → Op Bool
unfolding cancel_found job_by_id
cancel id now q =
    if q.closed
    then (err closed, q)
    else if ltb max_safe_integer now
    then (err invalid_clock, q)
    else cancel_found id now (job_by_id id q.jobs) q

-- What a worker or an operator asks of the queue.
pub data Call : Type 0 where
  heartbeats : Lease → ℕ → ℕ → Call
  completes : Lease → Option String → ℕ → Call
  fails : Lease → String → ℕ → Number → Call
  cancels : String → ℕ → Call

unfoldable pub answer : Call → JobQueue → Op Bool
unfolding heartbeat complete fail cancel
answer (heartbeats l lease_ms now) = heartbeat l lease_ms now
answer (completes l ref now) = complete l ref now
answer (fails l error now random) = fail l error now random
answer (cancels id now) = cancel id now

-- Calls one after the other; what throws has written nothing.
unfoldable pub after_calls : List Call → JobQueue → JobQueue
unfolding answer
after_calls [] q = q
after_calls (call ∷ calls) q = after_calls calls (answer call q).1
