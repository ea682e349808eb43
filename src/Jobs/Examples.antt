-- ===== src/Jobs/Examples.antt =====
-- A small queue, and the theorems on it (src/autonomy/jobs/index.ts).
use ari_os.Prelude.{◌*◌, ◌^◌, ◌-◌, ◌≤◌, false, true, [], ◌∷◌, some, none, ok, ◌≡◌, refl, arith}
use ari_os.Prelude.Int.{pos}
use ari_os.Prelude.Number.{dyadic, of_ℕ, round}
use ari_os.Jobs.{
  JobStatus, Outcome, JobRow, AttemptRow, Lease, JobQueue, job_by_id, is_finished, heartbeat,
  complete, fail, completes, cancels, after_calls, retry_delay, complete_existing, complete_at,
  complete_held, is_succeeded, first_where, held, runs_under, is_running, equals, expires_after,
  commit, count_where, set_where, count_attempts, is_attempt, is_unfinished, finalize,
  completed_job, completed_attempt,
}
use ari_os.Jobs.Finished.{finished_job-Stays, stale_lease-Stays}
use ari_os.Jobs.Claim.{has_expired, recover, claim}
use ari_os.Jobs.Recovered.{recover-length}
use ari_os.Jobs.Keys.{Unique}
use ari_os.Jobs.Leased.{Answer, claim_lem}
use ari_os.Jobs.Retry.{retry_delay_bounded}

-- Claimed for the second time, under token 2.
abbrev job : JobRow
job = record {
  id = "job";
  type_name = "send";
  payload_json = "{}";
  idempotency_key = none;
  created_at = 5;
  status = JobStatus.running;
  scheduled_at = 10;
  attempt_count = 2;
  max_attempts = 3;
  backoff_ms = 1_000;
  jitter = dyadic (pos 1) 2;
  worker_id = some "b";
  fencing_token = 2;
  lease_expires_at = some 500;
  cancel_requested = false;
  result_ref = none;
  error = none;
  updated_at = 100;
}

abbrev done : JobRow
done = record job {
  status = JobStatus.succeeded;
  result_ref = some "r";
  worker_id = none;
  lease_expires_at = none;
  updated_at = 200;
}

abbrev attempt : AttemptRow
attempt = record {
  job_id = "job";
  number = 2;
  worker_id = "b";
  started_at = 100;
  fencing_token = 2;
  finished_at = none;
  outcome = none;
  error = none;
  result_ref = none;
}

abbrev queue : JobQueue
queue = record { jobs = job ∷ []; attempts = attempt ∷ []; closed = false; draining = false }

abbrev recovered : JobQueue
recovered = record {
  jobs =
      record job {
        status = JobStatus.queued;
        worker_id = none;
        lease_expires_at = none;
        error = some "Lease expired";
        updated_at = 600;
      }
      ∷ [];
  attempts =
      record attempt {
        finished_at = some 600;
        outcome = some Outcome.failed;
        error = some "Lease expired";
      }
      ∷ [];
  closed = false;
  draining = false;
}

abbrev done_queue : JobQueue
done_queue = record { jobs = done ∷ []; attempts = []; closed = false; draining = false }

abbrev lease : Lease
lease = record { job_id = "job"; worker_id = "b"; fencing_token = 2 }

abbrev stale : Lease
stale = record { job_id = "job"; worker_id = "a"; fencing_token = 1 }

completes_job : complete lease (some "r") 200 queue ≡ (
  ok true,
  record {
    jobs = done ∷ [];
    attempts =
        record attempt {
          finished_at = some 200;
          outcome = some Outcome.succeeded;
          result_ref = some "r";
        }
        ∷ [];
    closed = false;
    draining = false;
  },
)
unfolding complete job_by_id complete_existing complete_at complete_held is_succeeded first_where
    held runs_under is_running equals expires_after commit count_where set_where count_attempts
    is_attempt is_unfinished finalize completed_job completed_attempt
completes_job = refl

finished_job-Stays_example :
    job_by_id "job"
      (after_calls (completes stale none 300 ∷ cancels "job" 310 ∷ []) done_queue).jobs
    ≡ some done
unfolding is_finished job_by_id
finished_job-Stays_example =
    finished_job-Stays "job" done (completes stale none 300 ∷ cancels "job" 310 ∷ []) done_queue
      refl refl

stale_lease-Stays_example :
    (job_by_id "job" (heartbeat stale 50 200 queue).1.jobs ≡ some job)
    × (job_by_id "job" (complete stale (some "x") 200 queue).1.jobs ≡ some job)
    × (job_by_id "job" (fail stale "e" 200 (of_ℕ 0) queue).1.jobs ≡ some job)
unfolding job_by_id
stale_lease-Stays_example =
    stale_lease-Stays "job" job stale 50 200 (some "x") "e" (of_ℕ 0) queue refl refl

retry_delay_bounded_example :
    (1_000 * 2 ^ (3 - 1) ≤ retry_delay 1_000 3 (dyadic (pos 1) 2) (dyadic (pos 1) 1))
    × (retry_delay 1_000 3 (dyadic (pos 1) 2) (dyadic (pos 1) 1) ≤ 2 * (1_000 * 2 ^ (3 - 1)))
retry_delay_bounded_example = retry_delay_bounded 1_000 3 1 2 1 1 (omega arith) (omega arith)

waits : retry_delay 1_000 3 (dyadic (pos 1) 2) (dyadic (pos 1) 1) ≡ 4_500
unfolding retry_delay round
waits = refl

-- Job `job` is recovered at 600, and claimed again by the worker `c`.
recovers : recover 1 600 queue ≡ ok recovered
unfolding recover
recovers = refl

recover-length_example : count_where (has_expired 600) recovered.jobs ≡ 0
recover-length_example = recover-length 600 queue recovered recovers

queue-Unique : Unique queue.jobs
unfolding Unique
queue-Unique = (refl, tt)

claim_lem_example : Answer "c" 50 600 queue (claim "c" 50 600 queue)
claim_lem_example = claim_lem "c" 50 600 queue queue-Unique

claims_token :
    (claim "c" 50 600 queue).0
    ≡ ok (some (record { job_id = "job"; worker_id = "c"; fencing_token = 3 }))
unfolding claim
claims_token = refl
