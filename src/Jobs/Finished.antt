-- ===== src/Jobs/Finished.antt =====
-- Which rows the operations leave as they are: those of finished jobs, and of jobs claimed again (src/autonomy/jobs/index.ts).
use ari_os.Prelude.{
  ℕ, ◌+◌, String, Bool, true, false, not, ◌&&◌, List, [], ◌∷◌, Option, none, some, Result, ◌≡◌,
  refl, arith, str_eq, ◌==◌, if◌then◌else◌,
}
use ari_os.Prelude.Number.{Number}
use ari_os.Jobs.{
  JobStatus, JobRow, AttemptRow, Lease, JobQueue, is_running, is_finished, is_waiting, runs_under,
  held, set_where, count_where, job_by_id, count_attempts, commit, heartbeat, completed_job,
  complete_held, complete_at, complete_existing, complete, failed_job, fail_held, fail, cancel_row,
  cancel_found, cancel, Call, heartbeats, completes, fails, cancels, answer, after_calls, Op,
  JobError,
}

-- An update that keeps identifiers leaves alone a row that it does not select.
job_by_id-set_where :
    (id : String) (p : JobRow → Bool) (change : JobRow → JobRow) (rows : List JobRow) (row : JobRow)
    → ((r : JobRow) → (change r).id ≡ r.id)
    → job_by_id id rows ≡ some row
    → p row ≡ false
    → job_by_id id (set_where p change rows) ≡ some row
unfolding job_by_id set_where
job_by_id-set_where id p change [] row keeps h n = cc
job_by_id-set_where id p change (r ∷ rows) row keeps h n =
    ground (arith, keeps r, job_by_id-set_where id p change rows row keeps)

running_unfinished : (status : JobStatus) → is_finished status ≡ true → is_running status ≡ false
unfolding is_finished is_running
running_unfinished JobStatus.succeeded h = refl
running_unfinished JobStatus.failed h = refl
running_unfinished JobStatus.cancelled h = refl
running_unfinished JobStatus.dead_letter h = refl
running_unfinished JobStatus.running h = absurd (cc)
running_unfinished JobStatus.queued h = refl
running_unfinished JobStatus.scheduled h = refl

waiting_unfinished : (status : JobStatus) → is_finished status ≡ true → is_waiting status ≡ false
unfolding is_finished is_waiting
waiting_unfinished JobStatus.succeeded h = refl
waiting_unfinished JobStatus.failed h = refl
waiting_unfinished JobStatus.cancelled h = refl
waiting_unfinished JobStatus.dead_letter h = refl
waiting_unfinished JobStatus.running h = refl
waiting_unfinished JobStatus.queued h = absurd (cc)
waiting_unfinished JobStatus.scheduled h = absurd (cc)

held_unfinished :
    (l : Lease) (now : ℕ) (row : JobRow) → is_finished row.status ≡ true → held l now row ≡ false
unfolding held runs_under
held_unfinished l now row h = ground (arith, running_unfinished row.status h)

held_stale :
    (l : Lease) (now : ℕ) (row : JobRow)
    → (row.fencing_token == l.fencing_token) ≡ false
    → held l now row ≡ false
unfolding held runs_under
held_stale l now row h = ground arith

module _ (id : String) (row : JobRow) where
  abbrev Stays : JobQueue → Type 0
  Stays q = job_by_id id q.jobs ≡ some row

  -- The row stays after an operation.
  record Kept (o : Op Bool) : Type 0 where
    stays : Stays o.1

  if-Kept : (b : Bool) (x y : Op Bool) → Kept x → Kept y → Kept (if b then x else y)
  if-Kept true x y h k = h
  if-Kept false x y h k = k

  same-Kept : (r : Result JobError Bool) (q : JobQueue) → Stays q → Kept (r, q)
  same-Kept r q h = record { stays = h }

  set_where-Stays :
      (l : Lease) (now : ℕ) (f : JobRow → JobRow) (q : JobQueue)
      → ((r : JobRow) → (f r).id ≡ r.id)
      → held l now row ≡ false
      → Stays q
      → job_by_id id (set_where (held l now) f q.jobs) ≡ some row
  set_where-Stays l now f q keeps n h = job_by_id-set_where id (held l now) f q.jobs row keeps h n

  commit-Kept :
      (l : Lease) (now : ℕ) (f : JobRow → JobRow) (g : AttemptRow → AttemptRow) (b : Bool)
      (q : JobQueue)
      → ((r : JobRow) → (f r).id ≡ r.id)
      → held l now row ≡ false
      → Stays q
      → Kept (commit l now f g b q)
  unfolding commit
  commit-Kept l now f g b q keeps n h =
      if-Kept (count_where (held l now) q.jobs == 1) _ _
        (if-Kept (count_attempts l q.attempts == 1) _ _
          (record { stays = set_where-Stays l now f q keeps n h }) (record { stays = h }))
        (record { stays = set_where-Stays l now f q keeps n h })

  ruleset kept_rules = (if-Kept, same-Kept, commit-Kept)

  heartbeat-Kept :
      (l : Lease) (lease_ms now : ℕ) (q : JobQueue)
      → held l now row ≡ false
      → Stays q
      → Kept (heartbeat l lease_ms now q)
  unfolding heartbeat
  heartbeat-Kept l lease_ms now q n h =
      let e =
        job_by_id-set_where id (λ r. held l now r && not r.cancel_requested)
          (λ r. record r { lease_expires_at = some (now + lease_ms); updated_at = now }) q.jobs row
          (λ r. refl) h (rw n) in
      record { stays = ground arith }

  complete_held-Kept :
      (l : Lease) (ref : Option String) (now : ℕ) (o : Option JobRow) (q : JobQueue)
      → held l now row ≡ false
      → Stays q
      → Kept (complete_held l ref now o q)
  unfolding complete_held completed_job
  complete_held-Kept l ref now none q n h = same-Kept _ q h
  complete_held-Kept l ref now (some r) q n h = commit-Kept l now _ _ _ q (λ x. refl) n h

  complete_at-Kept :
      (l : Lease) (ref : Option String) (now : ℕ) (q : JobQueue)
      → held l now row ≡ false
      → Stays q
      → Kept (complete_at l ref now q)
  unfolding complete_at
  complete_at-Kept l ref now q n h = search (kept_rules, complete_held-Kept)

  complete_existing-Kept :
      (l : Lease) (ref : Option String) (now : ℕ) (o : Option JobRow) (q : JobQueue)
      → held l now row ≡ false
      → Stays q
      → Kept (complete_existing l ref now o q)
  unfolding complete_existing
  complete_existing-Kept l ref now none q n h = complete_at-Kept l ref now q n h
  complete_existing-Kept l ref now (some r) q n h = search (kept_rules, complete_at-Kept)

  complete-Kept :
      (l : Lease) (ref : Option String) (now : ℕ) (q : JobQueue)
      → held l now row ≡ false
      → Stays q
      → Kept (complete l ref now q)
  unfolding complete
  complete-Kept l ref now q n h = search (kept_rules, complete_existing-Kept)

  failed_job-Kept :
      (l : Lease) (now : ℕ) (status : JobStatus) (at : ℕ) (error : String)
      (g : AttemptRow → AttemptRow) (b : Bool) (q : JobQueue)
      → held l now row ≡ false
      → Stays q
      → Kept (commit l now (failed_job status at error now) g b q)
  unfolding failed_job
  failed_job-Kept l now status at error g b q n h = commit-Kept l now _ g b q (λ x. refl) n h

  fail_held-Kept :
      (l : Lease) (error : String) (now : ℕ) (random : Number) (o : Option JobRow) (q : JobQueue)
      → held l now row ≡ false
      → Stays q
      → Kept (fail_held l error now random o q)
  unfolding fail_held
  fail_held-Kept l error now random none q n h = same-Kept _ q h
  fail_held-Kept l error now random (some r) q n h = search (if-Kept, same-Kept, failed_job-Kept)

  fail-Kept :
      (l : Lease) (error : String) (now : ℕ) (random : Number) (q : JobQueue)
      → held l now row ≡ false
      → Stays q
      → Kept (fail l error now random q)
  unfolding fail
  fail-Kept l error now random q n h = search (kept_rules, fail_held-Kept)

  cancel_row-Stays :
      (other : String) (now : ℕ) (status : JobStatus) (q : JobQueue)
      → is_finished row.status ≡ true
      → Stays q
      → Stays (cancel_row other now status q)
  unfolding cancel_row
  cancel_row-Stays other now status q finished h =
      let a =
        job_by_id-set_where id (λ r. str_eq r.id other && is_running r.status)
          (λ r. record r { cancel_requested = true; updated_at = now }) q.jobs row (λ r. refl) h
          (ground (arith, running_unfinished row.status finished)) in
      let b =
        job_by_id-set_where id (λ r. str_eq r.id other && is_waiting r.status)
          (λ r. record r {
            status = JobStatus.cancelled;
            cancel_requested = true;
            updated_at = now;
          })
          q.jobs row (λ r. refl) h (ground (arith, waiting_unfinished row.status finished)) in
      ground arith

  cancel_found-Kept :
      (other : String) (now : ℕ) (o : Option JobRow) (q : JobQueue)
      → is_finished row.status ≡ true
      → Stays q
      → Kept (cancel_found other now o q)
  unfolding cancel_found
  cancel_found-Kept other now none q finished h = same-Kept _ q h
  cancel_found-Kept other now (some r) q finished h = search (kept_rules, cancel_row-Stays)

  cancel-Kept :
      (other : String) (now : ℕ) (q : JobQueue)
      → is_finished row.status ≡ true
      → Stays q
      → Kept (cancel other now q)
  unfolding cancel
  cancel-Kept other now q finished h = search (kept_rules, cancel_found-Kept)

  answer-Kept :
      (call : Call) (q : JobQueue) → is_finished row.status ≡ true → Stays q → Kept (answer call q)
  unfolding answer
  answer-Kept (heartbeats l lease_ms now) q finished h =
      heartbeat-Kept l lease_ms now q (held_unfinished l now row finished) h
  answer-Kept (completes l ref now) q finished h =
      complete-Kept l ref now q (held_unfinished l now row finished) h
  answer-Kept (fails l error now random) q finished h =
      fail-Kept l error now random q (held_unfinished l now row finished) h
  answer-Kept (cancels other now) q finished h = cancel-Kept other now q finished h

  -- A job that has succeeded, failed, been cancelled or gone to the dead letters keeps its row as it
  -- is, whatever heartbeats, completions, failures and cancellations follow, under whatever leases.
  pub finished_job-Stays :
      (calls : List Call) (q : JobQueue)
      → is_finished row.status ≡ true
      → job_by_id id q.jobs ≡ some row
      → job_by_id id (after_calls calls q).jobs ≡ some row
  unfolding after_calls
  finished_job-Stays [] q finished h = h
  finished_job-Stays (call ∷ calls) q finished h =
      finished_job-Stays calls (answer call q).1 finished (answer-Kept call q finished h).stays

  -- A lease whose fencing token is not the row's, because the job was claimed again since, neither
  -- prolongs, nor completes, nor fails it: the row stays as it is.
  pub stale_lease-Stays :
      (l : Lease) (lease_ms now : ℕ) (ref : Option String) (error : String) (random : Number)
      (q : JobQueue)
      → (row.fencing_token == l.fencing_token) ≡ false
      → job_by_id id q.jobs ≡ some row
      → (job_by_id id (heartbeat l lease_ms now q).1.jobs ≡ some row)
        × (job_by_id id (complete l ref now q).1.jobs ≡ some row)
        × (job_by_id id (fail l error now random q).1.jobs ≡ some row)
  stale_lease-Stays l lease_ms now ref error random q stale h =
      let n = held_stale l now row stale in
      (
        (heartbeat-Kept l lease_ms now q n h).stays,
        (complete-Kept l ref now q n h).stays,
        (fail-Kept l error now random q n h).stays,
      )
