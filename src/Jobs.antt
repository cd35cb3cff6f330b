-- ===== src/Jobs.antt =====
-- backend/app/jobs/services.py: the queue of jobs in the database, with leases.
pub mod Leases
pub mod Queue
pub mod Claims
mod Tests
use vehinode.Prelude.{
  ℕ, ◌+◌, ◌-◌, String, Bool, true, false, not, ◌&&◌, ◌||◌, Option, none, some, List, [], ◌∷◌, leb,
  ltb, ◌==◌, if◌then◌else◌, length, is_none,
}
use vehinode.Prelude.Table.{find, select, update_where, order_by}
use vehinode.Models.{
  Key, Instant, seconds, Job, JobStatus, JobType, HookExecution, ExecutionStatus, Db,
}

abbrev pub lease_seconds : ℕ
lease_seconds = 180

abbrev pub lease_error : String
lease_error = "worker lease expired; manual retry required"

abbrev pub is_job_pending : JobStatus → Bool
is_job_pending JobStatus.pending = true
is_job_pending _ = false

abbrev pub is_job_running : JobStatus → Bool
is_job_running JobStatus.running = true
is_job_running _ = false

abbrev pub is_execution_running : ExecutionStatus → Bool
is_execution_running ExecutionStatus.running = true
is_execution_running _ = false

-- `status in {"pending", "running"}`
abbrev pub is_execution_open : ExecutionStatus → Bool
is_execution_open ExecutionStatus.pending = true
is_execution_open ExecutionStatus.running = true
is_execution_open _ = false

abbrev pub is_hook_execute : JobType → Bool
is_hook_execute JobType.hook_execute = true
is_hook_execute JobType.other = false

-- `locked_at < moment` in SQL, where a NULL fails every comparison
abbrev pub locked_before : Option Instant → Instant → Bool
locked_before none moment = false
locked_before (some at) moment = ltb at moment

-- `utcnow() - timedelta(seconds=LEASE_SECONDS)`
abbrev pub lease_cutoff : Instant → Instant
lease_cutoff now = now - seconds lease_seconds

abbrev pub is_stale : Instant → Job → Bool
is_stale now job = is_job_running job.status && locked_before job.locked_at (lease_cutoff now)

abbrev pub expire_job : Instant → Job → Job
expire_job now job = record job {
  status = JobStatus.failed;
  completed_at = some now;
  last_error = some lease_error;
}

abbrev pub expire_execution : Instant → HookExecution → HookExecution
expire_execution now execution = record execution {
  status = ExecutionStatus.failed;
  finished_at = some now;
  error = some lease_error;
}

-- The execution of a stale hook job, if it is there and still running.
unfoldable pub expire_execution_of : Instant → Job → List HookExecution → List HookExecution
expire_execution_of now job executions =
    if is_hook_execute job.type
    then elim job.execution_id [
      | none ↦ executions
      | some k ↦
          update_where (λ e. e.id == k && is_execution_running e.status) (expire_execution now)
            executions
    ]
    else executions

-- The body of the loop over the stale jobs.
unfoldable pub expire : Instant → Job → Db → Db
expire now job db = record db {
  executions = expire_execution_of now job db.executions;
  jobs = update_where (λ j. j.id == job.id) (expire_job now) db.jobs;
}

unfoldable pub expire_all : Instant → List Job → Db → Db
expire_all now [] db = db
expire_all now (job ∷ stale) db = expire_all now stale (expire now job db)

unfoldable pub recover_expired_leases : Db → Instant → ℕ × Db
recover_expired_leases db now =
    let stale = select (is_stale now) db.jobs in (length stale, expire_all now stale db)

-- The jobs that a worker may take. Rows that another transaction has locked are skipped; the clock
-- is read once for a claim.
unfoldable pub is_claimable : Instant → (Key → Bool) → Job → Bool
is_claimable now locked_elsewhere job =
    is_job_pending job.status
    && (leb job.next_attempt_at now
        && ((locked_before job.locked_at (lease_cutoff now) || is_none job.locked_at)
            && not (locked_elsewhere job.id)))

abbrev pub claimed : Instant → String → Job → Job
claimed now worker_id job = record job {
  status = JobStatus.running;
  attempts = job.attempts + 1;
  locked_at = some now;
  locked_by = some worker_id;
}

unfoldable pub claim_first : Instant → String → List Job → Db → Option Job × Db
claim_first now worker_id [] db = (none, db)
claim_first now worker_id (job ∷ rest) db = (
  some (claimed now worker_id job),
  record db { jobs = update_where (λ j. j.id == job.id) (claimed now worker_id) db.jobs },
)

-- The claimed job, as the worker holds it, and the database.
unfoldable pub claim_job : Db → Instant → String → (Key → Bool) → Option Job × Db
claim_job db now worker_id locked_elsewhere =
    let db₁ = (recover_expired_leases db now).1 in
    claim_first now worker_id
      (order_by (λ (j : Job). j.created_at) (select (is_claimable now locked_elsewhere) db₁.jobs))
      db₁
