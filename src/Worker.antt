-- ===== src/Worker.antt =====
-- backend/app/worker.py, and from backend/app/hooks/runtime.py what a child process is given.
-- A worker claims one job, runs the hook of its execution in a child process, and stores the result.
mod Secrets
mod Input
pub mod Safety
pub mod Completion
mod Tests
unfoldable pub use Secrets.{contains_secret, contains_secret_items, contains_secret_fields}
pub use Secrets.{is_in, any_in}
pub use Input.{RuntimeInput, RuntimeResult}
unfoldable pub use Input.{build_runtime_input, batch_rows}
use vehinode.Prelude.{
  ℕ, ◌+◌, String, Bool, true, false, not, ◌&&◌, ◌||◌, Option, none, some, List, [], ◌∷◌, ◌++◌, ◌==◌,
  str_eq, if◌then◌else◌, Result, ok, err, ◌>>=◌, ◌>>◌, raise_if, is_none,
}
use vehinode.Prelude.Table.{find, any, update_where}
use vehinode.Json.{Double, Json}
use vehinode.Models.{
  Key, Instant, Job, JobStatus, HookExecution, ExecutionStatus, HookState, WorkerHeartbeat, Hook,
  Db,
}
use vehinode.Jobs.{is_execution_open, is_hook_execute, claim_job}

unfoldable pub heartbeat : String → String → Instant → Db → Db
heartbeat worker_id version now db =
    if any (λ (w : WorkerHeartbeat). str_eq w.worker_id worker_id) db.heartbeats
    then record db {
      heartbeats =
          update_where (λ (w : WorkerHeartbeat). str_eq w.worker_id worker_id)
            (λ w. record w { seen_at = now; version = version }) db.heartbeats;
    }
    else record db {
      heartbeats =
          db.heartbeats ++ record { worker_id = worker_id; version = version; seen_at = now } ∷ [];
    }

abbrev pub get_execution : Db → Key → Option HookExecution
get_execution db k = find (λ (e : HookExecution). e.id == k) db.executions

abbrev pub get_job : Db → Key → Option Job
get_job db k = find (λ (j : Job). j.id == k) db.jobs

abbrev pub change_job : Key → (Job → Job) → Db → Db
change_job k f db = record db { jobs = update_where (λ (j : Job). j.id == k) f db.jobs }

abbrev pub change_execution : Key → (HookExecution → HookExecution) → Db → Db
change_execution k f db = record db {
  executions = update_where (λ (e : HookExecution). e.id == k) f db.executions;
}

-- How far `execute_hook_job` gets before it runs the child.
pub data Begun : Type 0 where
  skipped : Begun
  started : HookExecution → Hook → RuntimeInput → Begun

begin_found : Db → Job → Instant → Option HookExecution → Result String (Begun × Db)
begin_found db job now none = err "hook execution no longer exists"
begin_found db job now (some execution) =
    if not (is_execution_open execution.status)
    then ok (
      skipped,
      change_job job.id (λ j. record j { status = JobStatus.completed; completed_at = some now })
          db,
    )
    else do
      (hook, input) ← build_runtime_input db execution
      ok (
        started execution hook input,
        change_execution execution.id
            (λ e. record e { status = ExecutionStatus.running; started_at = some now }) db,
      )

-- `execute_hook_job` up to its commit.
unfoldable pub begin_execution : Db → Job → Instant → Result String (Begun × Db)
unfolding begin_found
begin_execution db job now = elim job.execution_id [
  | none ↦ err "hook job has no execution_id"
  | some k ↦ begin_found db job now (get_execution db k)
]

abbrev pub secret_error : String
secret_error = "hook state contains a secret value and was not persisted"

abbrev pub is_success : ExecutionStatus → Bool
is_success ExecutionStatus.success = true
is_success _ = false

-- The columns that the result of the child sets.
unfoldable pub finished_execution :
    RuntimeResult → List String → Instant → Double → HookExecution → HookExecution
finished_execution result secrets finished duration e =
    let leaks = is_success result.status && contains_secret result.state secrets in
    record e {
      status = if leaks then ExecutionStatus.failed else result.status;
      logs = result.logs;
      error = if leaks then some secret_error else result.error;
      finished_at = some finished;
      duration_seconds = some duration;
    }

-- The state of the hook, which is stored only after a success and without a secret in it.
unfoldable pub stored_state :
    RuntimeResult → List String → Instant → Key → List HookState → List HookState
stored_state result secrets finished hook_id states =
    if is_success result.status && not (contains_secret result.state secrets)
    then if any (λ (s : HookState). s.hook_id == hook_id) states
      then update_where (λ s. s.hook_id == hook_id)
          (λ s. record s { value = result.state; version = s.version + 1; updated_at = finished })
          states
      else states
        ++ record { hook_id = hook_id; value = result.state; version = 1; updated_at = finished }
          ∷ []
    else states

-- The rest of `execute_hook_job`, on the database as it stands when the child has ended.
unfoldable pub finish_execution :
    Db → Job → Key → Key → RuntimeResult → List String → Instant → Double → Result String Db
finish_execution db job execution_id hook_id result secrets finished duration = do
  raise_if (is_none (get_execution db execution_id) || is_none (get_job db job.id))
      "execution state disappeared"
  ok (record db {
    executions =
        update_where (λ (e : HookExecution). e.id == execution_id)
          (finished_execution result secrets finished duration) db.executions;
    hook_states = stored_state result secrets finished hook_id db.hook_states;
    jobs =
        update_where (λ (j : Job). j.id == job.id)
          (λ j. record j {
            status = JobStatus.completed;
            completed_at = some finished;
            locked_at = none;
            locked_by = none;
          })
          db.jobs;
  })

-- `message[:n]`
abbrev pub shorten : ℕ → String → String
shorten n String.[] = String.[]
shorten Prim.Native.Nat.zero (String.◌∷◌ c s) = String.[]
shorten (Prim.Native.Nat.suc n) (String.◌∷◌ c s) = String.◌∷◌ c (shorten n s)

-- `str(exc)[:4000]`
unfoldable pub error_text : String → String
error_text message = shorten 4000 message

unfoldable pub fail_execution :
    Option Key → String → Instant → List HookExecution → List HookExecution
fail_execution none message now executions = executions
fail_execution (some k) message now executions =
    update_where (λ (e : HookExecution). e.id == k && is_execution_open e.status)
      (λ e. record e {
        status = ExecutionStatus.failed;
        error = some (error_text message);
        finished_at = some now;
      })
      executions

-- The handler of `process_one` for an exception, after its rollback.
unfoldable pub fail_job : Job → String → Instant → Db → Db
fail_job job message now db = record db {
  jobs =
      update_where (λ (j : Job). j.id == job.id)
        (λ j. record j {
          status = JobStatus.failed;
          last_error = some (error_text message);
          completed_at = some now;
        })
        db.jobs;
  executions = fail_execution job.execution_id message now db.executions;
}

-- What a run of `process_one` meets: its settings, the times at which it reads the clock, the rows
-- that others hold locked, the decrypted secrets, the child process, whose call may end with an
-- exception of which `err` has the text, and what other transactions
-- commit while the child runs.
pub record Run : Type 0 where
  pub worker_id : String
  pub version : String
  pub claimed_at : Instant
  pub started_at : Instant
  pub finished_at : Instant
  pub failed_at : Instant
  pub locked_elsewhere : Key → Bool
  pub secrets : List String
  pub child : RuntimeInput → Result String RuntimeResult
  pub duration : Double
  pub meanwhile : Db → Db

-- The end of the `try` block of `process_one`: a commit, or a rollback and the handler.
unfoldable pub settle : Run → Job → Db → Result String Db → Db
settle r job db (ok done) = done
settle r job db (err message) = fail_job job message r.failed_at db

-- The child runs between two transactions, and others may commit in between.
unfoldable pub run_started : Run → Db → Job → Begun → Db
run_started r db job skipped = db
run_started r db job (started execution hook input) =
    let db' = r.meanwhile db in
    settle r job db' (do
      result ← r.child input
      finish_execution db' job execution.id hook.id result r.secrets r.finished_at r.duration)

unfoldable pub run_begun : Run → Db → Job → Result String (Begun × Db) → Db
run_begun r db job (ok (begun, db')) = run_started r db' job begun
run_begun r db job (err message) = settle r job db (err message)

-- The `try` block of `process_one` and its handler, on a claimed job.
unfoldable pub run_job : Run → Db → Job → Db
run_job r db job =
    if is_hook_execute job.type
    then run_begun r db job (begin_execution db job r.started_at)
    else settle r job db (err "unknown job type")

unfoldable pub run_claimed : Run → Option Job × Db → Bool × Db
run_claimed r (none, db) = (false, db)
run_claimed r (some job, db) = (true, run_job r db job)

unfoldable pub process_one : Run → Db → Bool × Db
process_one r db = run_claimed r (
    claim_job (heartbeat r.worker_id r.version r.claimed_at db) r.claimed_at r.worker_id
      r.locked_elsewhere)
