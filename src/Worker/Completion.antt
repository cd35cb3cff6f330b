-- ===== src/Worker/Completion.antt =====
-- How a claimed job ends, on every path through `process_one` of backend/app/worker.py.
use vehinode.Prelude.{
  ℕ, String, ◌≡◌, refl, sym, ◌⊎◌, subst, inl, inr, Bool, true, false, ◌&&◌, some, none, Option,
  List, arith, ◌==◌, ==_iff, if◌then◌else◌, Bool-cases, Option-cases, IfSome, Result, ok, err,
  bind_inverse,
}
use vehinode.Prelude.Table.{find, update_where, find-update_where, find-holds}
use vehinode.Json.{Double}
use vehinode.Models.{Key, Instant, Job, JobStatus, HookExecution, ExecutionStatus, Hook, Db}
use vehinode.Jobs.{is_execution_open, is_hook_execute}
use vehinode.Worker.Input.{RuntimeInput, RuntimeResult}
use vehinode.Worker.{
  Begun, skipped, started, begin_execution, finish_execution, finished_execution, fail_execution,
  fail_job, Run, settle, run_begun, run_started, run_job, error_text, get_execution, get_job,
}

-- `completed` and `failed` are final for a job.
abbrev pub is_job_done : JobStatus → Bool
is_job_done JobStatus.completed = true
is_job_done JobStatus.failed = true
is_job_done _ = false

abbrev pub JobDone : Db → Key → Type 0
JobDone db k = IfSome (λ (j : Job). is_job_done j.status ≡ true) (get_job db k)

abbrev pub ExecutionDone : Db → Key → Type 0
ExecutionDone db k =
    IfSome (λ (e : HookExecution). is_execution_open e.status ≡ false) (get_execution db k)

-- An assignment to the row of a key leaves what it assigns.
IfSome-update_where :
    {A : Type 0} (key : A → ℕ) (k : ℕ) (q : A → Bool) (f : A → A) (P : A → Type 0) (xs : List A)
    → ((x : A) → key (f x) ≡ key x)
    → ((x : A) → key x ≡ k → P (if q x then f x else x))
    → IfSome P (find (λ y. key y == k) (update_where q f xs))
IfSome-update_where {A} key k q f P xs same h =
    rw (find-update_where (λ y. key y == k) q f xs (λ x. rw (same x))) (
      go (find (λ y. key y == k) xs)
        (λ x e. (==_iff (key x) k).0 (find-holds (λ y. key y == k) xs e)))
  where
    go :
        (o : Option A)
        → ((x : A) → o ≡ some x → key x ≡ k)
        → IfSome P (elim o [ none ↦ none | some x ↦ some (if q x then f x else x) ])
    go none held = tt
    go (some x) held = h x (held x refl)

-- A job is done once its row is assigned a final status.
assigned-JobDone :
    (jobs : List Job) (db : Db) (k : Key) (f : Job → Job)
    → ((j : Job) → (f j).id ≡ j.id)
    → ((j : Job) → is_job_done (f j).status ≡ true)
    → update_where (λ (j : Job). j.id == k) f jobs ≡ db.jobs
    → JobDone db k
assigned-JobDone jobs db k f same done e =
    subst
      (λ (js : List Job).
        IfSome (λ (j : Job). is_job_done j.status ≡ true) (find (λ (j : Job). j.id == k) js))
      e
      (IfSome-update_where (λ (j : Job). j.id) k (λ j. j.id == k) f
        (λ j. is_job_done j.status ≡ true) jobs same (λ j e. rw ((==_iff j.id k).1 e) (done j)))

module _ (r : Run) (job : Job) where
  fail_job-JobDone :
      (message : String) (now : Instant) (db : Db) → JobDone (fail_job job message now db) job.id
  unfolding fail_job
  fail_job-JobDone message now db =
      assigned-JobDone db.jobs (fail_job job message now db) job.id
        (λ j. record j {
          status = JobStatus.failed;
          last_error = some (error_text message);
          completed_at = some now;
        })
        (λ j. refl) (λ j. refl) refl

  finish_execution-JobDone :
      (db : Db) (e h : Key) (result : RuntimeResult) (secrets : List String) (finished : Instant)
      (duration : Double) (db' : Db)
      → finish_execution db job e h result secrets finished duration ≡ ok db'
      → JobDone db' job.id
  unfolding finish_execution
  finish_execution-JobDone db e h result secrets finished duration db' done =
      assigned-JobDone db.jobs db' job.id
        (λ j. record j {
          status = JobStatus.completed;
          completed_at = some finished;
          locked_at = none;
          locked_by = none;
        })
        (λ j. refl) (λ j. refl) (ground arith)

  settle-JobDone :
      (db : Db) (res : Result String Db)
      → ((done : Db) → res ≡ ok done → JobDone done job.id)
      → JobDone (settle r job db res) job.id
  unfolding settle
  settle-JobDone db (ok done) k = k done refl
  settle-JobDone db (err message) k = fail_job-JobDone message r.failed_at db

  -- A job whose execution is already over is completed without a run.
  begin_execution-skipped :
      (db db' : Db) (now : Instant)
      → begin_execution db job now ≡ ok (skipped, db')
      → JobDone db' job.id
  unfolding begin_execution
  begin_execution-skipped db db' now h =
      assigned-JobDone db.jobs db' job.id
        (λ j. record j { status = JobStatus.completed; completed_at = some now }) (λ j. refl)
        (λ j. refl) (ground arith)

  run_begun-JobDone :
      (db : Db) (res : Result String (Begun × Db))
      → ((db' : Db) → res ≡ ok (skipped, db') → JobDone db' job.id)
      → JobDone (run_begun r db job res) job.id
  unfolding run_begun run_started
  run_begun-JobDone db (ok (skipped, db')) k = k db' refl
  run_begun-JobDone db (ok (started execution hook input, db')) k = settle-JobDone _ _ (λ done e.
      let (result, ran, finished) = bind_inverse (r.child input) _ e in
      finish_execution-JobDone _ _ _ result _ _ _ done finished)
  run_begun-JobDone db (err message) k =
      settle-JobDone db (err message) (λ done e. absurd (ground arith))

  run_job-JobDone : (db : Db) → JobDone (run_job r db job) job.id
  unfolding run_job
  run_job-JobDone db = elim (Bool-cases (is_hook_execute job.type)) [
    | inl hook ↦
        rw hook (run_begun-JobDone db _ (λ db' e. begin_execution-skipped db db' r.started_at e))
    | inr other ↦
        rw other (settle-JobDone db (err "unknown job type") (λ done e. absurd (ground arith)))
  ]

abbrev pub is_left_open : Result String RuntimeResult → Bool
is_left_open (ok result) = is_execution_open result.status
is_left_open (err message) = false

-- The execution is over, or the child has reported that it is not.
abbrev pub Ended : Run → Db → Key → Type 0
Ended r db k = ExecutionDone db k ⊎ ((input : RuntimeInput) × (is_left_open (r.child input) ≡ true))

-- An execution is done once its row is assigned a final status, or has one already.
assigned-ExecutionDone :
    (executions : List HookExecution) (db : Db) (k : Key) (q : HookExecution → Bool)
    (f : HookExecution → HookExecution)
    → ((e : HookExecution) → (f e).id ≡ e.id)
    → ((e : HookExecution) → e.id ≡ k → is_execution_open (if q e then f e else e).status ≡ false)
    → update_where q f executions ≡ db.executions
    → ExecutionDone db k
assigned-ExecutionDone executions db k q f same done e =
    subst
      (λ (es : List HookExecution).
        IfSome (λ (e : HookExecution). is_execution_open e.status ≡ false)
          (find (λ (e : HookExecution). e.id == k) es))
      e
      (IfSome-update_where (λ (e : HookExecution). e.id) k q f
        (λ e. is_execution_open e.status ≡ false) executions same done)

module _ (r : Run) (job : Job) (k : Key) (carried : job.execution_id ≡ some k) where
  fail_job-ExecutionDone :
      (message : String) (now : Instant) (db : Db) → ExecutionDone (fail_job job message now db) k
  unfolding fail_job fail_execution
  fail_job-ExecutionDone message now db =
      assigned-ExecutionDone db.executions (fail_job job message now db) k
        (λ e. e.id == k && is_execution_open e.status)
        (λ e. record e {
          status = ExecutionStatus.failed;
          error = some (error_text message);
          finished_at = some now;
        })
        (λ e. refl) (λ e same. ground arith) (ground arith)

  finish_execution-ExecutionDone :
      (db : Db) (h : Key) (result : RuntimeResult) (secrets : List String) (finished : Instant)
      (duration : Double) (db' : Db)
      → is_execution_open result.status ≡ false
      → finish_execution db job k h result secrets finished duration ≡ ok db'
      → ExecutionDone db' k
  unfolding finish_execution finished_execution
  finish_execution-ExecutionDone db h result secrets finished duration db' closed done =
      assigned-ExecutionDone db.executions db' k (λ e. e.id == k)
        (finished_execution result secrets finished duration) (λ e. refl) (λ e same. ground arith)
        (ground arith)

  settle-ExecutionDone :
      (db : Db) (res : Result String Db)
      → ((done : Db) → res ≡ ok done → ExecutionDone done k)
      → ExecutionDone (settle r job db res) k
  unfolding settle
  settle-ExecutionDone db (ok done) h = h done refl
  settle-ExecutionDone db (err message) h = fail_job-ExecutionDone message r.failed_at db

  begin_execution-over :
      (db db' : Db) (now : Instant)
      → begin_execution db job now ≡ ok (skipped, db')
      → (e : HookExecution) × (get_execution db' k ≡ some e) × (is_execution_open e.status ≡ false)
  unfolding begin_execution
  begin_execution-over db db' now h = elim (Option-cases (get_execution db k)) [
    | inl missing ↦ absurd (ground arith)
    | inr (e, there) ↦ (e, ground arith, ground arith)
  ]

  begin_execution-key :
      (db db' : Db) (now : Instant) (execution : HookExecution) (hook : Hook) (input : RuntimeInput)
      → begin_execution db job now ≡ ok (started execution hook input, db')
      → execution.id ≡ k
  unfolding begin_execution
  begin_execution-key db db' now execution hook input h =
      ground (arith, find-holds (λ (e : HookExecution). e.id == k) db.executions {a = execution})

  run_begun-Ended :
      (db : Db) (res : Result String (Begun × Db))
      → ((db' : Db) → res ≡ ok (skipped, db') → ExecutionDone db' k)
      → ((db' : Db) (execution : HookExecution) (hook : Hook) (input : RuntimeInput)
          → res ≡ ok (started execution hook input, db')
          → execution.id ≡ k)
      → Ended r (run_begun r db job res) k
  unfolding run_begun run_started
  run_begun-Ended db (ok (skipped, db')) over key = inl (over db' refl)
  run_begun-Ended db (ok (started execution hook input, db')) over key =
      elim (Bool-cases (is_left_open (r.child input))) [
        | inl reported ↦ inr (input, reported)
        | inr closed ↦ inl (
            rw (key db' execution hook input refl) (
              settle-ExecutionDone _ _ (λ done e.
                let (result, ran, finished) = bind_inverse (r.child input) _ e in
                finish_execution-ExecutionDone _ hook.id result r.secrets r.finished_at r.duration
                  done (ground arith) finished)))
      ]
  run_begun-Ended db (err message) over key =
      inl (settle-ExecutionDone db (err message) (λ done e. absurd (ground arith)))

  over-ExecutionDone :
      (db : Db)
      → (e : HookExecution) × (get_execution db k ≡ some e) × (is_execution_open e.status ≡ false)
      → ExecutionDone db k
  over-ExecutionDone db (e, there, over) = rw there over

  run_job-Ended : (db : Db) → Ended r (run_job r db job) k
  unfolding run_job
  run_job-Ended db = elim (Bool-cases (is_hook_execute job.type)) [
    | inl hook ↦ rw hook (
        run_begun-Ended db _
          (λ db' e. over-ExecutionDone db' (begin_execution-over db db' r.started_at e))
          (λ db' execution hook input e.
            begin_execution-key db db' r.started_at execution hook input e))
    | inr other ↦
        rw other
          (inl (settle-ExecutionDone db (err "unknown job type") (λ done e. absurd (ground arith))))
  ]

-- Whatever the child returns or raises and whatever other transactions commit meanwhile, the row of
-- a claimed job, if it is still there, ends as completed or failed; and the row of the execution that
-- the job carries, if it carries one that is still there, ends in a final status, unless the child
-- reports, on some input, a status that is not final.
pub run_job_ends :
    (r : Run) (db : Db) (job : Job)
    → JobDone (run_job r db job) job.id × IfSome (Ended r (run_job r db job)) job.execution_id
run_job_ends r db job = (run_job-JobDone r job db, go (Option-cases job.execution_id))
  where
    go :
        (job.execution_id ≡ none) ⊎ ((k : Key) × (job.execution_id ≡ some k))
        → IfSome (Ended r (run_job r db job)) job.execution_id
    go (inl e) = rw e tt
    go (inr (k, e)) =
        subst (IfSome (Ended r (run_job r db job))) (sym e) (run_job-Ended r job k e db)
