-- ===== src/Worker/Tests.antt =====
-- The theorems on the worker at the sample data.
use vehinode.Prelude.{String, ◌≡◌, refl, ◌⊎◌, false, some, none, List, [], ◌∷◌, ◌==◌, ok}
use vehinode.Prelude.Table.{find, any, update_where}
use vehinode.Json.{obj, end, field, str}
use vehinode.Models.{JobStatus, HookState, ExecutionStatus, Db}
use vehinode.Worker.Input.{RuntimeResult}
use vehinode.Worker.Secrets.{any_in, is_in, contains_secret}
use vehinode.Worker.{Run, run_job, finish_execution, finished_execution, stored_state}
use vehinode.Worker.Safety.{finish_execution-no_secret, texts}
use vehinode.Worker.Completion.{JobDone, Ended, run_job_ends}
use vehinode.Fixtures.{workshop, job, execution}

-- A child that puts the secret into the state of its hook.
abbrev leaking : RuntimeResult
leaking = record {
  status = ExecutionStatus.success;
  state = obj (field "note" (str "the token is hunter2") end);
  logs = [];
  error = none;
}

abbrev harmless : RuntimeResult
harmless = record leaking { state = obj (field "note" (str "nothing") end) }

abbrev secrets : List String
secrets = "hunter2" ∷ []

abbrev run : Run
run = record {
  worker_id = "worker";
  version = "1";
  claimed_at = 1;
  started_at = 2;
  finished_at = 3;
  failed_at = 4;
  locked_elsewhere = λ k. false;
  secrets = secrets;
  child = λ input. ok leaking;
  duration = 0;
  meanwhile = λ db. db;
}

run_job_ends_example :
    JobDone (run_job run workshop (job 1 JobStatus.running (some 1))) 1
    × Ended run (run_job run workshop (job 1 JobStatus.running (some 1))) 1
run_job_ends_example = run_job_ends run workshop (job 1 JobStatus.running (some 1))

abbrev finished : RuntimeResult → Db
unfolding finish_execution finished_execution stored_state update_where
finished result = record workshop {
  executions = finished_execution result secrets 3 0 (execution 1 ExecutionStatus.pending) ∷ [];
  hook_states = stored_state result secrets 3 5 [];
  jobs =
      record (job 1 JobStatus.pending none) { status = JobStatus.completed; completed_at = some 3 }
      ∷ [];
}

leaked :
    finish_execution workshop (job 1 JobStatus.running (some 1)) 1 5 leaking secrets 3 0
    ≡ ok (finished leaking)
unfolding finish_execution finished find update_where
leaked = refl

kept :
    finish_execution workshop (job 1 JobStatus.running (some 1)) 1 5 harmless secrets 3 0
    ≡ ok (finished harmless)
unfolding finish_execution finished find update_where
kept = refl

abbrev state : HookState
state = record { hook_id = 5; value = harmless.state; version = 1; updated_at = 3 }

finish_execution-no_secret_example :
    (find (λ (x : HookState). x.hook_id == 5) workshop.hook_states ≡ some state)
    ⊎ ((harmless.status ≡ ExecutionStatus.success)
        × (any (any_in secrets) (texts state.value) ≡ false))
unfolding finished find stored_state contains_secret any_in is_in any
finish_execution-no_secret_example =
    finish_execution-no_secret workshop (job 1 JobStatus.running (some 1)) 1 5 harmless secrets 3 0
      (finished harmless) kept 5 state refl
