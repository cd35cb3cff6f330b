-- ===== src/Jobs/Tests.antt =====
-- The theorems on the job queue at the sample data.
use vehinode.Prelude.{◌≡◌, refl, Bool, false, some, none, [], ◌∷◌}
use vehinode.Prelude.Table.{select, any, update_where, order_by}
use vehinode.Models.{Key, Instant, Job, JobStatus, ExecutionStatus, Db}
use vehinode.Jobs.{
  recover_expired_leases, expire_all, expire, expire_execution_of, expire_job, claim_job,
  claim_first, claimed, is_claimable,
}
use vehinode.Jobs.Queue.{IsQueue}
use vehinode.Jobs.Claims.{IsTaken, claim_job-some}
use vehinode.Fixtures.{empty_db, job, execution}

-- Job 1 waits; job 2 was locked at the first second and its worker is gone.
abbrev waiting : Job
waiting = job 1 JobStatus.pending none

abbrev crashed : Job
crashed = record (job 2 JobStatus.running (some 1_000_000)) { attempts = 1 }

abbrev queue : Db
queue = record empty_db {
  jobs = waiting ∷ crashed ∷ [];
  executions = execution 1 ExecutionStatus.pending ∷ execution 2 ExecutionStatus.running ∷ [];
}

-- Two hundred seconds later.
abbrev late : Instant
late = 201_000_000

is_queue : IsQueue queue.jobs
unfolding any
is_queue = record { unique = (refl, (refl, tt)); attempted = (refl, (refl, tt)) }

abbrev nobody : Key → Bool
nobody k = false

abbrev after : Db
unfolding recover_expired_leases expire_all expire expire_execution_of select update_where
after = record (recover_expired_leases queue late).1 {
  jobs = claimed late "worker" waiting ∷ expire_job late crashed ∷ [];
}

taken : claim_job queue late "worker" nobody ≡ (some (claimed late "worker" waiting), after)
unfolding claim_job claim_first is_claimable recover_expired_leases expire_all expire
    expire_execution_of select order_by update_where after
taken = refl

claim_job-some_example :
    IsTaken late "worker" nobody
      (recover_expired_leases queue late).1.jobs
      (claimed late "worker" waiting)
      after.jobs
claim_job-some_example =
    claim_job-some queue late "worker" nobody is_queue (claimed late "worker" waiting) after taken

-- A second claim finds nothing to take.
taken_again : claim_job after late "worker" nobody ≡ (none, (recover_expired_leases after late).1)
unfolding claim_job claim_first is_claimable recover_expired_leases expire_all expire
    expire_execution_of select order_by update_where after
taken_again = refl

after_queue : IsQueue after.jobs
unfolding after any
after_queue = record { unique = (refl, (refl, tt)); attempted = (refl, (refl, tt)) }
