-- ===== src/Jobs/Claims.antt =====
-- `claim_job` of backend/app/jobs/services.py: which job a worker receives.
use vehinode.Prelude.{
  ◌+◌, ◌≤◌, String, subst₂, ◌≡◌, refl, Bool, true, false, some, none, List, [], ◌∷◌, arith, ◌==◌,
  All,
}
use vehinode.Prelude.Table.{find, select, update_where, order_by}
use vehinode.Prelude.Table.Keys.{find-update_where_self, UniqueBy-update_where}
use vehinode.Prelude.Table.Selection.{
  All-mono, All-All, All-both, All-find, All-update_where, All-key, All-select, All-order_by,
  All-of_order_by, order_by-IsOrdered, IsOrdered,
}
use vehinode.Models.{Key, Instant, Job, JobStatus, Db}
use vehinode.Jobs.{
  is_job_pending, is_claimable, recover_expired_leases, claimed, claim_first, claim_job,
}
use vehinode.Jobs.Queue.{AttemptedOnce, IsQueue, recover-IsQueue}

-- What a claim takes: `before` are the jobs after recovery, and `after` those after the claim.
pub record IsTaken (now : Instant) (worker_id : String) (locked_elsewhere : Key → Bool)
    (before : List Job) (job : Job) (after : List Job) : Type 0 where
  pub old : Job
  pub was_there : find (λ (j : Job). j.id == job.id) before ≡ some old
  pub claimable : is_claimable now locked_elsewhere old ≡ true
  pub was_pending : old.status ≡ JobStatus.pending
  pub was_due : old.next_attempt_at ≤ now
  pub was_free : locked_elsewhere old.id ≡ false
  pub runs : job.status ≡ JobStatus.running
  pub leased :
      (job.locked_at ≡ some now)
      × (job.locked_by ≡ some worker_id)
      × (job.attempts ≡ old.attempts + 1)
  pub is_claimed : job ≡ claimed now worker_id old
  pub oldest :
      All (λ j. old.created_at ≤ j.created_at) (select (is_claimable now locked_elsewhere) before)
  pub stored : find (λ (j : Job). j.id == job.id) after ≡ some job
  pub queue : IsQueue after

module _ (db : Db) (now : Instant) (worker_id : String) (locked_elsewhere : Key → Bool)
    (q : IsQueue db.jobs) where
  -- The database after recovery, and the jobs that may be taken from it, oldest first.
  abbrev recovered : Db
  recovered = (recover_expired_leases db now).1

  abbrev candidates : List Job
  candidates =
      order_by (λ (j : Job). j.created_at)
        (select (is_claimable now locked_elsewhere) recovered.jobs)

  candidates-found : All (λ j. find (λ (i : Job). i.id == j.id) recovered.jobs ≡ some j) candidates
  candidates-found =
      All-order_by _ (λ (j : Job). j.created_at) _
        (All-select (λ (j : Job). find (λ (i : Job). i.id == j.id) recovered.jobs ≡ some j)
          (is_claimable now locked_elsewhere) recovered.jobs
          (All-mono (λ (j : Job). find (λ (i : Job). i.id == j.id) recovered.jobs ≡ some j) _
            recovered.jobs (λ j h _. h)
            (All-find (λ (j : Job). j.id) recovered.jobs (recover-IsQueue now db q).unique)))

  candidates-claimable : All (λ j. is_claimable now locked_elsewhere j ≡ true) candidates
  candidates-claimable =
      All-order_by _ (λ (j : Job). j.created_at) _
        (All-select (λ (j : Job). is_claimable now locked_elsewhere j ≡ true)
          (is_claimable now locked_elsewhere) recovered.jobs (All-All _ recovered.jobs (λ j h. h)))

  All-of_candidates :
      (P : Job → Type 0)
      → All P candidates
      → All P (select (is_claimable now locked_elsewhere) recovered.jobs)
  All-of_candidates P h = All-of_order_by P (λ (j : Job). j.created_at) _ h

  claimable_inverse :
      (old : Job)
      → is_claimable now locked_elsewhere old ≡ true
      → (old.status ≡ JobStatus.pending)
        × (old.next_attempt_at ≤ now)
        × (locked_elsewhere old.id ≡ false)
  unfolding is_claimable
  claimable_inverse old h = (ground arith, ground arith, ground arith)

  claimed-IsQueue :
      (old : Job)
      → find (λ (j : Job). j.id == old.id) recovered.jobs ≡ some old
      → is_claimable now locked_elsewhere old ≡ true
      → IsQueue (update_where (λ j. j.id == old.id) (claimed now worker_id) recovered.jobs)
  unfolding is_claimable
  claimed-IsQueue old found may =
      let r = recover-IsQueue now db q in
      let pending =
        All-key (λ j. is_job_pending j.status ≡ true) (λ (j : Job). j.id) old.id recovered.jobs
          {a = old} r.unique found (ground arith) in
      record {
        unique =
            UniqueBy-update_where (λ (j : Job). j.id) (λ j. j.id == old.id) (claimed now worker_id)
              recovered.jobs (λ j. refl) r.unique;
        attempted =
            All-update_where AttemptedOnce (λ j. j.id == old.id) (claimed now worker_id)
              recovered.jobs
              (All-both (λ (j : Job). j.id == old.id ≡ true → is_job_pending j.status ≡ true)
                AttemptedOnce (λ j. j.id == old.id ≡ true → AttemptedOnce (claimed now worker_id j))
                recovered.jobs (λ j p a e. first j (p e) a) pending r.attempted)
              r.attempted;
      }
    where
      first : (j : Job) → is_job_pending j.status ≡ true → AttemptedOnce j → j.attempts + 1 ≡ 1
      first j p a = ground arith

  some-IsTaken :
      (c : List Job)
      → All (λ j. find (λ (i : Job). i.id == j.id) recovered.jobs ≡ some j) c
      → All (λ j. is_claimable now locked_elsewhere j ≡ true) c
      → IsOrdered (λ (j : Job). j.created_at) c
      → ((P : Job → Type 0)
          → All P c
          → All P (select (is_claimable now locked_elsewhere) recovered.jobs))
      → (job : Job) (db' : Db) → claim_first now worker_id c recovered ≡ (some job, db')
      → IsTaken now worker_id locked_elsewhere recovered.jobs job db'.jobs
  unfolding claim_first
  some-IsTaken [] found may ordered all job db' h = absurd (ground arith)
  some-IsTaken (old ∷ rest) found may ordered all job db' h =
      let w = claimable_inverse old may.0 in
      let e : claimed now worker_id old ≡ job = ground arith in
      let jobs : List Job =
        update_where (λ j. j.id == old.id) (claimed now worker_id) recovered.jobs in
      let e' : jobs ≡ db'.jobs = ground arith in
      subst₂ (IsTaken now worker_id locked_elsewhere recovered.jobs) e e' (record {
        old = old;
        was_there = found.0;
        claimable = may.0;
        was_pending = w.0;
        was_due = w.1;
        was_free = w.2;
        runs = refl;
        leased = (refl, refl, refl);
        is_claimed = refl;
        oldest = all (λ j. old.created_at ≤ j.created_at) (omega arith, ordered.0);
        stored =
            find-update_where_self (λ (j : Job). j.id) old.id (claimed now worker_id) recovered.jobs
              (λ j. refl) found.0;
        queue = claimed-IsQueue old found.0 may.0;
      })

  -- A claim that returns a job has taken one that was pending, due and not locked after recovery,
  -- none older could be taken, the job that is returned is the one that is stored, running under
  -- this worker's name with its lease set to now, and the table keeps its invariant.
  pub claim_job-some :
      (job : Job) (db' : Db)
      → claim_job db now worker_id locked_elsewhere ≡ (some job, db')
      → IsTaken now worker_id locked_elsewhere (recover_expired_leases db now).1.jobs job db'.jobs
  unfolding claim_job
  claim_job-some =
      some-IsTaken candidates candidates-found candidates-claimable
        (order_by-IsOrdered (λ (j : Job). j.created_at) _) All-of_candidates

  nothing : (xs : List Job) → All (λ _. ⊥) xs → xs ≡ []
  nothing [] h = refl
  nothing (x ∷ xs) h = absurd h.0

  none_taken :
      (c : List Job)
      → ((P : Job → Type 0)
          → All P c
          → All P (select (is_claimable now locked_elsewhere) recovered.jobs))
      → (db' : Db) → claim_first now worker_id c recovered ≡ (none, db')
      → (select (is_claimable now locked_elsewhere) recovered.jobs ≡ []) × (db' ≡ recovered)
  unfolding claim_first
  none_taken [] all db' h = (nothing _ (all (λ _. ⊥) tt), ground arith)
  none_taken (old ∷ rest) all db' h = absurd (ground arith)

  -- A claim that returns nothing found no job to take, and has only recovered leases.
  claim_job-none :
      (db' : Db)
      → claim_job db now worker_id locked_elsewhere ≡ (none, db')
      → (select (is_claimable now locked_elsewhere) (recover_expired_leases db now).1.jobs ≡ [])
        × (db' ≡ (recover_expired_leases db now).1)
  unfolding claim_job
  claim_job-none = none_taken candidates All-of_candidates
