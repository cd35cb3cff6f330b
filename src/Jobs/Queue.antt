-- ===== src/Jobs/Queue.antt =====
-- The invariant of the jobs table, and the recovery of leases.
use vehinode.Prelude.{◌≡◌, refl, true, false, some, List, [], ◌∷◌, arith, ◌==◌, if◌then◌else◌, All}
use vehinode.Prelude.Table.{find, select, update_where}
use vehinode.Prelude.Table.Keys.{UniqueBy, UniqueBy-update_where}
use vehinode.Prelude.Table.Selection.{
  All-mono, All-All, All-both, All-find, All-update_where, All-key, All-select,
}
use vehinode.Models.{Instant, Job, Db}
use vehinode.Jobs.{is_job_pending, is_stale, expire_job, expire, expire_all, recover_expired_leases}

-- A job that waits has not been attempted, and any other has been attempted once.
abbrev pub AttemptedOnce : Job → Type 0
AttemptedOnce j = j.attempts ≡ (if is_job_pending j.status then 0 else 1)

-- The invariant of the jobs table.
pub record IsQueue (jobs : List Job) : Type 0 where
  pub unique : UniqueBy (λ (j : Job). j.id) jobs
  pub attempted : All AttemptedOnce jobs

-- Failing a running job is no new attempt.
abbrev NotPending : Job → Type 0
NotPending j = is_job_pending j.status ≡ false

module _ (now : Instant) where
  -- Rows that share the key of a stale job are not pending, before and after one of them expires.
  waits_after :
      (s t : Job) (jobs : List Job)
      → All (λ (j : Job). j.id == t.id ≡ true → NotPending j) jobs
      → All
          (λ (j : Job). j.id == t.id ≡ true → NotPending j)
          (update_where (λ j. j.id == s.id) (expire_job now) jobs)
  waits_after s t jobs h =
      All-update_where (λ (j : Job). j.id == t.id ≡ true → NotPending j) (λ j. j.id == s.id)
        (expire_job now) jobs (All-All _ jobs (λ j _ _. refl)) h

  expire-IsQueue :
      (s : Job) (jobs : List Job)
      → All (λ (j : Job). j.id == s.id ≡ true → NotPending j) jobs
      → IsQueue jobs
      → IsQueue (update_where (λ j. j.id == s.id) (expire_job now) jobs)
  expire-IsQueue s jobs h q = record {
    unique =
        UniqueBy-update_where (λ (j : Job). j.id) (λ j. j.id == s.id) (expire_job now) jobs
          (λ j. refl) q.unique;
    attempted =
        All-update_where AttemptedOnce (λ j. j.id == s.id) (expire_job now) jobs
          (All-both (λ (j : Job). j.id == s.id ≡ true → NotPending j) AttemptedOnce
            (λ j. j.id == s.id ≡ true → AttemptedOnce (expire_job now j)) jobs
            (λ j np a e. once j (np e) a) h q.attempted)
          q.attempted;
  }
    where
      once : (j : Job) → NotPending j → AttemptedOnce j → j.attempts ≡ 1
      once j np a = ground arith

  expire_all-IsQueue :
      (stale : List Job) (db : Db)
      → All (λ s. All (λ (j : Job). j.id == s.id ≡ true → NotPending j) db.jobs) stale
      → IsQueue db.jobs
      → IsQueue (expire_all now stale db).jobs
  unfolding expire_all expire
  expire_all-IsQueue [] db waits q = q
  expire_all-IsQueue (s ∷ stale) db waits q =
      expire_all-IsQueue stale (expire now s db)
        (All-mono (λ t. All (λ (j : Job). j.id == t.id ≡ true → NotPending j) db.jobs) _ stale
          (λ t h. waits_after s t db.jobs h) waits.1)
        (expire-IsQueue s db.jobs waits.0 q)

  stale-NotPending : (j : Job) → is_stale now j ≡ true → NotPending j
  stale-NotPending j h = ground arith

  pub recover-IsQueue : (db : Db) → IsQueue db.jobs → IsQueue (recover_expired_leases db now).1.jobs
  unfolding recover_expired_leases
  recover-IsQueue db q =
      expire_all-IsQueue (select (is_stale now) db.jobs) db
        (All-select (λ s. All (λ (j : Job). j.id == s.id ≡ true → NotPending j) db.jobs)
          (is_stale now) db.jobs
          (All-mono (λ (s : Job). find (λ (y : Job). y.id == s.id) db.jobs ≡ some s) _ db.jobs
            (λ s found stale.
              All-key NotPending (λ (j : Job). j.id) s.id db.jobs {a = s} q.unique found
                (stale-NotPending s stale))
            (All-find (λ (j : Job). j.id) db.jobs q.unique)))
        q
