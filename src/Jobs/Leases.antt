-- ===== src/Jobs/Leases.antt =====
-- `recover_expired_leases` of backend/app/jobs/services.py: the jobs of crashed workers, and the
-- executions that they carried.
use vehinode.Prelude.{
  ◌≡◌, refl, Bool, ◌&&◌, some, List, [], ◌∷◌, arith, ◌==◌, if◌then◌else◌, eq_some, Option-cases,
  inl, inr,
}
use vehinode.Prelude.Table.{find-holds, find-update_where-some, find, any, select, update_where}
use vehinode.Prelude.Table.Keys.{UniqueBy}
use vehinode.Prelude.Table.Selection.{any-select, any-select-key}
use vehinode.Models.{Key, Instant, Job, HookExecution, Db}
use vehinode.Jobs.{
  is_stale, is_hook_execute, is_execution_running, expire_job, expire_execution,
  expire_execution_of, expire, expire_all, recover_expired_leases,
}

module _ (now : Instant) (k : Key) where
  -- Expiring a job twice is expiring it once.
  jobs-expire_all :
      (stale : List Job) (db : Db) {j : Job}
      → find (λ (x : Job). x.id == k) db.jobs ≡ some j
      → find (λ (x : Job). x.id == k) (expire_all now stale db).jobs
        ≡ some (if any (λ s. s.id == k) stale then expire_job now j else j)
  unfolding expire_all any expire
  jobs-expire_all [] db {j} h = ground arith
  jobs-expire_all (s ∷ stale) db {j} h = ground (
    arith,
    find-holds (λ (x : Job). x.id == k) db.jobs {a = j} h,
    find-update_where-some (λ (x : Job). x.id == k) (λ x. x.id == s.id) (expire_job now) db.jobs
        {a = j} (λ x. refl) h,
    jobs-expire_all stale (expire now s db) {j = expire_job now j},
    jobs-expire_all stale (expire now s db) {j = j},
  )

  -- A job that carries the execution of the key.
  abbrev pub carries : Job → Bool
  carries s = is_hook_execute s.type && eq_some s.execution_id k

  find-expire_execution :
      (i : Key) (xs : List HookExecution) {e : HookExecution}
      → find (λ (x : HookExecution). x.id == k) xs ≡ some e
      → find
          (λ (x : HookExecution). x.id == k)
          (update_where (λ x. x.id == i && is_execution_running x.status) (expire_execution now) xs)
        ≡ some (if is_execution_running e.status && i == k then expire_execution now e else e)
  find-expire_execution i xs {e} h = ground (
    arith,
    find-holds (λ (x : HookExecution). x.id == k) xs {a = e} h,
    find-update_where-some (λ (x : HookExecution). x.id == k)
        (λ x. x.id == i && is_execution_running x.status) (expire_execution now) xs {a = e}
        (λ x. refl) h,
  )

  find-expire_execution_of :
      (s : Job) (xs : List HookExecution) {e : HookExecution}
      → find (λ (x : HookExecution). x.id == k) xs ≡ some e
      → find (λ (x : HookExecution). x.id == k) (expire_execution_of now s xs)
        ≡ some (if is_execution_running e.status && carries s then expire_execution now e else e)
  unfolding expire_execution_of
  find-expire_execution_of s xs {e} h = elim (Option-cases s.execution_id) [
    | inl missing ↦ ground arith
    | inr (i, there) ↦ ground (arith, find-expire_execution i xs {e = e} h)
  ]

  executions-expire_all :
      (stale : List Job) (db : Db) {e : HookExecution}
      → find (λ (x : HookExecution). x.id == k) db.executions ≡ some e
      → find (λ (x : HookExecution). x.id == k) (expire_all now stale db).executions
        ≡ some (
            if is_execution_running e.status && any carries stale
            then expire_execution now e
            else e)
  unfolding expire_all any expire
  executions-expire_all [] db {e} h = ground arith
  executions-expire_all (s ∷ stale) db {e} h = ground (
    arith,
    find-expire_execution_of s db.executions {e = e} h,
    executions-expire_all stale (expire now s db) {e = expire_execution now e},
    executions-expire_all stale (expire now s db) {e = e},
  )

  -- Under the primary key of the jobs, recovery fails a job exactly when it is running on a lease
  -- that has run out, and changes no other column and no other job.
  jobs-recover :
      (db : Db) (j : Job)
      → UniqueBy (λ (j : Job). j.id) db.jobs
      → find (λ (x : Job). x.id == k) db.jobs ≡ some j
      → find (λ (x : Job). x.id == k) (recover_expired_leases db now).1.jobs
        ≡ some (if is_stale now j then expire_job now j else j)
  unfolding recover_expired_leases
  jobs-recover db j unique h = ground (
    arith,
    jobs-expire_all (select (is_stale now) db.jobs) db {j = j} h,
    any-select-key (λ (x : Job). x.id) k (is_stale now) db.jobs {a = j} unique h,
  )

  -- Recovery fails an execution exactly when it is running and a hook job on a lease that has run
  -- out carries it, and changes no other column and no other execution.
  executions-recover :
      (db : Db) (e : HookExecution)
      → find (λ (x : HookExecution). x.id == k) db.executions ≡ some e
      → find (λ (x : HookExecution). x.id == k) (recover_expired_leases db now).1.executions
        ≡ some (
            if is_execution_running e.status && any (λ j. is_stale now j && carries j) db.jobs
            then expire_execution now e
            else e)
  unfolding recover_expired_leases
  executions-recover db e h = ground (
    arith,
    executions-expire_all (select (is_stale now) db.jobs) db {e = e} h,
    any-select (is_stale now) carries db.jobs,
  )
