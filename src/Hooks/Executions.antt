-- ===== src/Hooks/Executions.antt =====
-- The executions that an administrator asks for.
use vehinode.Prelude.{
  ◌≡◌, ◌⊎◌, refl, sym, ap, ◌∙◌, arith, true, not, Option, some, none, [], ◌∷◌, ◌++◌, ◌==◌, ==_iff,
  ok, bind_inverse, raise_if,
}
use vehinode.Prelude.Table.{find, find-holds}
use vehinode.Models.{
  Key, Instant, User, Hook, Telemetry, HookExecution, ExecutionStatus, Job, JobStatus, Db,
}
use vehinode.Access.{is_admin, require_admin}
use vehinode.Hooks.{
  ManualIds, queue_manual_execution, manual_execution, manual_job, retry_execution, required_row,
  linked_telemetry, is_retryable, unavailable, get_hook,
}

linked_inverse :
    (db : Db) (o : Option Key) {t : Telemetry} → linked_telemetry db o ≡ some t → o ≡ some t.id
linked_inverse db none {t} h = absurd (ground arith)
linked_inverse db (some k) {t} h =
    ap some (sym ((==_iff t.id k).0 (find-holds (λ (x : Telemetry). x.id == k) db.telemetry h)))

module _ (new : ManualIds) (now : Instant) where
  retry_steps :
      (db : Db) (user : User) (k : Key) (p : HookExecution × Db)
      → retry_execution new now db user k ≡ ok p
      → (old : HookExecution) × (telemetry : Telemetry) × (hook : Hook) × (is_admin user ≡ true)
        × (find (λ (e : HookExecution). e.id == k) db.executions ≡ some old)
        × (is_retryable old.status ≡ true)
        × (linked_telemetry db old.telemetry_id ≡ some telemetry)
        × (get_hook db old.hook_id ≡ some hook)
        × (queue_manual_execution new now db hook telemetry old.dry_run ≡ p)
  unfolding retry_execution require_admin
  retry_steps db user k p h =
      let (admin, e₁, h₁) = bind_inverse (require_admin user) _ h in
      let (old, e₂, h₂) =
        bind_inverse
          (required_row (find (λ (e : HookExecution). e.id == k) db.executions) 404
            "execution not found")
          _ h₁ in
      let (ready, e₃, h₃) = bind_inverse (raise_if (not (is_retryable old.status)) _) _ h₂ in
      let (telemetry, e₄, h₄) =
        bind_inverse (required_row (linked_telemetry db old.telemetry_id) 409 unavailable) _ h₃ in
      let (hook, e₅, h₅) =
        bind_inverse (required_row (get_hook db old.hook_id) 409 unavailable) _ h₄ in
      (
        old,
        telemetry,
        hook,
        ground arith,
        ground arith,
        ground arith,
        ground arith,
        ground arith,
        ground arith,
      )

  -- A retry, which takes an administrator and an execution that has failed or timed out, leaves that
  -- execution as it was and queues another of the same hook on the same sample, in the same mode,
  -- with a job of its own that has not been attempted.
  retry_execution_effect :
      (db : Db) (user : User) (k : Key) (execution : HookExecution) (db' : Db)
      → retry_execution new now db user k ≡ ok (execution, db')
      → (old : HookExecution) × (job : Job) × (is_admin user ≡ true)
        × (find (λ (e : HookExecution). e.id == k) db.executions ≡ some old)
        × ((old.status ≡ ExecutionStatus.failed) ⊎ (old.status ≡ ExecutionStatus.timeout))
        × (db'.executions ≡ db.executions ++ execution ∷ [])
        × (db'.jobs ≡ db.jobs ++ job ∷ [])
        × (execution.hook_id ≡ old.hook_id)
        × (execution.telemetry_id ≡ old.telemetry_id)
        × (execution.dry_run ≡ old.dry_run)
        × (execution.status ≡ ExecutionStatus.pending)
        × (job.execution_id ≡ some execution.id)
        × (job.status ≡ JobStatus.pending)
        × (job.attempts ≡ 0)
  unfolding queue_manual_execution manual_execution manual_job
  retry_execution_effect db user k execution db' h =
      let (old, telemetry, hook, admin, found, ready, sample, there, done) =
        retry_steps db user k (execution, db') h in
      let e = ap (λ p. p.0) done in
      let hook_key : hook.id ≡ old.hook_id =
        (==_iff hook.id old.hook_id).0
          (find-holds (λ (h : Hook). h.id == old.hook_id) db.hooks there) in
      (
        old,
        manual_job new now,
        admin,
        found,
        ground arith,
        sym (ap (λ p. p.1.executions) done) ∙ ap (λ x. db.executions ++ x ∷ []) e,
        sym (ap (λ p. p.1.jobs) done),
        sym (ap (λ (e : HookExecution). e.hook_id) e) ∙ hook_key,
        sym (ap (λ (e : HookExecution). e.telemetry_id) e)
            ∙ sym (linked_inverse db old.telemetry_id sample),
        sym (ap (λ (e : HookExecution). e.dry_run) e),
        sym (ap (λ (e : HookExecution). e.status) e),
        ap (λ (e : HookExecution). some e.id) e,
        refl,
        refl,
      )
