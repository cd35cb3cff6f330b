-- ===== src/Telemetry/Enqueued.antt =====
-- What an upload queues for the hooks of its vehicle.
use mathlib.Core.List.{append-nil, append_assoc}
use vehinode.Prelude.{
  ◌≡◌, refl, sym, ap, ◌∙◌, subst, arith, true, false, List, [], ◌∷◌, ◌++◌, map, ◌≤◌, All, ◌⊎◌, inl,
  inr, Option, ◌||◌, is_none, eq_some, ==_iff, ◌↔◌, none, some, Bool-cases,
}
use vehinode.Prelude.Table.{select, order_by}
use vehinode.Prelude.Table.Selection.{IsOrdered, order_by-IsOrdered}
use vehinode.Models.{
  Key, Instant, Telemetry, Hook, Device, Db, Trigger, TriggerType, HookExecution, ExecutionStatus,
  Job, JobType, JobStatus,
}
use vehinode.Telemetry.{
  store_sample, store_samples, Progress, ingest_batch, TelemetryBatch, IngestionResult, NewIds,
  no_progress, batch_models, stored_batch, is_subscribed, new_execution, new_job, new_trigger,
  last_row, is_telemetry_received, enqueue_hook, enqueue_each, enqueue_hooks, add_trigger, seen,
  sort_rows, unique_sample_ids,
}
use vehinode.Telemetry.Rows.{stored-store_samples, row_ids-batch_models}
use vehinode.Telemetry.Current.{new_rows}

module _ (new : NewIds) (now : Instant) (k : Key) where
  enqueued_executions :
      (hooks : List Hook) (db : Db)
      → (enqueue_each new now k hooks db).executions
        ≡ db.executions ++ map (new_execution new k) hooks
  unfolding enqueue_each
  enqueued_executions [] db = sym (append-nil db.executions)
  enqueued_executions (h ∷ hs) db =
      enqueued_executions hs (enqueue_hook new now k h db)
      ∙ append_assoc db.executions (new_execution new k h ∷ []) (map (new_execution new k) hs)

  enqueued_jobs :
      (hooks : List Hook) (db : Db)
      → (enqueue_each new now k hooks db).jobs ≡ db.jobs ++ map (new_job new now) hooks
  unfolding enqueue_each
  enqueued_jobs [] db = sym (append-nil db.jobs)
  enqueued_jobs (h ∷ hs) db =
      enqueued_jobs hs (enqueue_hook new now k h db)
      ∙ append_assoc db.jobs (new_job new now h ∷ []) (map (new_job new now) hs)

  enqueued_triggers :
      (hooks : List Hook) (db : Db) → (enqueue_each new now k hooks db).triggers ≡ db.triggers
  unfolding enqueue_each
  enqueued_triggers [] db = refl
  enqueued_triggers (h ∷ hs) db = enqueued_triggers hs (enqueue_hook new now k h db)

-- The loop that stores the samples does not touch what the hooks are about.
pub store_samples_frame :
    (ts : List Telemetry) (p : Progress)
    → ((store_samples ts p).db.hooks ≡ p.db.hooks)
      × ((store_samples ts p).db.triggers ≡ p.db.triggers)
      × ((store_samples ts p).db.executions ≡ p.db.executions)
      × ((store_samples ts p).db.jobs ≡ p.db.jobs)
unfolding store_samples store_sample
store_samples_frame [] p = (refl, refl, refl, refl)
store_samples_frame (t ∷ ts) p = ground (arith, store_samples_frame ts (store_sample t p))

IsOrdered-last_row :
    (t : Telemetry) (ts : List Telemetry)
    → IsOrdered (λ (u : Telemetry). u.recorded_at) (t ∷ ts)
    → All (λ (u : Telemetry). u.recorded_at ≤ (last_row t ts).recorded_at) (t ∷ ts)
IsOrdered-last_row t [] h = (omega arith, tt)
IsOrdered-last_row t (u ∷ us) h =
    let rest = IsOrdered-last_row u us h.1 in (ground (arith, rest.0, h.0.0), rest)

-- A list holds exactly the rows of another one for which P holds, in the same order.
pub data IsSelection {A : Type 0} (P : A → Type 0) : List A → List A → Type 0 where
  none_left : IsSelection P [] []
  taken : (x : A) (xs ys : List A) → P x → IsSelection P xs ys → IsSelection P (x ∷ xs) (x ∷ ys)
  left_out : (x : A) (xs ys : List A) → ¬ P x → IsSelection P xs ys → IsSelection P (x ∷ xs) ys

-- An enabled hook on telemetry that is global or belongs to the vehicle.
pub record IsStarted (vehicle_id : Key) (hook : Hook) : Type 0 where
  pub enabled : hook.enabled ≡ true
  pub on_telemetry : hook.trigger_type ≡ TriggerType.telemetry_received
  pub in_scope : (hook.vehicle_id ≡ none) ⊎ (hook.vehicle_id ≡ some vehicle_id)

is_subscribed-IsStarted :
    (vehicle_id : Key) (hook : Hook)
    → is_subscribed vehicle_id hook ≡ true ↔ IsStarted vehicle_id hook
unfolding is_subscribed
is_subscribed-IsStarted vehicle_id hook = (
  λ e. record {
    enabled = ground arith;
    on_telemetry = on_telemetry hook.trigger_type (ground arith);
    in_scope = in_scope hook.vehicle_id (ground arith);
  },
  λ p. rw (p.enabled, p.on_telemetry) (is_in_scope p.in_scope),
)
  where
    on_telemetry :
        (t : TriggerType) → is_telemetry_received t ≡ true → t ≡ TriggerType.telemetry_received
    on_telemetry TriggerType.telemetry_received h = refl
    on_telemetry _ h = absurd (ground arith)

    is_in_scope :
        (hook.vehicle_id ≡ none) ⊎ (hook.vehicle_id ≡ some vehicle_id)
        → (is_none hook.vehicle_id || eq_some hook.vehicle_id vehicle_id) ≡ true
    is_in_scope (inl e) = rw e refl
    is_in_scope (inr e) = rw e ((==_iff vehicle_id vehicle_id).1 refl)

    in_scope :
        (o : Option Key)
        → (is_none o || eq_some o vehicle_id) ≡ true
        → (o ≡ none) ⊎ (o ≡ some vehicle_id)
    in_scope none h = inl refl
    in_scope (some k) h = inr (ap some ((==_iff k vehicle_id).0 h))

select-IsSelection :
    (vehicle_id : Key) (hooks : List Hook)
    → IsSelection (IsStarted vehicle_id) hooks (select (is_subscribed vehicle_id) hooks)
unfolding select
select-IsSelection vehicle_id [] = none_left
select-IsSelection vehicle_id (h ∷ hs) =
    let iff = is_subscribed-IsStarted vehicle_id h in
    elim (Bool-cases (is_subscribed vehicle_id h)) [
      | inl started ↦ rw started (taken h hs _ (iff.0 started) (select-IsSelection vehicle_id hs))
      | inr other ↦ rw other (
          left_out h hs _ (λ p. absurd (ground (arith, iff.1 p)))
            (select-IsSelection vehicle_id hs))
    ]

-- The rows of an upload: the trigger on the latest sample with all of its samples in order, a pending
-- execution, and a job that is due at once and has no attempt yet.
abbrev pub upload_trigger : NewIds → Telemetry → List Telemetry → Trigger
upload_trigger new latest samples = record {
  id = new.trigger;
  type = TriggerType.telemetry_received;
  version = 2;
  occurred_at = latest.recorded_at;
  vehicle_id = some latest.vehicle_id;
  device_id = some latest.device_id;
  telemetry_id = some latest.id;
  payload = record {
    telemetry_id = latest.id;
    telemetry_ids = map (λ (t : Telemetry). t.id) samples;
    boot_id = some latest.boot_id;
    dry_run = none;
  };
}

abbrev pub pending_execution : NewIds → Key → Hook → HookExecution
pending_execution new telemetry_id hook = record {
  id = new.execution hook.id;
  hook_id = hook.id;
  trigger_id = new.trigger;
  telemetry_id = some telemetry_id;
  dry_run = false;
  status = ExecutionStatus.pending;
  started_at = none;
  finished_at = none;
  duration_seconds = none;
  logs = [];
  error = none;
}

abbrev pub due_job : NewIds → Instant → Hook → Job
due_job new now hook = record {
  id = new.job hook.id;
  type = JobType.hook_execute;
  execution_id = some (new.execution hook.id);
  status = JobStatus.pending;
  attempts = 0;
  next_attempt_at = now;
  locked_at = none;
  locked_by = none;
  created_at = now;
  completed_at = none;
  last_error = none;
}

-- One trigger, and for each hook that is started one execution and the job that runs it.
abbrev pub Enqueues : NewIds → Instant → Db → Db → List Telemetry → Type 0
Enqueues new now db db' [] =
    (db'.triggers ≡ db.triggers) × (db'.executions ≡ db.executions) × (db'.jobs ≡ db.jobs)
Enqueues new now db db' (t ∷ ts) =
    let latest = last_row t ts in
    (hooks : List Hook) × IsSelection (IsStarted latest.vehicle_id) db.hooks hooks
    × (db'.triggers ≡ db.triggers ++ upload_trigger new latest (t ∷ ts) ∷ [])
    × (db'.executions ≡ db.executions ++ map (pending_execution new latest.id) hooks)
    × (db'.jobs ≡ db.jobs ++ map (due_job new now) hooks)
    × All (λ (u : Telemetry). u.recorded_at ≤ latest.recorded_at) (t ∷ ts)

enqueue_hooks-Enqueues :
    (new : NewIds) (now : Instant) (rows : List Telemetry) (db : Db)
    → IsOrdered (λ (u : Telemetry). u.recorded_at) rows
    → Enqueues new now db (enqueue_hooks new now rows db) rows
unfolding enqueue_hooks new_trigger new_execution new_job
enqueue_hooks-Enqueues new now [] db ordered = (refl, refl, refl)
enqueue_hooks-Enqueues new now (t ∷ ts) db ordered =
    let latest = last_row t ts in
    let hooks = select (is_subscribed latest.vehicle_id) db.hooks in
    let db₁ = add_trigger (new_trigger new latest (t ∷ ts)) db in
    (
      hooks,
      select-IsSelection latest.vehicle_id db.hooks,
      enqueued_triggers new now latest.id hooks db₁,
      enqueued_executions new now latest.id hooks db₁,
      enqueued_jobs new now latest.id hooks db₁,
      IsOrdered-last_row t ts ordered,
    )

Enqueues-ext :
    (new : NewIds) (now : Instant) (rows : List Telemetry) (db old db' : Db)
    → (db.hooks ≡ old.hooks)
      × (db.triggers ≡ old.triggers)
      × (db.executions ≡ old.executions)
      × (db.jobs ≡ old.jobs)
    → Enqueues new now db db' rows
    → Enqueues new now old db' rows
Enqueues-ext new now [] db old db' (e₁, e₂, e₃, e₄) h = ground arith
Enqueues-ext new now (t ∷ ts) db old db' (e₁, e₂, e₃, e₄) (hooks, chosen, h₁, h₂, h₃, ordered) =
    (hooks, rw (sym e₁) chosen, rw (sym e₂) h₁, rw (sym e₃) h₂, rw (sym e₄) h₃, ordered)

-- If the samples of a batch have different identifiers, the upload queues the hooks for the samples
-- that were not stored before, in the order in which they were recorded: nothing if there are none;
-- else one trigger, whose latest sample is as new as any and which lists all of them, and, for exactly
-- the hooks that are enabled, are on telemetry, and are global or belong to the vehicle, one pending
-- execution each and one pending job for it, due at once and without an attempt.
pub ingest_batch-Enqueues :
    (db : Db) (device : Device) (batch : TelemetryBatch) (now : Instant) (new : NewIds)
    (r : IngestionResult) (db' : Db)
    → unique_sample_ids batch ≡ true
    → ingest_batch db device batch now new ≡ (r, db')
    → Enqueues new now db db' (sort_rows (new_rows db device batch now))
unfolding ingest_batch
ingest_batch-Enqueues db device batch now new r db' unique h =
    let ts = batch_models device now batch in
    let p = stored_batch db device batch now in
    let rows : p.stored ≡ new_rows db device batch now =
      stored-store_samples ts (no_progress db)
        (rw (row_ids-batch_models device now batch) unique) in
    subst (λ rows. Enqueues new now db db' (sort_rows rows)) rows
      (subst (λ (x : Db). Enqueues new now db x (sort_rows p.stored)) (ap (λ x. x.1) h)
        (Enqueues-ext new now (sort_rows p.stored) p.db db
          (seen device now (enqueue_hooks new now (sort_rows p.stored) p.db))
          (store_samples_frame ts (no_progress db))
          (enqueue_hooks-Enqueues new now (sort_rows p.stored) p.db (
            order_by-IsOrdered (λ (t : Telemetry). t.recorded_at)
              (order_by (λ (t : Telemetry). t.sequence) p.stored)))))
