-- ===== src/Telemetry/Queue.antt =====
-- Uploads and the invariant of the jobs table.
use vehinode.Prelude.{
  ◌≡◌, refl, sym, ap, subst, arith, false, List, [], ◌∷◌, ◌++◌, ◌==◌, All, All-append,
}
use vehinode.Prelude.Table.{any, any-append, select}
use vehinode.Prelude.Table.Keys.{UniqueBy, UniqueBy-add}
use vehinode.Prelude.Table.Selection.{UniqueBy-select, All-All}
use vehinode.Models.{Key, Instant, Telemetry, Hook, Job, Device, Db}
use vehinode.Jobs.Queue.{IsQueue, AttemptedOnce}
use vehinode.Telemetry.{
  ingest_batch, TelemetryBatch, IngestionResult, NewIds, no_progress, batch_models, stored_batch,
  is_subscribed, new_job, new_trigger, last_row, enqueue_hook, enqueue_each, enqueue_hooks,
  add_trigger, sort_rows,
}
use vehinode.Telemetry.Enqueued.{store_samples_frame}

-- The keys of the jobs that the hooks get are fresh.
pub record AreFresh (new : NewIds) (jobs : List Job) : Type 0 where
  pub unused : (k : Key) → any (λ (j : Job). j.id == new.job k) jobs ≡ false
  pub distinct_jobs : (j k : Key) → new.job j ≡ new.job k → j ≡ k

abbrev UnusedBy : NewIds → List Job → Hook → Type 0
UnusedBy new jobs h = any (λ (j : Job). j.id == new.job h.id) jobs ≡ false

module _ (new : NewIds) (now : Instant)
    (injective : (j k : Key) → new.job j ≡ new.job k → j ≡ k) where
  still_unused :
      (h : Hook) (hs : List Hook) (jobs : List Job)
      → any (λ (x : Hook). x.id == h.id) hs ≡ false
      → All (UnusedBy new jobs) hs
      → All (UnusedBy new (jobs ++ new_job new now h ∷ [])) hs
  unfolding any new_job
  still_unused h [] jobs other fresh = tt
  still_unused h (x ∷ xs) jobs other fresh = (
    ground (
      arith,
      any-append (λ (j : Job). j.id == new.job x.id) jobs (new_job new now h ∷ []),
      injective h.id x.id,
      fresh.0,
    ),
    still_unused h xs jobs (ground arith) fresh.1,
  )

  enqueue_each-IsQueue :
      (k : Key) (hooks : List Hook) (db : Db)
      → UniqueBy (λ (h : Hook). h.id) hooks
      → All (UnusedBy new db.jobs) hooks
      → IsQueue db.jobs
      → IsQueue (enqueue_each new now k hooks db).jobs
  unfolding enqueue_each new_job
  enqueue_each-IsQueue k [] db unique fresh queue = queue
  enqueue_each-IsQueue k (h ∷ hs) db unique fresh queue =
      enqueue_each-IsQueue k hs (enqueue_hook new now k h db) unique.1
        (still_unused h hs db.jobs unique.0 fresh.1)
        (record {
          unique =
              UniqueBy-add (λ (j : Job). j.id) db.jobs (new_job new now h) fresh.0 queue.unique;
          attempted =
              All-append AttemptedOnce db.jobs (new_job new now h ∷ []) queue.attempted (refl, tt);
        })

  enqueue_hooks-IsQueue :
      (rows : List Telemetry) (db : Db)
      → UniqueBy (λ (h : Hook). h.id) db.hooks
      → ((k : Key) → any (λ (j : Job). j.id == new.job k) db.jobs ≡ false)
      → IsQueue db.jobs
      → IsQueue (enqueue_hooks new now rows db).jobs
  unfolding enqueue_hooks
  enqueue_hooks-IsQueue [] db unique unused queue = queue
  enqueue_hooks-IsQueue (t ∷ ts) db unique unused queue =
      let latest = last_row t ts in
      let hooks = select (is_subscribed latest.vehicle_id) db.hooks in
      enqueue_each-IsQueue latest.id hooks (add_trigger (new_trigger new latest (t ∷ ts)) db)
        (UniqueBy-select (λ (h : Hook). h.id) (is_subscribed latest.vehicle_id) db.hooks unique)
        (All-All (UnusedBy new db.jobs) hooks (λ h. unused h.id)) queue

-- An upload keeps the invariant of the jobs table, if the keys of its new jobs are fresh and the
-- hooks have a primary key.
pub ingest_batch-IsQueue :
    (db : Db) (device : Device) (batch : TelemetryBatch) (now : Instant) (new : NewIds)
    (r : IngestionResult) (db' : Db)
    → AreFresh new db.jobs
    → UniqueBy (λ (h : Hook). h.id) db.hooks
    → IsQueue db.jobs
    → ingest_batch db device batch now new ≡ (r, db')
    → IsQueue db'.jobs
unfolding ingest_batch
ingest_batch-IsQueue db device batch now new r db' fresh unique queue h =
    let p = stored_batch db device batch now in
    let (hooks, _, _, jobs) =
      store_samples_frame (batch_models device now batch) (no_progress db) in
    subst (λ (x : Db). IsQueue x.jobs) (ap (λ x. x.1) h)
      (enqueue_hooks-IsQueue new now fresh.distinct_jobs (sort_rows p.stored) p.db
        (subst (UniqueBy (λ (h : Hook). h.id)) (sym hooks) unique)
        (λ k.
          subst (λ jobs. any (λ (j : Job). j.id == new.job k) jobs ≡ false) (sym jobs)
            (fresh.unused k))
        (subst IsQueue (sym jobs) queue))
