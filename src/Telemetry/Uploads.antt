-- ===== src/Telemetry/Uploads.antt =====
-- The contract of an upload, `ingest_batch` of backend/app/telemetry/services.py: what is stored, what
-- is acknowledged, and what a repetition does.
use mathlib.Core.List.{append-nil, append_assoc}
use vehinode.Prelude.{
  sym, ap, ◌∙◌, ==_refl, ◌≡◌, refl, arith, true, not, ◌&&◌, ◌||◌, List, [], ◌∷◌, ◌++◌, elem, ◌==◌,
  ◌+◌, length, length-map, if◌then◌else◌,
}
use vehinode.Prelude.Table.{find, select, order_by}
use vehinode.Prelude.Table.Keys.{UniqueBy}
use vehinode.Models.{Key, Telemetry, Device, Instant, Hook, Db}
use vehinode.Telemetry.{
  TelemetryBatch, Progress, store_sample, store_samples, sample_ids, telemetry_model, batch_models,
  ingest_batch, stored_batch, NewIds, enqueue_hooks, enqueue_each, unique_sample_ids,
  IngestionResult, sort_rows, enqueue_hook, last_row, is_subscribed, add_trigger, new_trigger,
  no_progress, seen,
}
use vehinode.Telemetry.Rows.{
  has_row, row_ids, has_row-store_samples, accepted-store_samples, duplicates-store_samples,
  UniqueBy-store_samples, find-store_samples, row_ids-batch_models, length-store_samples,
}

-- Enqueuing the hooks leaves the telemetry and the current states alone.
pub enqueue_each_frame :
    (new : NewIds) (now : Instant) (k : Key) (hooks : List Hook) (db : Db)
    → ((enqueue_each new now k hooks db).telemetry ≡ db.telemetry)
      × ((enqueue_each new now k hooks db).states ≡ db.states)
unfolding enqueue_each
enqueue_each_frame new now k [] db = (refl, refl)
enqueue_each_frame new now k (h ∷ hs) db =
    enqueue_each_frame new now k hs (enqueue_hook new now k h db)

enqueue_hooks_frame :
    (new : NewIds) (now : Instant) (ts : List Telemetry) (db : Db)
    → ((enqueue_hooks new now ts db).telemetry ≡ db.telemetry)
      × ((enqueue_hooks new now ts db).states ≡ db.states)
unfolding enqueue_hooks
enqueue_hooks_frame new now [] db = (refl, refl)
enqueue_hooks_frame new now (t ∷ ts) db =
    let latest = last_row t ts in
    enqueue_each_frame new now latest.id (select (is_subscribed latest.vehicle_id) db.hooks)
      (add_trigger (new_trigger new latest (t ∷ ts)) db)

pub ingest_batch_tables :
    (db : Db) (device : Device) (batch : TelemetryBatch) (now : Instant) (new : NewIds)
    (r : IngestionResult) (db' : Db)
    → ingest_batch db device batch now new ≡ (r, db')
    → (r ≡ (stored_batch db device batch now).result)
      × (db'.telemetry ≡ (stored_batch db device batch now).db.telemetry)
      × (db'.states ≡ (stored_batch db device batch now).db.states)
unfolding ingest_batch
ingest_batch_tables db device batch now new r db' h =
    ground (arith, enqueue_hooks_frame new now (sort_rows p.stored) p.db)
  where
    p : Progress
    p = stored_batch db device batch now

module _ (db : Db) (device : Device) (batch : TelemetryBatch) (now : Instant) (new : NewIds)
    (r : IngestionResult) (db' : Db) (h : ingest_batch db device batch now new ≡ (r, db')) where
  -- If the samples of a batch have different identifiers, those that were not stored before are
  -- accepted and those that were are reported as duplicates; afterwards exactly the earlier rows and
  -- the samples are in the table.
  pub ingest_batch_acknowledged :
      (k : Key)
      → unique_sample_ids batch ≡ true
      → (elem k r.accepted ≡ (elem k (sample_ids batch.samples) && not (has_row k db.telemetry)))
        × (elem k r.duplicates ≡ (elem k (sample_ids batch.samples) && has_row k db.telemetry))
        × (has_row k db'.telemetry ≡ (has_row k db.telemetry || elem k (sample_ids batch.samples)))
  ingest_batch_acknowledged k unique =
      let (answer, rows, _) = ingest_batch_tables db device batch now new r db' h in
      ground (
        arith,
        accepted-store_samples k ts (no_progress db),
        duplicates-store_samples k ts (no_progress db),
        has_row-store_samples k ts (no_progress db),
        row_ids-batch_models device now batch,
      )
    where
      ts : List Telemetry
      ts = batch_models device now batch

  -- An upload keeps the primary key of the telemetry, acknowledges as many samples as the batch has,
  -- and leaves every row that was stored before as it was; a sample that was not is stored with its
  -- own data.
  ingest_batch_stored :
      (k : Key)
      → UniqueBy (λ (t : Telemetry). t.id) db.telemetry
      → UniqueBy (λ (t : Telemetry). t.id) db'.telemetry
        × (length r.accepted + length r.duplicates ≡ length batch.samples)
        × (find (λ (t : Telemetry). t.id == k) db'.telemetry ≡ (
            if has_row k db.telemetry
            then find (λ (t : Telemetry). t.id == k) db.telemetry
            else find (λ (t : Telemetry). t.id == k) (batch_models device now batch)))
  ingest_batch_stored k unique =
      let (answer, rows, _) = ingest_batch_tables db device batch now new r db' h in
      (
        rw rows (UniqueBy-store_samples ts (no_progress db) unique),
        ground (
          arith,
          length-store_samples ts (no_progress db),
          length-map (telemetry_model device batch.boot_id now) batch.samples,
        ),
        rw rows (find-store_samples k ts (no_progress db)),
      )
    where
      ts : List Telemetry
      ts = batch_models device now batch

abbrev skip : Telemetry → Progress → Progress
skip t p = record p { result = record p.result { duplicates = p.result.duplicates ++ t.id ∷ [] } }

store_sample-skip :
    (t : Telemetry) (p : Progress)
    → has_row t.id p.db.telemetry ≡ true
    → store_sample t p ≡ skip t p
unfolding store_sample
store_sample-skip t p h = rw h refl

-- Samples that are all stored already are all reported as duplicates, and nothing else happens.
again :
    (ts : List Telemetry) (p : Progress)
    → ((k : Key) → elem k (row_ids ts) ≡ true → has_row k p.db.telemetry ≡ true)
    → store_samples ts p
      ≡ record p { result = record p.result { duplicates = p.result.duplicates ++ row_ids ts } }
unfolding store_samples
again [] p h =
    ap (λ ks. record p { result = record p.result { duplicates = ks } })
      (sym (append-nil p.result.duplicates))
again (t ∷ ts) p h =
    ap (store_samples ts) (store_sample-skip t p (h t.id (ground (arith, ==_refl t.id))))
    ∙ again ts (skip t p) (λ k e. h k (ground arith))
    ∙ ap (λ ks. record p { result = record p.result { duplicates = ks } })
        (append_assoc p.result.duplicates (t.id ∷ []) (row_ids ts))

-- A batch whose samples are all stored is acknowledged, and changes nothing but when the device was
-- last seen.
pub ingest_batch-again :
    (db : Db) (device : Device) (batch : TelemetryBatch) (now : Instant) (new : NewIds)
    → ((k : Key) → elem k (sample_ids batch.samples) ≡ true → has_row k db.telemetry ≡ true)
    → ingest_batch db device batch now new
      ≡ (record { accepted = []; duplicates = sample_ids batch.samples }, seen device now db)
unfolding ingest_batch enqueue_hooks order_by
ingest_batch-again db device batch now new h =
    ap
      (λ (p : Progress).
        (p.result, seen device now (enqueue_hooks new now (sort_rows p.stored) p.db)))
      (again (batch_models device now batch) (no_progress db)
        (λ k e. h k (ap (elem k) (sym (row_ids-batch_models device now batch)) ∙ e)))
    ∙ ap (λ ks. (record { accepted = []; duplicates = ks }, seen device now db))
        (row_ids-batch_models device now batch)

-- An agent that uploads a batch again, at whatever time, is answered that every sample is stored,
-- and nothing changes but when the device was last seen: no row is written twice, no hook is
-- started twice.
pub ingest_batch_twice :
    (db : Db) (device : Device) (batch : TelemetryBatch) (now : Instant) (new : NewIds)
    (r : IngestionResult) (db' : Db) (later : Instant) (newer : NewIds)
    → ingest_batch db device batch now new ≡ (r, db')
    → ingest_batch db' device batch later newer
      ≡ (record { accepted = []; duplicates = sample_ids batch.samples }, seen device later db')
ingest_batch_twice db device batch now new r db' later newer h =
    ingest_batch-again db' device batch later newer (λ k e.
      let (_, rows, _) = ingest_batch_tables db device batch now new r db' h in
      ground (
        arith,
        has_row-store_samples k (batch_models device now batch) (no_progress db),
        row_ids-batch_models device now batch,
      ))
