-- ===== src/Telemetry/Current.antt =====
-- The current state of the vehicles after an upload.
use vehinode.Prelude.{
  ◌≡◌, ◌≢◌, refl, sym, ◌∙◌, subst, leb, arith, Bool, true, false, not, List, [], ◌∷◌, map, ◌==◌,
  ==_iff, ==_refl, ltb, Option, some, none, Option-cases, Bool-cases, inl, inr, All, All-append,
  IfSome, if◌then◌else◌,
}
use vehinode.Prelude.Table.{any, find, select, find-append}
use vehinode.Prelude.Table.Keys.{find-update_where_self, find-update_where_ne}
use vehinode.Prelude.Table.Selection.{All-mono}
use vehinode.Models.{Key, Instant, Telemetry, VehicleState, Device, Db}
use mathlib.Core.Bool.{false≢true}
use vehinode.Json.{end}
use vehinode.Telemetry.{
  update_current_state, merged_state, store_sample, store_samples, Progress, ingest_batch,
  TelemetrySample, telemetry_model, unique_sample_ids, TelemetryBatch, IngestionResult, NewIds,
  no_progress, batch_models, stored_batch,
}
use vehinode.Telemetry.Rows.{has_row, stored-store_samples, row_ids-batch_models}
use vehinode.Telemetry.Uploads.{ingest_batch_tables}

abbrev pub state_of : List VehicleState → Key → Option VehicleState
state_of states v = find (λ (s : VehicleState). s.vehicle_id == v) states

-- What one reading makes of a vehicle's state.
abbrev pub next_current : Telemetry → Option VehicleState → VehicleState
next_current t none = merged_state end end t
next_current t (some s) =
    if ltb t.recorded_at s.updated_at
    then s
    else record (merged_state s.latest_metrics s.device_state t) { vehicle_id = s.vehicle_id }

state_of-update_self :
    (t : Telemetry) (states : List VehicleState)
    → state_of (update_current_state t states) t.vehicle_id
      ≡ some (next_current t (state_of states t.vehicle_id))
unfolding update_current_state find merged_state
state_of-update_self t states = elim (Option-cases (state_of states t.vehicle_id)) [
  | inl absent ↦ ground (
    arith,
    find-append (λ (s : VehicleState). s.vehicle_id == t.vehicle_id) states
        (merged_state end end t ∷ []),
    ==_refl t.vehicle_id,
  )
  | inr (s, found) ↦ ground (
    arith,
    find-update_where_self (λ (s : VehicleState). s.vehicle_id) t.vehicle_id
        (λ s. record (merged_state s.latest_metrics s.device_state t) { vehicle_id = s.vehicle_id })
        states {a = s} (λ s. refl) found,
  )
]

state_of-update_other :
    (t : Telemetry) (states : List VehicleState) (v : Key)
    → v ≢ t.vehicle_id
    → state_of (update_current_state t states) v ≡ state_of states v
unfolding update_current_state find merged_state
state_of-update_other t states v ne = elim (Option-cases (state_of states t.vehicle_id)) [
  | inl absent ↦ ground (
    arith,
    find-append (λ (s : VehicleState). s.vehicle_id == v) states (merged_state end end t ∷ []),
  )
  | inr (s, found) ↦ ground (
    arith,
    find-update_where_ne (λ (s : VehicleState). s.vehicle_id) t.vehicle_id v
        (λ s. record (merged_state s.latest_metrics s.device_state t) { vehicle_id = s.vehicle_id })
        states (λ s. refl) ne,
  )
]

pub state_of-update :
    (t : Telemetry) (states : List VehicleState) (v : Key)
    → state_of (update_current_state t states) v
      ≡ (if t.vehicle_id == v then some (next_current t (state_of states v)) else state_of states v)
state_of-update t states v = elim (Bool-cases (t.vehicle_id == v)) [
  | inl same ↦ rw same (
      subst
        (λ w.
          state_of (update_current_state t states) w ≡ some (next_current t (state_of states w)))
        ((==_iff t.vehicle_id v).0 same) (state_of-update_self t states))
  | inr other ↦ rw other (
      state_of-update_other t states v
        (λ e. false≢true (sym other ∙ (==_iff t.vehicle_id v).1 (sym e))))
]

-- The vehicle has a state that is at least as new as the instant.
abbrev pub is_current : Instant → Option VehicleState → Bool
is_current at none = false
is_current at (some s) = leb at s.updated_at

is_current-update :
    (at : Instant) (t : Telemetry) (states : List VehicleState) (v : Key)
    → is_current at (state_of states v) ≡ true
    → is_current at (state_of (update_current_state t states) v) ≡ true
unfolding merged_state
is_current-update at t states v h = ground (arith, state_of-update t states v)

is_current-update_self :
    (t : Telemetry) (states : List VehicleState)
    → is_current t.recorded_at (state_of (update_current_state t states) t.vehicle_id) ≡ true
unfolding merged_state
is_current-update_self t states =
    ground (arith, state_of-update t states t.vehicle_id, ==_refl t.vehicle_id)

-- A state never moves back in time while samples are stored.
pub is_current-store_samples :
    (at : Instant) (ts : List Telemetry) (p : Progress) (v : Key)
    → is_current at (state_of p.db.states v) ≡ true
    → is_current at (state_of (store_samples ts p).db.states v) ≡ true
unfolding store_samples store_sample
is_current-store_samples at [] p v h = h
is_current-store_samples at (t ∷ ts) p v h = ground (
  arith,
  is_current-store_samples at ts (store_sample t p) v,
  is_current-update at t p.db.states v,
)

current-store_samples :
    (ts : List Telemetry) (p : Progress) (v : Key)
    → IfSome
        (λ s. is_current s.updated_at (state_of (store_samples ts p).db.states v) ≡ true)
        (state_of p.db.states v)
current-store_samples ts p v = elim (Option-cases (state_of p.db.states v)) [
  | inl absent ↦ rw absent tt
  | inr (s, found) ↦ rw found (is_current-store_samples s.updated_at ts p v (ground (arith, found)))
]

-- A row is not newer than the state of its vehicle.
abbrev pub IsMerged : List VehicleState → Telemetry → Type 0
IsMerged states t = is_current t.recorded_at (state_of states t.vehicle_id) ≡ true

store_sample-IsMerged :
    (t : Telemetry) (p : Progress)
    → All (IsMerged p.db.states) p.stored
    → All (IsMerged (store_sample t p).db.states) (store_sample t p).stored
unfolding store_sample
store_sample-IsMerged t p h =
    elim (Bool-cases (any (λ (row : Telemetry). row.id == t.id) p.db.telemetry)) [
      | inl taken ↦ rw taken h
      | inr free ↦ rw free (
          All-append (IsMerged (update_current_state t p.db.states)) p.stored (t ∷ [])
            (All-mono (IsMerged p.db.states) (IsMerged (update_current_state t p.db.states))
              p.stored (λ u. is_current-update u.recorded_at t p.db.states u.vehicle_id) h)
            (is_current-update_self t p.db.states, tt))
    ]

pub stored-IsMerged :
    (ts : List Telemetry) (p : Progress)
    → All (IsMerged p.db.states) p.stored
    → All (IsMerged (store_samples ts p).db.states) (store_samples ts p).stored
unfolding store_samples
stored-IsMerged [] p h = h
stored-IsMerged (t ∷ ts) p h = stored-IsMerged ts (store_sample t p) (store_sample-IsMerged t p h)

-- The rows of one device touch the state of its vehicle only.
state_of-store_samples :
    (device : Device) (now : Instant) (boot_id v : Key) (ss : List TelemetrySample) (p : Progress)
    → v ≢ device.vehicle_id
    → state_of (store_samples (map (telemetry_model device boot_id now) ss) p).db.states v
      ≡ state_of p.db.states v
unfolding store_samples store_sample telemetry_model
state_of-store_samples device now boot_id v [] p ne = refl
state_of-store_samples device now boot_id v (s ∷ ss) p ne =
    let t = telemetry_model device boot_id now s in
    ground (
      arith,
      state_of-store_samples device now boot_id v ss (store_sample t p) ne,
      state_of-update_other t p.db.states v ne,
    )

abbrev pub new_rows : Db → Device → TelemetryBatch → Instant → List Telemetry
new_rows db device batch now =
    select (λ (t : Telemetry). not (has_row t.id db.telemetry)) (batch_models device now batch)

module _ (db : Db) (device : Device) (batch : TelemetryBatch) (now : Instant) (new : NewIds)
    (r : IngestionResult) (db' : Db) (h : ingest_batch db device batch now new ≡ (r, db')) where
  -- If the samples of a batch have different identifiers, then after the upload the state of the
  -- vehicle is at least as new as every sample that was not stored before; no state of any vehicle
  -- has moved back in time, and those of other vehicles have not changed.
  pub ingest_batch-IsMerged :
      (v w : Key)
      → unique_sample_ids batch ≡ true
      → w ≢ device.vehicle_id
      → All (IsMerged db'.states) (new_rows db device batch now)
        × IfSome
            (λ s. is_current s.updated_at (state_of db'.states v) ≡ true)
            (state_of db.states v)
        × (state_of db'.states w ≡ state_of db.states w)
  ingest_batch-IsMerged v w unique other =
      let (_, _, states) = ingest_batch_tables db device batch now new r db' h in
      let ts = batch_models device now batch in
      let merged = stored-IsMerged ts (no_progress db) tt in
      rw states (
        subst (All (IsMerged (stored_batch db device batch now).db.states))
            (stored-store_samples ts (no_progress db)
              (rw (row_ids-batch_models device now batch) unique))
            merged,
        current-store_samples ts (no_progress db) v,
        state_of-store_samples device now batch.boot_id w batch.samples (no_progress db) other,
      )
