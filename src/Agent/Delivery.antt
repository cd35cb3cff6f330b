-- ===== src/Agent/Delivery.antt =====
-- Where a sample is, from the agent's queue to the server's table: agent/vehicle_agent/queue.py and
-- agent/vehicle_agent/runtime.py against the ingestion of `Telemetry`.
use vehinode.Prelude.{
  ◌≡◌, ◌⊎◌, inl, inr, refl, sym, subst, arith, ℕ, String, Bool, true, false, ◌&&◌, ◌||◌, List, [],
  ◌∷◌, ◌++◌, ◌==◌, ==_iff, elem, elem-append, Bool-cases, Result, ok, err,
}
use vehinode.Prelude.Table.{any, any-append}
use vehinode.Prelude.Table.Deletion.{any-delete_where}
use vehinode.Models.{Key, Db}
use vehinode.Telemetry.{
  TelemetrySample, TelemetryBatch, IngestionResult, ingest_batch, telemetry_batch,
}
use vehinode.Telemetry.Rows.{has_row}
use vehinode.Telemetry.Uploads.{ingest_batch_acknowledged}
use vehinode.Agent.{
  AgentRuntime, Reading, Network, answered, lost_request, lost_answer, Server, enqueue, pending,
  acknowledge, collect_once, upload, finish_upload, upload_once, is_valid, receive, read_answer,
  upload_failed, upload_samples,
}

abbrev pub is_queued : Key → List TelemetrySample → Bool
is_queued k rows = any (λ (s : TelemetrySample). s.id == k) rows

-- The sample waits at the agent, or the server has stored it.
abbrev pub IsKept : Key → AgentRuntime → Db → Type 0
IsKept k agent db = (is_queued k agent.queue || has_row k db.telemetry) ≡ true

abbrev pub ingested : Server → TelemetryBatch → IngestionResult × Db
ingested server batch = ingest_batch server.db server.device batch server.now server.new

pub receive_valid :
    (server : Server) (batch : TelemetryBatch)
    → is_valid batch ≡ true
    → receive server batch ≡ (
      ok (record {
        accepted = (ingested server batch).0.accepted;
        duplicates = (ingested server batch).0.duplicates;
        config_version = server.device.config_version;
      }),
      (ingested server batch).1,
    )
unfolding receive telemetry_batch
receive_valid server batch valid = rw valid refl

receive_invalid :
    (server : Server) (batch : TelemetryBatch)
    → is_valid batch ≡ false
    → receive server batch ≡ (err upload_failed, server.db)
unfolding receive telemetry_batch
receive_invalid server batch invalid = rw invalid refl

module _ (k : Key) where
  enqueue-is_queued :
      (sample : TelemetrySample) (rows : List TelemetrySample)
      → is_queued k (enqueue sample rows) ≡ (is_queued k rows || sample.id == k)
  unfolding enqueue any
  enqueue-is_queued sample rows = elim (Bool-cases (is_queued sample.id rows)) [
    | inl taken ↦ elim (Bool-cases (sample.id == k)) [
      | inl same ↦
          let queued : is_queued k rows ≡ true =
            subst (λ j. is_queued j rows ≡ true) ((==_iff sample.id k).0 same) taken in
          ground arith
      | inr other ↦ ground arith
    ]
    | inr free ↦
        rw free (ground (arith, any-append (λ (s : TelemetrySample). s.id == k) rows (sample ∷ [])))
  ]

  none_acknowledged :
      (ids : List Key) (rows : List TelemetrySample)
      → elem k ids ≡ false
      → any (λ (s : TelemetrySample). s.id == k && elem s.id ids) rows ≡ false
  unfolding any
  none_acknowledged ids [] h = refl
  none_acknowledged ids (s ∷ ss) h = ground (arith, none_acknowledged ids ss, ==_iff s.id k)

  -- A sample leaves the queue only by its acknowledgement.
  acknowledge-is_queued :
      (ids : List Key) (rows : List TelemetrySample)
      → is_queued k rows ≡ true
      → elem k ids ≡ false
      → is_queued k (acknowledge ids rows).1 ≡ true
  unfolding acknowledge
  acknowledge-is_queued ids rows there h =
      any-delete_where (λ (s : TelemetrySample). s.id == k) (λ s. elem s.id ids) rows there
        (none_acknowledged ids rows h)

  ingested-has_row :
      (server : Server) (batch : TelemetryBatch)
      → is_valid batch ≡ true
      → (elem k ((ingested server batch).0.accepted ++ (ingested server batch).0.duplicates)
          || has_row k server.db.telemetry)
        ≡ true
      → has_row k (ingested server batch).1.telemetry ≡ true
  ingested-has_row server batch valid given =
      let p = ingested server batch in
      let (accepted, duplicates, stored) =
        ingest_batch_acknowledged server.db server.device batch server.now server.new p.0 p.1 refl k
          (ground arith) in
      ground (arith, elem-append k p.0.accepted p.0.duplicates)

  -- What the server has acknowledged it has stored.
  receive-has_row :
      (server : Server) (batch : TelemetryBatch) (network : Network) (ids : List Key)
      → read_answer network (receive server batch).0 ≡ ok ids
      → elem k ids ≡ true
      → has_row k (receive server batch).1.telemetry ≡ true
  unfolding read_answer
  receive-has_row server batch answered ids h given = elim (Bool-cases (is_valid batch)) [
    | inl valid ↦
        let e = receive_valid server batch valid in
        let acknowledged : (ingested server batch).0.accepted
              ++ (ingested server batch).0.duplicates
            ≡ ids =
          ground arith in
        subst (λ r. has_row k r.1.telemetry ≡ true) (sym e)
          (ingested-has_row server batch valid (ground arith))
    | inr invalid ↦ let e = receive_invalid server batch invalid in absurd (ground arith)
  ]
  receive-has_row server batch lost_request ids h given = absurd (ground arith)
  receive-has_row server batch lost_answer ids h given = absurd (ground arith)

  -- What it had stored it keeps.
  receive-keeps :
      (server : Server) (batch : TelemetryBatch)
      → has_row k server.db.telemetry ≡ true
      → has_row k (receive server batch).1.telemetry ≡ true
  receive-keeps server batch given = elim (Bool-cases (is_valid batch)) [
    | inl valid ↦
        subst (λ r. has_row k r.1.telemetry ≡ true) (sym (receive_valid server batch valid))
          (ingested-has_row server batch valid (ground arith))
    | inr invalid ↦
        subst (λ r. has_row k r.1.telemetry ≡ true) (sym (receive_invalid server batch invalid))
          given
  ]

  upload-keeps :
      (network : Network) (boot_id : Key) (samples : List TelemetrySample) (server : Server)
      → has_row k server.db.telemetry ≡ true
      → has_row k (upload network boot_id samples server).1.telemetry ≡ true
  unfolding upload
  upload-keeps answered boot_id samples server h =
      receive-keeps server (record { boot_id = boot_id; samples = samples }) h
  upload-keeps lost_answer boot_id samples server h =
      receive-keeps server (record { boot_id = boot_id; samples = samples }) h
  upload-keeps lost_request boot_id samples server h = h

  upload-has_row :
      (network : Network) (boot_id : Key) (samples : List TelemetrySample) (server : Server)
      (ids : List Key)
      → (upload network boot_id samples server).0 ≡ ok ids
      → elem k ids ≡ true
      → has_row k (upload network boot_id samples server).1.telemetry ≡ true
  unfolding upload
  upload-has_row answered boot_id samples server ids h e =
      receive-has_row server (record { boot_id = boot_id; samples = samples }) answered ids h e
  upload-has_row lost_answer boot_id samples server ids h e =
      receive-has_row server (record { boot_id = boot_id; samples = samples }) lost_answer ids h e
  upload-has_row lost_request boot_id samples server ids h e = absurd (ground arith)

  finish-IsKept :
      (agent : AgentRuntime) (answer : Result String (List Key)) (db db' : Db)
      → (has_row k db.telemetry ≡ true → has_row k db'.telemetry ≡ true)
      → ((ids : List Key) → answer ≡ ok ids → elem k ids ≡ true → has_row k db'.telemetry ≡ true)
      → IsKept k agent db
      → IsKept k (finish_upload agent (answer, db')).1.0 (finish_upload agent (answer, db')).1.1
  unfolding finish_upload
  finish-IsKept agent (ok ids) db db' keeps stores kept = elim (Bool-cases (elem k ids)) [
    | inl gone ↦ let there = stores ids refl gone in ground arith
    | inr stays ↦ elim (Bool-cases (is_queued k agent.queue)) [
      | inl queued ↦ ground (arith, acknowledge-is_queued ids agent.queue queued stays)
      | inr sent ↦ let there = keeps (ground arith) in ground arith
    ]
  ]
  finish-IsKept agent (err message) db db' keeps stores kept = ground (arith, keeps)

  samples-IsKept :
      (network : Network) (boot_id : Key) (agent : AgentRuntime) (server : Server)
      (samples : List TelemetrySample)
      → IsKept k agent server.db
      → IsKept k
          (upload_samples network boot_id agent server samples).1.0
          (upload_samples network boot_id agent server samples).1.1
  unfolding upload_samples
  samples-IsKept network boot_id agent server [] kept = kept
  samples-IsKept network boot_id agent server (s ∷ ss) kept =
      let (answer, db') = upload network boot_id (s ∷ ss) server in
      finish-IsKept agent answer server.db db' (upload-keeps network boot_id (s ∷ ss) server)
        (λ ids e given. upload-has_row network boot_id (s ∷ ss) server ids e given) kept

  pub upload_once-IsKept :
      (network : Network) (limit : ℕ) (boot_id : Key) (agent : AgentRuntime) (server : Server)
      → IsKept k agent server.db
      → IsKept k
          (upload_once network limit boot_id agent server).1.0
          (upload_once network limit boot_id agent server).1.1
  unfolding upload_once
  upload_once-IsKept network limit boot_id agent server kept =
      samples-IsKept network boot_id agent server (pending limit agent.queue) kept

  pub collect_once-IsKept :
      (reading : Reading) (agent : AgentRuntime) (db : Db)
      → (IsKept k agent db ⊎ (reading.id ≡ k))
      → IsKept k (collect_once reading agent).1 db
  unfolding collect_once
  collect_once-IsKept reading agent db kept =
      ground
        (arith, enqueue-is_queued (collect_once reading agent).0 agent.queue, ==_iff reading.id k)
