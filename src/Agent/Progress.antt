-- ===== src/Agent/Progress.antt =====
-- An upload that is answered, by `upload_once` of agent/vehicle_agent/runtime.py.
use vehinode.Prelude.{
  ◌≡◌, refl, sym, subst, arith, ℕ, zero, suc, ◌≤◌, take, String, true, false, List, [], ◌∷◌, ◌++◌,
  ◌==◌, ==_iff, ==_refl, elem, elem-append, length, length-take-le, All, Result, ok,
}
use vehinode.Prelude.Table.{order_by}
use vehinode.Prelude.Table.Keys.{UniqueBy}
use vehinode.Prelude.Table.Orders.{
  UniqueBy-order_by, UniqueBy-take, distinct-map, any-delete_where_covered,
}
use vehinode.Prelude.Table.Selection.{All-order_by}
use vehinode.Models.{Key, Db}
use vehinode.Telemetry.{TelemetrySample, TelemetryBatch, sample_ids}
use vehinode.Telemetry.Schemas.{is_acceptable, all_acceptable}
use vehinode.Telemetry.Rows.{has_row}
use vehinode.Telemetry.Uploads.{ingest_batch_acknowledged}
use vehinode.Agent.{
  AgentRuntime, Server, answered, pending, acknowledge, upload, upload_samples, upload_once,
  finish_upload, is_valid, read_answer,
}
use vehinode.Agent.Delivery.{is_queued, ingested, receive_valid}

All-take :
    (P : TelemetrySample → Type 0) (n : ℕ) (xs : List TelemetrySample)
    → All P xs
    → All P (take n xs)
All-take P zero xs h = tt
All-take P (suc n) [] h = tt
All-take P (suc n) (x ∷ xs) h = (h.0, All-take P n xs h.1)

abbrev IsAcceptable : TelemetrySample → Type 0
IsAcceptable s = is_acceptable s ≡ true

all_acceptable_lem : (ss : List TelemetrySample) → All IsAcceptable ss → all_acceptable ss ≡ true
unfolding all_acceptable
all_acceptable_lem [] h = refl
all_acceptable_lem (s ∷ ss) h = rw h.0 (all_acceptable_lem ss h.1)

-- What an agent uploads keeps to the limits of the server.
pending_valid :
    (limit : ℕ) (boot_id : Key) (rows : List TelemetrySample) (s : TelemetrySample)
    (ss : List TelemetrySample)
    → UniqueBy (λ (x : TelemetrySample). x.id) rows
    → All IsAcceptable rows
    → limit ≤ 500
    → pending limit rows ≡ s ∷ ss
    → is_valid (record { boot_id = boot_id; samples = s ∷ ss }) ≡ true
unfolding pending
pending_valid limit boot_id rows s ss unique acceptable small e =
    let sorted = order_by (λ (x : TelemetrySample). x.sequence) rows in
    let u : UniqueBy (λ (x : TelemetrySample). x.id) (s ∷ ss) =
      subst (UniqueBy (λ (x : TelemetrySample). x.id)) e (
        UniqueBy-take (λ (x : TelemetrySample). x.id) limit sorted
          (UniqueBy-order_by (λ (x : TelemetrySample). x.id) (λ x. x.sequence) rows unique)) in
    let short : length (s ∷ ss) ≤ 500 =
      subst (λ (xs : List TelemetrySample). length xs ≤ 500) e
        (omega (arith, length-take-le limit sorted)) in
    let fields : all_acceptable (s ∷ ss) ≡ true = all_acceptable_lem (s ∷ ss) (
      subst (All IsAcceptable) e (
        All-take IsAcceptable limit sorted
          (All-order_by IsAcceptable (λ (x : TelemetrySample). x.sequence) rows acceptable))) in
    ground (arith, distinct-map (λ (x : TelemetrySample). x.id) (s ∷ ss) u)

module _ (boot_id : Key) (agent : AgentRuntime) (server : Server) where
  abbrev batch : List TelemetrySample → TelemetryBatch
  batch samples = record { boot_id = boot_id; samples = samples }

  abbrev acknowledged : List TelemetrySample → List Key
  acknowledged samples =
      (ingested server (batch samples)).0.accepted ++ (ingested server (batch samples)).0.duplicates

  answer_valid :
      (s : TelemetrySample) (ss : List TelemetrySample)
      → is_valid (batch (s ∷ ss)) ≡ true
      → upload_samples answered boot_id agent server (s ∷ ss) ≡ (
        ok (acknowledge (acknowledged (s ∷ ss)) agent.queue).0,
        (
          record agent { queue = (acknowledge (acknowledged (s ∷ ss)) agent.queue).1 },
          (ingested server (batch (s ∷ ss))).1,
        ),
      )
  unfolding upload_samples finish_upload upload read_answer
  answer_valid s ss valid = rw (receive_valid server (batch (s ∷ ss)) valid) refl

  -- The sample is on the server and no longer in the queue.
  abbrev IsDelivered : List TelemetrySample → TelemetrySample → Type 0
  IsDelivered samples s =
      (is_queued s.id (acknowledge (acknowledged samples) agent.queue).1 ≡ false)
      × (has_row s.id (ingested server (batch samples)).1.telemetry ≡ true)

  sent-IsDelivered :
      (samples : List TelemetrySample) (s : TelemetrySample)
      → is_valid (batch samples) ≡ true
      → elem s.id (sample_ids samples) ≡ true
      → IsDelivered samples s
  unfolding acknowledge
  sent-IsDelivered samples s valid sent =
      let p = ingested server (batch samples) in
      let (accepted, duplicates, stored) =
        ingest_batch_acknowledged server.db server.device (batch samples) server.now server.new p.0
          p.1 refl s.id (ground arith) in
      let answered_for : elem s.id (acknowledged samples) ≡ true =
        ground (arith, elem-append s.id p.0.accepted p.0.duplicates) in
      (
        any-delete_where_covered (λ (x : TelemetrySample). x.id == s.id)
            (λ x. elem x.id (acknowledged samples)) agent.queue
            (λ x same.
              subst (λ k. elem k (acknowledged samples) ≡ true) (sym ((==_iff x.id s.id).0 same))
                answered_for),
        ground arith,
      )

  all-IsDelivered :
      (samples part : List TelemetrySample)
      → is_valid (batch samples) ≡ true
      → ((k : Key) → elem k (sample_ids part) ≡ true → elem k (sample_ids samples) ≡ true)
      → All (IsDelivered samples) part
  all-IsDelivered samples [] valid sent = tt
  all-IsDelivered samples (s ∷ ss) valid sent = (
    sent-IsDelivered samples s valid (sent s.id (ground (arith, ==_refl s.id))),
    all-IsDelivered samples ss valid (λ k e. sent k (ground arith)),
  )

  samples-IsDelivered :
      (samples : List TelemetrySample)
      → ((s : TelemetrySample) (ss : List TelemetrySample)
          → samples ≡ s ∷ ss
          → is_valid (batch (s ∷ ss)) ≡ true)
      → All
          (λ s.
            (is_queued s.id (upload_samples answered boot_id agent server samples).1.0.queue
              ≡ false)
            × (has_row s.id (upload_samples answered boot_id agent server samples).1.1.telemetry
                ≡ true))
          samples
  samples-IsDelivered [] valid = tt
  samples-IsDelivered (s ∷ ss) valid =
      let v = valid s ss refl in
      subst
        (λ (r : Result String ℕ × (AgentRuntime × Db)).
          All
            (λ (x : TelemetrySample).
              (is_queued x.id r.1.0.queue ≡ false) × (has_row x.id r.1.1.telemetry ≡ true))
            (s ∷ ss))
        (sym (answer_valid s ss v)) (all-IsDelivered (s ∷ ss) (s ∷ ss) v (λ k e. e))

  -- An upload that is answered, of at most 500 samples from a queue with a primary key whose samples
  -- all keep to the limits of the server on positions, metric names and metric values, removes each
  -- sample that it took from the queue, and each of them is then stored on the server.
  pub upload_once-delivers :
      (limit : ℕ)
      → UniqueBy (λ (s : TelemetrySample). s.id) agent.queue
      → All IsAcceptable agent.queue
      → limit ≤ 500
      → All
          (λ s.
            (is_queued s.id (upload_once answered limit boot_id agent server).1.0.queue ≡ false)
            × (has_row s.id (upload_once answered limit boot_id agent server).1.1.telemetry ≡ true))
          (pending limit agent.queue)
  unfolding upload_once
  upload_once-delivers limit unique acceptable small =
      samples-IsDelivered (pending limit agent.queue)
        (λ s ss e. pending_valid limit boot_id agent.queue s ss unique acceptable small e)
