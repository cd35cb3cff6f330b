-- ===== src/Agent.antt =====
-- agent/vehicle_agent/queue.py, runtime.py and transport.py: an agent keeps its samples in a durable
-- queue until the server has acknowledged them. `Network` says what becomes of a request.
pub mod Delivery
mod Progress
pub mod Runs
mod Tests
use vehinode.Prelude.{
  ℕ, ◌+◌, String, Bool, true, false, not, ◌&&◌, Option, List, [], ◌∷◌, ◌++◌, ◌==◌, leb, elem, take,
  length, if◌then◌else◌, Result, ok, err,
}
use vehinode.Prelude.Table.{any, select, delete_where, order_by}
use vehinode.Json.{Fields}
use vehinode.Models.{Key, Instant, Device, Db}
use vehinode.Telemetry.{
  TelemetrySample, TelemetryBatch, Position, NewIds, BatchResponse, telemetry_batch,
  unique_sample_ids,
}
use vehinode.Telemetry.Schemas.{all_acceptable}

-- The queue is the table `samples`, a row of it the sample that its payload decodes to.
unfoldable pub enqueue : TelemetrySample → List TelemetrySample → List TelemetrySample
enqueue sample rows =
    if any (λ (s : TelemetrySample). s.id == sample.id) rows then rows else rows ++ sample ∷ []

-- Rows of one sequence come in the order of insertion, which is that of `queued_at`.
unfoldable pub pending : ℕ → List TelemetrySample → List TelemetrySample
pending limit rows = take limit (order_by (λ (s : TelemetrySample). s.sequence) rows)

unfoldable pub acknowledge : List Key → List TelemetrySample → ℕ × List TelemetrySample
acknowledge sample_ids rows = (
  length (select (λ (s : TelemetrySample). elem s.id sample_ids) rows),
  delete_where (λ (s : TelemetrySample). elem s.id sample_ids) rows,
)

abbrev pub depth : List TelemetrySample → ℕ
depth rows = length rows

pub record AgentRuntime : Type 0 where
  pub queue : List TelemetrySample
  pub sequence : ℕ

-- What the providers read in one round, with the clock and the identifier of the sample.
pub record Reading : Type 0 where
  pub id : Key
  pub now : Instant
  pub position : Option Position
  pub metrics : Fields
  pub health : Fields

unfoldable pub collect_once : Reading → AgentRuntime → TelemetrySample × AgentRuntime
collect_once reading agent =
    let sequence = agent.sequence + 1 in
    let sample : TelemetrySample = record {
      id = reading.id;
      sequence = sequence;
      recorded_at = reading.now;
      position = reading.position;
      metrics = reading.metrics;
      device = reading.health;
    } in
    (sample, record { queue = enqueue sample agent.queue; sequence = sequence })

-- A request is answered, or it is lost, or only its answer is.
pub data Network : Type 0 where
  answered lost_request lost_answer : Network

-- The server at the time of a request.
pub record Server : Type 0 where
  pub db : Db
  pub device : Device
  pub now : Instant
  pub new : NewIds

-- The limits of the request schema, those of its samples included.
abbrev pub is_valid : TelemetryBatch → Bool
is_valid batch =
    unique_sample_ids batch
    && (leb 1 (length batch.samples) && leb (length batch.samples) 500)
    && all_acceptable batch.samples

abbrev pub upload_failed : String
upload_failed = "telemetry upload failed"

-- The server's side of a request, which the framework answers 422 if it breaks a limit.
unfoldable pub receive : Server → TelemetryBatch → Result String BatchResponse × Db
receive server batch =
    if is_valid batch
    then (let (response, db') =
          telemetry_batch server.db server.device batch server.now server.new in
        (ok response, db'))
    else (err upload_failed, server.db)

-- The answer as the agent reads it.
unfoldable pub read_answer : Network → Result String BatchResponse → Result String (List Key)
read_answer answered (ok response) = ok (response.accepted ++ response.duplicates)
read_answer _ _ = err upload_failed

unfoldable pub upload :
    Network → Key → List TelemetrySample → Server → Result String (List Key) × Db
upload lost_request boot_id samples server = (err upload_failed, server.db)
upload network boot_id samples server =
    let (answer, db') = receive server (record { boot_id = boot_id; samples = samples }) in
    (read_answer network answer, db')

-- The end of `upload_once`: an exception leaves the queue as it is.
unfoldable pub finish_upload :
    AgentRuntime → Result String (List Key) × Db → Result String ℕ × (AgentRuntime × Db)
finish_upload agent (ok acknowledged, db) =
    let (n, rows) = acknowledge acknowledged agent.queue in
    (ok n, (record agent { queue = rows }, db))
finish_upload agent (err message, db) = (err message, (agent, db))

unfoldable pub upload_samples :
    Network
    → Key
    → AgentRuntime
    → Server
    → List TelemetrySample
    → Result String ℕ × (AgentRuntime × Db)
upload_samples network boot_id agent server [] = (ok 0, (agent, server.db))
upload_samples network boot_id agent server (sample ∷ samples) =
    finish_upload agent (upload network boot_id (sample ∷ samples) server)

unfoldable pub upload_once :
    Network → ℕ → Key → AgentRuntime → Server → Result String ℕ × (AgentRuntime × Db)
upload_once network limit boot_id agent server =
    upload_samples network boot_id agent server (pending limit agent.queue)
