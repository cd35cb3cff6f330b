-- ===== src/Telemetry/Tests.antt =====
-- The theorems on uploads at the sample data.
use vehinode.Prelude.{◌≡◌, refl, arith, true, none, [], ◌∷◌, ◌+◌, All, IfSome}
use vehinode.Prelude.Table.{any, select, order_by}
use vehinode.Models.{Key, Db}
use vehinode.Json.{end, field, Json}
use vehinode.Jobs.Queue.{IsQueue}
use vehinode.Telemetry.{
  TelemetrySample, TelemetryBatch, IngestionResult, NewIds, ingest_batch, seen, store_samples,
  store_sample, telemetry_model, sort_rows, enqueue_hooks, enqueue_each, is_subscribed,
}
use vehinode.Telemetry.Uploads.{ingest_batch_twice}
use vehinode.Telemetry.Current.{ingest_batch-IsMerged, IsMerged, new_rows, is_current, state_of}
use vehinode.Telemetry.Enqueued.{ingest_batch-Enqueues, Enqueues}
use vehinode.Telemetry.Queue.{ingest_batch-IsQueue, AreFresh}
use vehinode.Fixtures.{workshop, device}

abbrev sample : Key → Key → TelemetrySample
sample k at = record {
  id = k;
  sequence = k;
  recorded_at = at;
  position = none;
  metrics = field "speed" (Json.bool true) end;
  device = end;
}

-- The sample 7 is stored already; 9 was recorded after 8.
abbrev batch : TelemetryBatch
batch = record { boot_id = 1; samples = sample 7 100 ∷ sample 9 300 ∷ sample 8 200 ∷ [] }

abbrev new : NewIds
new = record { trigger = 40; execution = λ k. k + 100; job = λ k. k + 200 }

abbrev answer : IngestionResult
answer = record { accepted = 9 ∷ 8 ∷ []; duplicates = 7 ∷ [] }

abbrev after : Db
unfolding ingest_batch
after = (ingest_batch workshop device batch 500 new).1

uploaded : ingest_batch workshop device batch 500 new ≡ (answer, after)
unfolding ingest_batch store_samples store_sample any telemetry_model
uploaded = refl

ingest_batch_twice_example :
    ingest_batch after device batch 900 new
    ≡ (record { accepted = []; duplicates = 7 ∷ 9 ∷ 8 ∷ [] }, seen device 900 after)
ingest_batch_twice_example =
    ingest_batch_twice workshop device batch 500 new answer after 900 new uploaded

ingest_batch-Enqueues_example :
    Enqueues new 500 workshop after (sort_rows (new_rows workshop device batch 500))
ingest_batch-Enqueues_example =
    ingest_batch-Enqueues workshop device batch 500 new answer after refl uploaded

fresh : AreFresh new workshop.jobs
unfolding any
fresh = record { unused = λ k. ground arith; distinct_jobs = λ j k e. omega arith }

ingest_batch-IsQueue_example : IsQueue after.jobs
unfolding any
ingest_batch-IsQueue_example =
    ingest_batch-IsQueue workshop device batch 500 new answer after fresh (refl, tt)
      (record { unique = (refl, tt); attempted = (refl, tt) }) uploaded

-- The next upload has a newer sample.
abbrev next_batch : TelemetryBatch
next_batch = record { boot_id = 1; samples = sample 11 400 ∷ [] }

abbrev later : Db
unfolding ingest_batch
later = (ingest_batch after device next_batch 900 new).1

uploaded_next :
    ingest_batch after device next_batch 900 new
    ≡ (record { accepted = 11 ∷ []; duplicates = [] }, later)
unfolding ingest_batch store_samples store_sample any telemetry_model enqueue_hooks order_by
    enqueue_each select is_subscribed
uploaded_next = refl

ingest_batch-IsMerged_example :
    All (IsMerged later.states) (new_rows after device next_batch 900)
    × IfSome
        (λ s. is_current s.updated_at (state_of later.states 10) ≡ true)
        (state_of after.states 10)
    × (state_of later.states 12 ≡ state_of after.states 12)
ingest_batch-IsMerged_example =
    ingest_batch-IsMerged after device next_batch 900 new
      (record { accepted = 11 ∷ []; duplicates = [] }) later uploaded_next 10 12 refl
      (λ e. omega arith)
