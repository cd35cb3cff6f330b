-- ===== src/Agent/Tests.antt =====
-- The theorems on agents and their uploads at the sample data.
use vehinode.Prelude.{◌≡◌, refl, true, false, arith, All, none, some, []}
use vehinode.Json.{end, field, int}
use vehinode.Prelude.Int.{pos}
use vehinode.Prelude.Table.{any}
use vehinode.Prelude.Table.Keys.{UniqueBy}
use vehinode.Telemetry.{TelemetrySample, NewIds, Position}
use vehinode.Telemetry.Schemas.{is_acceptable}
use vehinode.Agent.{
  Reading, Server, answered, lost_answer, pending, upload_once, collect_once, enqueue,
}
use vehinode.Agent.Delivery.{IsKept, is_queued}
use vehinode.Agent.Progress.{upload_once-delivers}
use vehinode.Telemetry.Rows.{has_row}
use vehinode.Agent.Runs.{
  System, collected, uploaded, here, then_step, uploads, collects, collected-IsKept,
}
use vehinode.Fixtures.{workshop, device}

abbrev start : System
start = record { agent = record { queue = []; sequence = 0 }; db = workshop }

-- In Paris with a heading of 359.5 degrees, and with a heading of 360.
abbrev paris : Position
paris = record {
  latitude = 0x40486DB22D0E5604;
  longitude = 0x4002CF41F212D773;
  altitude = none;
  speed = some 0;
  heading = some 0x4076780000000000;
  accuracy = none;
}

abbrev reading : Reading
reading = record {
  id = 90;
  now = 100;
  position = some paris;
  metrics = field "vehicle.speed" (int (pos 50)) end;
  health = end;
}

abbrev turned : Reading
turned = record reading { position = some (record paris { heading = some 0x4076800000000000 }) }

abbrev next_reading : Reading
next_reading = record reading { id = 91; now = 200 }

abbrev new : NewIds
new = record { trigger = 40; execution = λ k. k; job = λ k. k }

-- The answer to the first upload is lost; the agent collects another sample and uploads both.
abbrev first : System
first = uploaded lost_answer 500 1 (collected reading start) device 110 new

abbrev last : System
last = uploaded answered 500 1 (collected next_reading first) device 210 new

collected-IsKept_example : IsKept 90 last.agent last.db
collected-IsKept_example = collected-IsKept start last reading (
    then_step
      (then_step
        (then_step here (uploads (collected reading start) lost_answer 500 1 device 110 new))
        (collects first next_reading))
      (uploads (collected next_reading first) answered 500 1 device 210 new))

abbrev waiting : System
waiting = collected reading start

abbrev server : Server
server = record { db = workshop; device = device; now = 110; new = new }

one_waits : UniqueBy (λ (s : TelemetrySample). s.id) waiting.agent.queue
unfolding collect_once enqueue any
one_waits = (refl, tt)

acceptable : All (λ (s : TelemetrySample). is_acceptable s ≡ true) waiting.agent.queue
unfolding collect_once enqueue any is_acceptable
acceptable = (refl, tt)

refused : is_acceptable (collect_once turned start.agent).0 ≡ false
unfolding collect_once is_acceptable
refused = refl

upload_once-delivers_example :
    All
      (λ s.
        (is_queued s.id (upload_once answered 500 1 waiting.agent server).1.0.queue ≡ false)
        × (has_row s.id (upload_once answered 500 1 waiting.agent server).1.1.telemetry ≡ true))
      (pending 500 waiting.agent.queue)
upload_once-delivers_example =
    upload_once-delivers 1 waiting.agent server 500 one_waits acceptable (omega arith)
