-- ===== src/History/Tests.antt =====
-- The theorems on charts at sample rows.
use vehinode.Prelude.{◌≡◌, ◌≤◌, ◌+◌, refl, arith, some, [], ◌∷◌, ok, map, length, List}
use vehinode.Prelude.Table.{select, any, insert_by, order_by}
use vehinode.Prelude.Table.Keys.{UniqueBy}
use vehinode.Models.{Telemetry, Db}
use vehinode.History.{
  HistoryResponse, HistoryPoint, point, rows_in, history, selected_rows, sampled, stride_of,
  in_time,
}
use vehinode.History.Points.{last_id, point_id, last_point, history_bound}
use vehinode.Fixtures.{empty_db, reading}

abbrev driven : Db
driven = record empty_db {
  telemetry = reading 3 300 ∷ reading 1 100 ∷ reading 4 400 ∷ reading 2 200 ∷ [];
}

abbrev chart : List HistoryPoint → HistoryResponse
chart points = record {
  vehicle_id = 10;
  start = 50;
  end = 500;
  original_count = 4;
  points = points;
}

-- Two points were asked for, and three are returned.
abbrev three : HistoryResponse
three = chart (point (reading 1 100) ∷ point (reading 3 300) ∷ point (reading 4 400) ∷ [])

abbrev four : HistoryResponse
four = chart (map point (reading 1 100 ∷ reading 2 200 ∷ reading 3 300 ∷ reading 4 400 ∷ []))

thinned : history driven 10 (some 50) (some 500) 2 900 ≡ ok three
unfolding history selected_rows sampled stride_of in_time order_by insert_by select
thinned = refl

whole : history driven 10 (some 50) (some 500) 10 900 ≡ ok four
unfolding history selected_rows sampled stride_of in_time order_by insert_by select
whole = refl

keyed : UniqueBy (λ (row : Telemetry). row.id) driven.telemetry
unfolding any
keyed = (refl, (refl, (refl, (refl, tt))))

history_bound_example :
    (length three.points ≤ 2 + 1)
    × (point_id (last_point three.points) ≡ last_id (rows_in driven 10 three.start three.end))
history_bound_example =
    history_bound driven keyed 10 (some 50) (some 500) 2 900 three (omega arith) thinned
