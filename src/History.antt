-- ===== src/History.antt =====
-- backend/app/history/routes.py: the route that thins out the telemetry of a vehicle for a chart.
-- The times of a request default to the last 24 hours.
mod Sampling
mod Points
mod Tests
use vehinode.Prelude.{
  ℕ, ◌+◌, ◌-◌, ◌/◌, ◌%◌, ◌*◌, String, Bool, true, false, not, ◌&&◌, ◌||◌, Option, none, some, List,
  [], ◌∷◌, ◌++◌, map, elem, length, ◌==◌, ltb, leb, if◌then◌else◌, Result, ok, err, HttpError, http,
  ◌>>=◌, ◌>>◌, raise_if,
}
use vehinode.Prelude.Table.{select, order_by}
use vehinode.Json.{Double, Fields}
use vehinode.Models.{Key, Instant, seconds, Telemetry, Db}

pub record HistoryPoint : Type 0 where
  pub id : Key
  pub recorded_at : Instant
  pub latitude : Option Double
  pub longitude : Option Double
  pub speed : Option Double
  pub heading : Option Double
  pub metrics : Fields

pub record HistoryResponse : Type 0 where
  pub vehicle_id : Key
  pub start : Instant
  pub end : Instant
  pub original_count : ℕ
  pub points : List HistoryPoint

abbrev pub point : Telemetry → HistoryPoint
point row = record {
  id = row.id;
  recorded_at = row.recorded_at;
  latitude = row.latitude;
  longitude = row.longitude;
  speed = row.gps_speed;
  heading = row.heading;
  metrics = row.metrics;
}

abbrev pub or_instant : Option Instant → Instant → Instant
or_instant none t = t
or_instant (some s) t = s

-- `where`
abbrev pub in_range : Key → Instant → Instant → Telemetry → Bool
in_range vehicle_id start end row =
    row.vehicle_id == vehicle_id && (leb start row.recorded_at && leb row.recorded_at end)

-- `.order_by(Telemetry.recorded_at, Telemetry.id)`: the second sort keeps the order of the first
-- among rows of the same time.
unfoldable pub in_time : List Telemetry → List Telemetry
in_time rows =
    order_by (λ (row : Telemetry). row.recorded_at) (order_by (λ (row : Telemetry). row.id) rows)

-- `max(1, ceil(count / max_points))`
unfoldable pub stride_of : ℕ → ℕ → ℕ
stride_of count max_points =
    let whole = (count + max_points - 1) / max_points in if ltb 1 whole then whole else 1

-- The rows whose number, counted from `ordinal`, is a multiple of the stride.
unfoldable pub sampled : ℕ → ℕ → List Telemetry → List Key
sampled stride ordinal [] = []
sampled stride ordinal (row ∷ rows) =
    let rest = sampled stride (ordinal + 1) rows in
    if ordinal % stride == 0 then row.id ∷ rest else rest

abbrev pub last_row : List Telemetry → Option Telemetry
last_row [] = none
last_row (row ∷ []) = some row
last_row (row ∷ next ∷ rows) = last_row (next ∷ rows)

abbrev pub ends_with : List Telemetry → Telemetry → Bool
ends_with selected last = elim (last_row selected) [ none ↦ false | some row ↦ row.id == last.id ]

abbrev pub with_last : Option Telemetry → List Telemetry → List Telemetry
with_last none selected = selected
with_last (some last) selected = if ends_with selected last then selected else selected ++ last ∷ []

-- The rows of the time range, and those of them that are returned.
abbrev pub rows_in : Db → Key → Instant → Instant → List Telemetry
rows_in db vehicle_id start end = in_time (select (in_range vehicle_id start end) db.telemetry)

unfoldable pub selected_rows : Db → Key → Instant → Instant → ℕ → List Telemetry
unfolding sampled stride_of in_time
selected_rows db vehicle_id start end max_points =
    let rows = rows_in db vehicle_id start end in
    let ids = sampled (stride_of (length rows) max_points) 0 rows in
    with_last (last_row rows) (in_time (select (λ (row : Telemetry). elem row.id ids) db.telemetry))

unfoldable pub history :
    Db → Key → Option Instant → Option Instant → ℕ → Instant → Result HttpError HistoryResponse
history db vehicle_id start end max_points now =
    let resolved_end = or_instant end now in
    let resolved_start = or_instant start (resolved_end - seconds (24 * 3600)) in
    raise_if (leb resolved_end resolved_start)
      (record { status_code = 400; detail = "start must be earlier than end" })
    >> ok (record {
      vehicle_id = vehicle_id;
      start = resolved_start;
      end = resolved_end;
      original_count = length (rows_in db vehicle_id resolved_start resolved_end);
      points = map point (selected_rows db vehicle_id resolved_start resolved_end max_points);
    })
