-- ===== src/Telemetry/Schemas.antt =====
-- The limits of `Position` and `TelemetrySample` in backend/app/telemetry/schemas.py, which the
-- framework checks before a request is handled. The numbers are the 64-bit patterns of doubles.
use vehinode.Prelude.{
  ◌+◌, ◌^◌, String, Bool, true, false, not, ◌&&◌, Option, none, some, List, [], ◌∷◌, ◌==◌, ltb, leb,
  length, if◌then◌else◌,
}
use vehinode.Prelude.Table.{any}
use vehinode.Json.{Double, Json, float, arr, obj, Fields, end, field}
use vehinode.Text.{codes, is_space}
use vehinode.Telemetry.{Position, TelemetrySample}

-- From minus one limit to the other one, of which the patterns are given: a pattern from 2 ^ 63 on
-- has a sign. No infinity and nothing that is not a number is in such a range.
abbrev is_between : Double → Double → Double → Bool
is_between below limit d = if ltb d (2 ^ 63) then leb d limit else leb d (2 ^ 63 + below)

abbrev is_optional : (Double → Bool) → Option Double → Bool
is_optional test none = true
is_optional test (some d) = test d

-- 90, 180, 500 and 15000, 1000, 360 and 100000
unfoldable pub is_position : Position → Bool
is_position p =
    is_between 0x4056800000000000 0x4056800000000000 p.latitude
    && is_between 0x4066800000000000 0x4066800000000000 p.longitude
    && is_optional (is_between 0x407F400000000000 0x40CD4C0000000000) p.altitude
    && is_optional (is_between 0 0x408F400000000000) p.speed
    && is_optional (λ d. is_between 0 0x4076800000000000 d && not (d == 0x4076800000000000))
        p.heading
    && is_optional (is_between 0 0x40F86A0000000000) p.accuracy

abbrev is_optional_position : Option Position → Bool
unfolding is_position
is_optional_position none = true
is_optional_position (some p) = is_position p

-- `MetricValue`, without an infinity or a NaN
abbrev is_metric_value : Json → Bool
is_metric_value (arr xs) = false
is_metric_value (obj fs) = false
is_metric_value (float d) = is_between 0x7FEFFFFFFFFFFFFF 0x7FEFFFFFFFFFFFFF d
is_metric_value _ = true

unfoldable pub is_metric_name : String → Bool
unfolding any is_space
is_metric_name name =
    let s = codes name in leb 1 (length s) && leb (length s) 120 && not (any is_space s)

unfoldable pub are_metrics : Fields → Bool
unfolding is_metric_name
are_metrics end = true
are_metrics (field name value fs) = is_metric_name name && is_metric_value value && are_metrics fs

-- A sample that breaks none of the limits of its schema.
unfoldable pub is_acceptable : TelemetrySample → Bool
unfolding are_metrics is_position
is_acceptable s = is_optional_position s.position && are_metrics s.metrics && are_metrics s.device

unfoldable pub all_acceptable : List TelemetrySample → Bool
unfolding is_acceptable
all_acceptable [] = true
all_acceptable (s ∷ ss) = is_acceptable s && all_acceptable ss
