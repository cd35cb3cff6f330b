-- ===== src/History/Points.antt =====
-- The points of a chart: how many there are, and which.
use vehinode.Prelude.{
  ℕ, ◌+◌, ◌-◌, ◌/◌, ◌<◌, ◌≤◌, ◌≡◌, refl, sym, ap, ◌∙◌, arith, Bool, false, All, Option, none, some,
  List, [], ◌∷◌, ◌++◌, map, elem, length, length-append, length-map, ◌==◌, ==_iff, ==_refl, ltb,
  Bool-cases, Option-cases, inl, inr, ok,
}
use vehinode.Prelude.Table.{select, order_by, insert_by}
use native.Mathlib.Nat.{mod-one, mod-add-div}
use vehinode.Prelude.Table.{find}
use vehinode.Prelude.Table.Orders.{any-order_by, elem-map}
use vehinode.Prelude.Table.Selection.{any-select-key, All-find, All-mono}
use vehinode.Prelude.Table.Keys.{UniqueBy}
use vehinode.Models.{Key, Instant, Telemetry, Db}
use vehinode.History.{
  HistoryPoint, HistoryResponse, point, in_range, in_time, stride_of, sampled, last_row, ends_with,
  with_last, rows_in, selected_rows, history,
}
use vehinode.History.Sampling.{sampled_bound, times_mono, select-elem-le}

module _ {A : Type 0} where
  length-insert_by : (f : A → ℕ) (x : A) (xs : List A) → length (insert_by f x xs) ≡ length xs + 1
  unfolding insert_by
  length-insert_by f x [] = refl
  length-insert_by f x (y ∷ ys) = ground (arith, length-insert_by f x ys)

  length-order_by : (f : A → ℕ) (xs : List A) → length (order_by f xs) ≡ length xs
  unfolding order_by
  length-order_by f [] = refl
  length-order_by f (x ∷ xs) =
      omega (arith, length-insert_by f x (order_by f xs), length-order_by f xs)

length-in_time : (rows : List Telemetry) → length (in_time rows) ≡ length rows
unfolding in_time
length-in_time rows = omega (
  arith,
  length-order_by (λ (row : Telemetry). row.recorded_at)
      (order_by (λ (row : Telemetry). row.id) rows),
  length-order_by (λ (row : Telemetry). row.id) rows,
)

length-with_last :
    (last : Option Telemetry) (rows : List Telemetry)
    → length (with_last last rows) ≤ length rows + 1
length-with_last none rows = omega arith
length-with_last (some last) rows = ground (arith, length-append rows (last ∷ []))

-- The newest row closes the list.
last_row-append : (rows : List Telemetry) (row : Telemetry) → last_row (rows ++ row ∷ []) ≡ some row
last_row-append [] row = refl
last_row-append (x ∷ []) row = refl
last_row-append (x ∷ y ∷ rows) row = last_row-append (y ∷ rows) row

abbrev pub last_id : List Telemetry → Option Key
last_id rows = elim (last_row rows) [ none ↦ none | some row ↦ some row.id ]

last_id-with_last :
    (last : Telemetry) (rows : List Telemetry) → last_id (with_last (some last) rows) ≡ some last.id
last_id-with_last last rows = elim (Bool-cases (ends_with rows last)) [
  | inl closed ↦ rw closed (elim (Option-cases (last_row rows)) [
    | inl empty ↦ absurd (ground arith)
    | inr (row, e) ↦ ground (arith, ==_iff row.id last.id)
  ])
  | inr open_end ↦ rw open_end (ground (arith, last_row-append rows last))
]

closing :
    (rows xs : List Telemetry) (row : Telemetry)
    → last_row rows ≡ some row
    → last_id (with_last (last_row rows) xs) ≡ last_id rows
closing rows xs row found =
    let closed = last_id-with_last row xs in
    let newest : last_id rows ≡ some row.id = ground arith in rw found closed ∙ sym newest

abbrev pub point_id : Option HistoryPoint → Option Key
point_id none = none
point_id (some p) = some p.id

abbrev pub last_point : List HistoryPoint → Option HistoryPoint
last_point [] = none
last_point (p ∷ []) = some p
last_point (p ∷ next ∷ ps) = last_point (next ∷ ps)

last_point-map : (rows : List Telemetry) → point_id (last_point (map point rows)) ≡ last_id rows
last_point-map [] = refl
last_point-map (x ∷ []) = refl
last_point-map (x ∷ y ∷ rows) = last_point-map (y ∷ rows)

-- With a stride of one every row is taken.
sampled_all :
    (ordinal : ℕ) (rows : List Telemetry)
    → sampled 1 ordinal rows ≡ map (λ (row : Telemetry). row.id) rows
unfolding sampled
sampled_all ordinal [] = refl
sampled_all ordinal (row ∷ rows) = ground (arith, sampled_all (ordinal + 1) rows, mod-one ordinal)

stride_one :
    (count max_points : ℕ) → 0 < max_points → count ≤ max_points → stride_of count max_points ≡ 1
unfolding stride_of
stride_one count max_points h le =
    let whole = (count + max_points - 1) / max_points in
    let divided = mod-add-div (count + max_points - 1) max_points in
    elim (Bool-cases (ltb 1 whole)) [
      | inl more ↦
          let two : 2 ≤ whole = ground arith in
          let wide = times_mono 2 whole max_points two in absurd (omega arith)
      | inr one ↦ ground arith
    ]

select_ext :
    (p q : Telemetry → Bool) (xs : List Telemetry)
    → All (λ x. p x ≡ q x) xs
    → select p xs ≡ select q xs
unfolding select
select_ext p q [] h = refl
select_ext p q (x ∷ xs) h = let e = h.0 in let ih = select_ext p q xs h.1 in ground arith

no_rows : (rows : List Telemetry) → last_row rows ≡ none → rows ≡ []
no_rows [] e = refl
no_rows (x ∷ []) e = absurd (ground arith)
no_rows (x ∷ y ∷ rows) e = absurd (ground (arith, no_rows (y ∷ rows)))

select_never : (rows : List Telemetry) → select (λ (row : Telemetry). false) rows ≡ []
unfolding select
select_never [] = refl
select_never (x ∷ rows) = select_never rows

closed_by_last : (rows : List Telemetry) → with_last (last_row rows) rows ≡ rows
closed_by_last rows = elim (Option-cases (last_row rows)) [
  | inl empty ↦ ground arith
  | inr (row, e) ↦ ground (arith, ==_refl row.id)
]

module _ (db : Db) (unique : UniqueBy (λ (row : Telemetry). row.id) db.telemetry)
    (vehicle_id : Key) where
  selected_bound :
      (start end : Instant) (max_points : ℕ)
      → 0 < max_points
      → length (selected_rows db vehicle_id start end max_points) ≤ max_points + 1
  unfolding selected_rows
  selected_bound start end max_points h =
      let rows = rows_in db vehicle_id start end in
      let ids = sampled (stride_of (length rows) max_points) 0 rows in
      let few = sampled_bound max_points rows h in
      let found = select (λ (row : Telemetry). elem row.id ids) db.telemetry in
      omega (
        arith,
        few,
        select-elem-le (λ (row : Telemetry). row.id) ids db.telemetry unique,
        length-in_time found,
        length-with_last (last_row rows) (in_time found),
      )

  any-rows_in :
      (start end : Instant) (k : Key) {row : Telemetry}
      → find (λ (t : Telemetry). t.id == k) db.telemetry ≡ some row
      → elem k (map (λ (t : Telemetry). t.id) (rows_in db vehicle_id start end))
        ≡ in_range vehicle_id start end row
  unfolding in_time
  any-rows_in start end k {row} found =
      let chosen = select (in_range vehicle_id start end) db.telemetry in
      let by_id = order_by (λ (t : Telemetry). t.id) chosen in
      let by_time = order_by (λ (t : Telemetry). t.recorded_at) by_id in
      elem-map (λ (t : Telemetry). t.id) k by_time
      ∙ any-order_by (λ (t : Telemetry). t.id == k) (λ t. t.recorded_at) by_id
      ∙ any-order_by (λ (t : Telemetry). t.id == k) (λ t. t.id) chosen
      ∙ any-select-key (λ (t : Telemetry). t.id) k (in_range vehicle_id start end) db.telemetry
          {a = row} unique found

  -- A time range that holds no more rows than asked for is returned whole, in order.
  selected_all :
      (start end : Instant) (max_points : ℕ)
      → 0 < max_points
      → length (rows_in db vehicle_id start end) ≤ max_points
      → selected_rows db vehicle_id start end max_points ≡ rows_in db vehicle_id start end
  unfolding selected_rows
  selected_all start end max_points h le =
      let rows = rows_in db vehicle_id start end in
      let ids = map (λ (t : Telemetry). t.id) rows in
      let same =
        select_ext (λ (t : Telemetry). elem t.id ids) (in_range vehicle_id start end) db.telemetry
          (All-mono (λ t. find (λ (u : Telemetry). u.id == t.id) db.telemetry ≡ some t)
            (λ t. elem t.id ids ≡ in_range vehicle_id start end t) db.telemetry
            (λ t found. any-rows_in start end t.id found)
            (All-find (λ (t : Telemetry). t.id) db.telemetry unique)) in
      rw (stride_one (length rows) max_points h le)
        (rw (sampled_all 0 rows) (rw same (closed_by_last rows)))

  newest_selected :
      (start end : Instant) (max_points : ℕ)
      → last_id (selected_rows db vehicle_id start end max_points)
        ≡ last_id (rows_in db vehicle_id start end)
  unfolding selected_rows
  newest_selected start end max_points =
      elim (Option-cases (last_row (rows_in db vehicle_id start end))) [
        | inl none_left ↦
            rw (no_rows (rows_in db vehicle_id start end) none_left)
              (unfold sampled in rw (select_never db.telemetry) (unfold in_time order_by in refl))
        | inr (row, found) ↦ closing (rows_in db vehicle_id start end) _ row found
      ]

  resolved :
      (start end : Option Instant) (max_points : ℕ) (now : Instant) (r : HistoryResponse)
      → history db vehicle_id start end max_points now ≡ ok r
      → (r.points ≡ map point (selected_rows db vehicle_id r.start r.end max_points))
        × (r.original_count ≡ length (rows_in db vehicle_id r.start r.end))
  unfolding history
  resolved start end max_points now r e = (ground arith, ground arith)

  -- A chart has at most one point more than were asked for, one or more. Its last point is that of the
  -- newest row of the time range, and it has none exactly where the range has no rows.
  pub history_bound :
      (start end : Option Instant) (max_points : ℕ) (now : Instant) (r : HistoryResponse)
      → 0 < max_points
      → history db vehicle_id start end max_points now ≡ ok r
      → (length r.points ≤ max_points + 1)
        × (point_id (last_point r.points) ≡ last_id (rows_in db vehicle_id r.start r.end))
  history_bound start end max_points now r h e =
      let (points, count) = resolved start end max_points now r e in
      rw points (
        omega (
          arith,
          length-map point (selected_rows db vehicle_id r.start r.end max_points),
          selected_bound r.start r.end max_points h,
        ),
        last_point-map (selected_rows db vehicle_id r.start r.end max_points)
            ∙ newest_selected r.start r.end max_points,
      )

  -- A time range that holds no more rows than were asked for is returned whole, in order of time.
  history_whole :
      (start end : Option Instant) (max_points : ℕ) (now : Instant) (r : HistoryResponse)
      → 0 < max_points
      → history db vehicle_id start end max_points now ≡ ok r
      → r.original_count ≤ max_points
      → r.points ≡ map point (rows_in db vehicle_id r.start r.end)
  history_whole start end max_points now r h e le =
      let (points, count) = resolved start end max_points now r e in
      points ∙ ap (map point) (selected_all r.start r.end max_points h (omega arith))
