-- ===== src/Dashboards/Tests.antt =====
-- The theorem on dashboards at a sample run.
use vehinode.Prelude.{◌≡◌, refl, true, false, ◌==◌, arith, [], ◌∷◌, ok}
use vehinode.Prelude.Table.{any, find, select, insert_by, order_by, update_where, delete_where}
use vehinode.Json.{end}
use vehinode.Models.{Dashboard, Db}
use vehinode.Dashboards.{DashboardWrite, create_dashboard, delete_dashboard, promote}
use vehinode.Dashboards.Runs.{creates, deletes, here, then_step, IsOrderly, Reaches-IsOrderly}
use vehinode.Fixtures.{garage, alice}

abbrev request : DashboardWrite
request = record { name = "Overview"; is_default = false; layout = end }

-- Alice creates two dashboards, of which the first is her default, and deletes that one.
abbrev first : Db
first = (create_dashboard garage alice request 70 100).1

abbrev second : Db
second = (create_dashboard first alice request 71 200).1

abbrev last : Db
last = record garage {
  dashboards =
      record {
        id = 71;
        owner_id = 1;
        name = "Overview";
        is_default = true;
        layout = end;
        created_at = 200;
      }
      ∷ [];
}

deleted : delete_dashboard 70 second alice ≡ ok last
unfolding delete_dashboard create_dashboard promote find select insert_by order_by update_where
    delete_where
deleted = refl

tidy : IsOrderly garage
unfolding select
tidy = record { unique = tt; one = λ owner. omega arith }

fresh : any (λ (d : Dashboard). d.id == 71) first.dashboards ≡ false
unfolding any create_dashboard update_where find
fresh = refl

unused : any (λ (d : Dashboard). d.id == 70) garage.dashboards ≡ false
unfolding any
unused = refl

Reaches-IsOrderly_example : IsOrderly last
Reaches-IsOrderly_example = Reaches-IsOrderly tidy (
    then_step
      (then_step (then_step here (creates alice request 70 100 unused))
        (creates alice request 71 200 fresh))
      (deletes alice 70 deleted))
