-- ===== src/Hooks/Tests.antt =====
-- The theorems on hooks at the sample data.
use vehinode.Prelude.{◌≡◌, refl, true, false, String, Option, some, none, [], ◌∷◌, ok}
use vehinode.Prelude.Table.{any, find, update_where}
use vehinode.Json.{get, truthy}
use vehinode.Models.{Hook, HookRevision, ExecutionStatus, Db}
use vehinode.Access.{is_admin, require_admin}
use vehinode.Hooks.{
  HookWrite, ManualIds, create_hook, update_hook, written, new_hook, new_revision, restore_revision,
  retry_execution, queue_manual_execution, manual_execution, get_hook, find_revision, restoring,
}
use vehinode.Hooks.History.{HasHistory}
use vehinode.Hooks.Revisions.{update_hook-HasHistory}
use vehinode.Fixtures.{workshop, hook, alice, execution, reading}

-- Every source compiles.
abbrev source_error : String → Option String
source_error source = none

abbrev first : HookRevision
first = record { id = 60; hook_id = 5; revision = 1; source = "pass"; created_by = 1 }

abbrev saved : Db
saved = record workshop { revisions = first ∷ [] }

history : HasHistory saved
unfolding find any
history = record { unique = (refl, tt); saved = ((first, refl, refl), tt); earlier = (refl, tt) }

abbrev request : HookWrite
request = record {
  name = "Notify";
  description = "";
  enabled = true;
  vehicle_id = none;
  source = "return";
  timeout_seconds = 10;
}

abbrev edited : Db
edited = record saved {
  hooks = written request hook ∷ [];
  revisions = first ∷ new_revision 61 (written request hook) alice ∷ [];
}

edit : update_hook source_error saved hook alice request 61 ≡ ok (written request hook, edited)
unfolding update_hook update_where
edit = refl

update_hook-HasHistory_example :
    HasHistory edited
    × (get_hook edited 5 ≡ some (written request hook))
    × ((written request hook).source ≡ "return")
    × ((written request hook).revision ≡ 2)
    × (find_revision edited.revisions 5 1 ≡ some first)
unfolding find
update_hook-HasHistory_example =
    update_hook-HasHistory source_error saved hook alice request 61 (written request hook) edited 5
      1 history refl edit

abbrev created : Db
created = record saved {
  hooks = hook ∷ new_hook request alice 8 ∷ [];
  revisions = first ∷ new_revision 62 (new_hook request alice 8) alice ∷ [];
}

create : create_hook source_error saved alice request 8 62 ≡ ok (new_hook request alice 8, created)
unfolding create_hook
create = refl

abbrev back : Hook
back = written (restoring (written request hook) first) (written request hook)

abbrev restored : Db
restored = record edited {
  hooks = back ∷ [];
  revisions =
      first ∷ new_revision 61 (written request hook) alice ∷ new_revision 63 back alice ∷ [];
}

restore : restore_revision source_error edited alice 5 1 63 ≡ ok (back, restored)
unfolding restore_revision require_admin is_admin get truthy find update_hook update_where written
restore = refl

abbrev failed : Db
failed = record workshop { executions = execution 1 ExecutionStatus.failed ∷ [] }

abbrev new : ManualIds
new = record { trigger = 70; execution = 71; job = 72 }

abbrev retried : Db
unfolding queue_manual_execution
retried = (queue_manual_execution new 900 failed hook (reading 7 100) false).1

retry :
    retry_execution new 900 failed alice 1
    ≡ ok (manual_execution new hook (reading 7 100) false, retried)
unfolding retry_execution require_admin is_admin get truthy find queue_manual_execution
retry = refl
