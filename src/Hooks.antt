-- ===== src/Hooks.antt =====
-- backend/app/hooks/services.py and backend/app/hooks/routes.py: the hooks that administrators write,
-- their revisions, and the executions that they ask for. Python's `compile` is the argument
-- `source_error`: the message of the error that it raises for a source, if any.
mod Manual
mod History
mod Revisions
mod Creation
mod Restoring
mod Executions
mod Tests
pub use Manual.{ManualIds}
unfoldable pub use Manual.{manual_trigger, manual_execution, manual_job, queue_manual_execution}
use vehinode.Prelude.{
  ℕ, ◌+◌, String, Bool, true, false, not, ◌&&◌, ◌||◌, Option, none, some, List, [], ◌∷◌, ◌++◌, ◌==◌,
  str_eq, is_some, is_none, if◌then◌else◌, Result, ok, err, HttpError, http, ◌>>=◌, ◌>>◌, raise_if,
  raise_as,
}
use vehinode.Prelude.Table.{find, any, select, update_where, delete_where, order_by}
use vehinode.Models.{
  Key, Instant, User, Telemetry, TriggerType, Hook, HookRevision, HookState, HookExecution,
  ExecutionStatus, Db,
}
use vehinode.Access.{get_vehicle, require_admin}

-- `trigger_type` has one value.
pub record HookWrite : Type 0 where
  pub name : String
  pub description : String
  pub enabled : Bool
  pub vehicle_id : Option Key
  pub source : String
  pub timeout_seconds : ℕ

abbrev pub validate_source : (String → Option String) → String → Result String (Unit {0})
validate_source source_error source = elim (source_error source) [ none ↦ ok tt | some e ↦ err e ]

-- The filter of a hook names no vehicle.
abbrev pub is_filter_missing : Db → Option Key → Bool
is_filter_missing db none = false
is_filter_missing db (some k) = is_none (get_vehicle db k)

abbrev pub missing_vehicle : String
missing_vehicle = "vehicle filter does not exist"

abbrev pub new_revision : Key → Hook → User → HookRevision
new_revision id hook author = record {
  id = id;
  hook_id = hook.id;
  revision = hook.revision;
  source = hook.source;
  created_by = author.id;
}

-- The column that the call does not set has the default of the table.
abbrev pub new_hook : HookWrite → User → Key → Hook
new_hook request creator id = record {
  id = id;
  created_by = some creator.id;
  vehicle_id = request.vehicle_id;
  name = request.name;
  description = request.description;
  enabled = request.enabled;
  trigger_type = TriggerType.telemetry_received;
  source = request.source;
  timeout_seconds = request.timeout_seconds;
  revision = 1;
}

unfoldable pub create_hook :
    (String → Option String) → Db → User → HookWrite → Key → Key → Result String (Hook × Db)
create_hook source_error db creator request id revision_id = do
  validate_source source_error request.source
  raise_if (is_filter_missing db request.vehicle_id) missing_vehicle
  let hook = new_hook request creator id
  ok (
    hook,
    record db {
      hooks = db.hooks ++ hook ∷ [];
      revisions = db.revisions ++ new_revision revision_id hook creator ∷ [];
    },
  )

-- `hook.source != data.source`
abbrev pub changes_source : Hook → HookWrite → Bool
changes_source hook request = not (str_eq hook.source request.source)

-- The row after the assignments of `update_hook`.
unfoldable pub written : HookWrite → Hook → Hook
written request hook = record hook {
  vehicle_id = request.vehicle_id;
  name = request.name;
  description = request.description;
  enabled = request.enabled;
  trigger_type = TriggerType.telemetry_received;
  source = request.source;
  timeout_seconds = request.timeout_seconds;
  revision = if changes_source hook request then hook.revision + 1 else hook.revision;
}

unfoldable pub update_hook :
    (String → Option String) → Db → Hook → User → HookWrite → Key → Result String (Hook × Db)
update_hook source_error db hook editor request revision_id = do
  validate_source source_error request.source
  raise_if (is_filter_missing db request.vehicle_id) missing_vehicle
  ok (
    written request hook,
    record db {
      hooks = update_where (λ (h : Hook). h.id == hook.id) (written request) db.hooks;
      revisions =
          if changes_source hook request
          then db.revisions ++ new_revision revision_id (written request hook) editor ∷ []
          else db.revisions;
    },
  )

abbrev pub get_hook : Db → Key → Option Hook
get_hook db hook_id = find (λ (h : Hook). h.id == hook_id) db.hooks

-- `_hook`
abbrev pub required_hook : Db → Key → Result HttpError Hook
required_hook db hook_id = elim (get_hook db hook_id) [
  | none ↦ http 404 "hook not found"
  | some hook ↦ ok hook
]

-- The routes, behind `require_admin`.
unfoldable pub add_hook :
    (String → Option String) → Db → User → HookWrite → Key → Key → Result HttpError (Hook × Db)
add_hook source_error db user request id revision_id = do
  admin ← require_admin user
  raise_as 400 (create_hook source_error db admin request id revision_id)

unfoldable pub edit_hook :
    (String → Option String) → Db → User → Key → HookWrite → Key → Result HttpError (Hook × Db)
edit_hook source_error db user hook_id request revision_id = do
  admin ← require_admin user
  hook ← required_hook db hook_id
  raise_as 400 (update_hook source_error db hook admin request revision_id)

-- What the foreign keys delete with a hook.
unfoldable pub delete_hook_row : Db → Key → Db
delete_hook_row db k = record db {
  hooks = delete_where (λ (h : Hook). h.id == k) db.hooks;
  revisions = delete_where (λ (r : HookRevision). r.hook_id == k) db.revisions;
  hook_states = delete_where (λ (s : HookState). s.hook_id == k) db.hook_states;
  executions = delete_where (λ (e : HookExecution). e.hook_id == k) db.executions;
}

unfoldable pub remove_hook : Db → User → Key → Result HttpError Db
remove_hook db user hook_id = do
  admin ← require_admin user
  hook ← required_hook db hook_id
  ok (delete_hook_row db hook.id)

abbrev pub find_revision : List HookRevision → Key → ℕ → Option HookRevision
find_revision revisions hook_id revision =
    find (λ (r : HookRevision). r.hook_id == hook_id && r.revision == revision) revisions

abbrev pub required_revision : Option HookRevision → Result HttpError HookRevision
required_revision none = http 404 "hook revision not found"
required_revision (some saved) = ok saved

-- The request that a restoration makes of a hook and a saved revision.
abbrev pub restoring : Hook → HookRevision → HookWrite
restoring hook saved = record {
  name = hook.name;
  description = hook.description;
  enabled = hook.enabled;
  vehicle_id = hook.vehicle_id;
  source = saved.source;
  timeout_seconds = hook.timeout_seconds;
}

-- A validation error is not caught here, so that the framework answers 500.
unfoldable pub restore_revision :
    (String → Option String) → Db → User → Key → ℕ → Key → Result HttpError (Hook × Db)
restore_revision source_error db user hook_id revision revision_id = do
  admin ← require_admin user
  hook ← required_hook db hook_id
  saved ← required_revision (find_revision db.revisions hook_id revision)
  elim (update_hook source_error db hook admin (restoring hook saved) revision_id) [
    | ok done ↦ ok done
    | err message ↦ http 500 "Internal Server Error"
  ]

abbrev pub required_row : {A : Type 0} → Option A → ℕ → String → Result HttpError A
required_row none status_code detail = http status_code detail
required_row (some a) status_code detail = ok a

abbrev pub find_telemetry : Db → Key → Option Telemetry
find_telemetry db k = find (λ (t : Telemetry). t.id == k) db.telemetry

unfoldable pub test_hook :
    ManualIds → Instant → Db → User → Key → Key → Bool → Result HttpError (HookExecution × Db)
test_hook new now db user hook_id telemetry_id dry_run = do
  admin ← require_admin user
  hook ← required_hook db hook_id
  telemetry ← required_row (find_telemetry db telemetry_id) 404 "telemetry sample not found"
  ok (queue_manual_execution new now db hook telemetry dry_run)

abbrev pub is_retryable : ExecutionStatus → Bool
is_retryable ExecutionStatus.failed = true
is_retryable ExecutionStatus.timeout = true
is_retryable _ = false

abbrev pub linked_telemetry : Db → Option Key → Option Telemetry
linked_telemetry db none = none
linked_telemetry db (some k) = find_telemetry db k

abbrev pub unavailable : String
unavailable = "execution source data is unavailable"

unfoldable pub retry_execution :
    ManualIds → Instant → Db → User → Key → Result HttpError (HookExecution × Db)
retry_execution new now db user execution_id = do
  admin ← require_admin user
  old ←
      required_row (find (λ (e : HookExecution). e.id == execution_id) db.executions) 404
        "execution not found"
  raise_if (not (is_retryable old.status))
      (record { status_code = 409; detail = "only failed executions can be retried" })
  telemetry ← required_row (linked_telemetry db old.telemetry_id) 409 unavailable
  hook ← required_row (get_hook db old.hook_id) 409 unavailable
  ok (queue_manual_execution new now db hook telemetry old.dry_run)
