-- ===== src/Models/Database.antt =====
-- The database: one list of rows for each table. A request works on it in a transaction, which
-- `get_db` of backend/app/common/database.py drops if the handler raises before it commits.
use vehinode.Prelude.{List}
use vehinode.Models.Accounts.{
  User, AuthenticationIdentity, BrowserSession, VehicleAccessGrant, AppSetting,
}
use vehinode.Models.Fleet.{
  Vehicle, Device, EnrollmentToken, Telemetry, VehicleState, VehicleProfile,
}
use vehinode.Models.Automation.{
  Trigger, Hook, HookRevision, HookState, HookExecution, Job, WorkerHeartbeat,
}
use vehinode.Models.Dashboards.{Dashboard, VehiclePhoto}

pub record Db : Type 0 where
  pub users : List User
  pub identities : List AuthenticationIdentity
  pub sessions : List BrowserSession
  pub grants : List VehicleAccessGrant
  pub settings : List AppSetting
  pub vehicles : List Vehicle
  pub photos : List VehiclePhoto
  pub devices : List Device
  pub tokens : List EnrollmentToken
  pub telemetry : List Telemetry
  pub states : List VehicleState
  pub profiles : List VehicleProfile
  pub triggers : List Trigger
  pub hooks : List Hook
  pub revisions : List HookRevision
  pub hook_states : List HookState
  pub executions : List HookExecution
  pub jobs : List Job
  pub dashboards : List Dashboard
  pub heartbeats : List WorkerHeartbeat
