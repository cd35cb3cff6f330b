-- ===== src/Models/Dashboards.antt =====
-- backend/app/dashboards/models.py, and the photos of backend/app/vehicles/models.py.
use vehinode.Prelude.{ℕ, String, Bool}
use vehinode.Json.{Fields}
use vehinode.Models.Types.{Key, Instant}

pub record Dashboard : Type 0 where
  pub id : Key
  pub owner_id : Key
  pub name : String
  pub is_default : Bool
  pub layout : Fields
  pub created_at : Instant

pub record VehiclePhoto : Type 0 where
  pub vehicle_id : Key
  pub media_type : String
  pub size_bytes : ℕ
  pub etag : String
  pub storage_key : String
