-- ===== src/Models/Accounts.antt =====
-- backend/app/users/models.py, backend/app/auth/models.py and backend/app/access/models.py.
use vehinode.Prelude.{String, Bool, Option, List}
use vehinode.Json.{Fields}
use vehinode.Models.Types.{Key, Instant}

pub record User : Type 0 where
  pub id : Key
  pub email : String
  pub display_name : String
  pub is_active : Bool
  pub can_create_profiles : Bool
  pub permissions : Fields
  pub created_at : Instant

pub record AuthenticationIdentity : Type 0 where
  pub id : Key
  pub user_id : Key
  pub provider : String
  pub subject : String
  pub password_hash : Option String
  pub created_at : Instant
  pub last_used_at : Option Instant

pub record BrowserSession : Type 0 where
  pub id : Key
  pub token_hash : String
  pub csrf_hash : String
  pub user_id : Key
  pub created_at : Instant
  pub last_seen_at : Instant
  pub expires_at : Instant
  pub revoked_at : Option Instant
  pub ip_address : Option String
  pub user_agent : Option String

-- `VehicleAccessLevel`; the table's check constraint admits no other value.
pub data VehicleAccessLevel : Type 0 where
  view operate : VehicleAccessLevel

pub record VehicleAccessGrant : Type 0 where
  pub vehicle_id : Key
  pub user_id : Key
  pub level : VehicleAccessLevel

-- backend/app/access/schemas.py
pub record DefaultVehicleGrant : Type 0 where
  pub vehicle_id : Key
  pub level : VehicleAccessLevel

pub record DefaultAccess : Type 0 where
  pub profiles_create : Bool
  pub grants : List DefaultVehicleGrant

-- The only setting that the code stores is the default access, so its value has that type.
pub record AppSetting : Type 0 where
  pub key : String
  pub value : DefaultAccess
