-- ===== src/Devices/Tests.antt =====
-- The theorems on agents at the sample data.
use vehinode.Prelude.{◌≡◌, refl, false, not, String, Option, some, none, [], ◌∷◌, ◌==◌, ok, err}
use vehinode.Prelude.Table.{any, find, select, update_where}
use vehinode.Json.{Fields, end, get, truthy}
use vehinode.Models.{Key, Device, EnrollmentToken, Telemetry, operate, Db}
use vehinode.Access.{access_level, level_allows, is_admin}
use vehinode.Access.Policy.{MayUse}
use vehinode.Profiles.{profile_definition}
use vehinode.Devices.{
  EnrollRequest, EnrollResponse, DeviceSettings, enroll, device_config, usable_token,
  enrolled_device, enrollment_error, invalid_token, edit_device, update_device, authorized_device,
  get_device, remove_device, delete_device, reset_vehicle_telemetry,
}
use vehinode.Devices.Enrollment.{enroll_once}
use vehinode.Devices.Removal.{IsReferential, remove_device_effect}
use vehinode.Fixtures.{workshop, device, alice}

abbrev hash_token : String → String
hash_token s = s

abbrev built_ins : Key → Option Fields
built_ins k = none

abbrev token : EnrollmentToken
token = record {
  id = 50;
  token_hash = "venroll_0123456789abcdef";
  vehicle_id = 10;
  intended_name = "Agent";
  created_at = 0;
  expires_at = 1000;
  used_at = none;
  sampling_seconds = 5;
  upload_seconds = 10;
  parked_sampling_seconds = 300;
  parked_upload_seconds = 600;
}

abbrev offered : Db
offered = record workshop { tokens = token ∷ [] }

abbrev request : String → EnrollRequest
request host = record {
  token = "venroll_0123456789abcdef";
  agent_version = "1";
  hostname = host;
  hardware = end;
}

abbrev response : EnrollResponse
response = record {
  device_id = 21;
  vehicle_id = 10;
  credential = "vdev_secret";
  config = record {
    version = 1;
    sampling = record { default_seconds = 5; parked_seconds = 300 };
    upload = record { default_seconds = 10; parked_seconds = 600 };
    vehicle_profile = none;
    vehicle_profile_definition = none;
  };
}

abbrev after : Db
after = record offered {
  tokens = record token { used_at = some 900 } ∷ [];
  devices = device ∷ enrolled_device hash_token (request "car") token 10 21 "vdev_secret" 900 ∷ [];
}

enrolled :
    enroll hash_token built_ins offered (request "car") 21 "vdev_secret" 900 ≡ ok (response, after)
unfolding enroll usable_token find update_where device_config profile_definition enrolled_device
enrolled = refl

enroll_once_example :
    enroll hash_token built_ins after (request "thief") 22 "vdev_other" 950
    ≡ err (enrollment_error invalid_token)
enroll_once_example =
    enroll_once hash_token built_ins offered (request "car") (request "thief") 21 22 "vdev_secret"
      "vdev_other" 900 950 response after enrolled refl

abbrev settings : DeviceSettings
settings = record {
  name = "Kitchen";
  sampling_seconds = 5;
  upload_seconds = 60;
  parked_sampling_seconds = 300;
  parked_upload_seconds = 300;
}

abbrev edited : Db
edited = record workshop { devices = update_device device settings ∷ [] }

edit : edit_device workshop alice 20 settings ≡ ok (update_device device settings, edited)
unfolding edit_device authorized_device access_level level_allows is_admin get truthy find
    update_where
edit = refl

referential : IsReferential workshop
unfolding any
referential = record {
  states_refer = tt;
  triggers_refer = (refl, tt);
  agents_refer = (refl, tt);
  executions_refer = ((refl, refl), tt);
}

abbrev removed : Db
removed = delete_device workshop device

remove : remove_device workshop alice 20 ≡ ok removed
unfolding remove_device authorized_device access_level level_allows is_admin get truthy find
remove = refl

remove_device_effect_example :
    (d : Device) × (get_device workshop 20 ≡ some d)
    × MayUse workshop alice d.vehicle_id operate
    × (any (λ (d : Device). d.id == 20) removed.devices ≡ false)
    × (any (λ (t : Telemetry). t.device_id == 20) removed.telemetry ≡ false)
    × (removed.telemetry ≡ select (λ (t : Telemetry). not (t.device_id == 20)) workshop.telemetry)
    × IsReferential removed
remove_device_effect_example = remove_device_effect workshop alice 20 removed referential remove

abbrev reset : Db
unfolding reset_vehicle_telemetry
reset = (reset_vehicle_telemetry workshop 10).1

reset_done : reset_vehicle_telemetry workshop 10 ≡ (1, reset)
unfolding reset_vehicle_telemetry select reset
reset_done = refl
