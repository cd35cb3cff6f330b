-- ===== src/Worker/Secrets.antt =====
-- `_contains_secret` of backend/app/worker.py.
use vehinode.Prelude.{String, Bool, false, not, ◌&&◌, ◌||◌, List, [], ◌∷◌, str_eq, is_some}
use vehinode.Json.{
  Json, null, bool, int, float, str, arr, obj, Items, nil, cons, Fields, end, field,
}
use text.Mathlib.Text.{find?}

-- `needle in text`
unfoldable pub is_in : String → String → Bool
is_in needle text = is_some (find? text needle)

-- `any(secret and secret in value for secret in secrets)`
unfoldable pub any_in : List String → String → Bool
any_in [] text = false
any_in (secret ∷ secrets) text = not (str_eq secret "") && is_in secret text || any_in secrets text

unfoldable mutual
  pub contains_secret : Json → List String → Bool
  contains_secret null secrets = false
  contains_secret (bool b) secrets = false
  contains_secret (int n) secrets = false
  contains_secret (float d) secrets = false
  contains_secret (str s) secrets = any_in secrets s
  contains_secret (arr xs) secrets = contains_secret_items xs secrets
  contains_secret (obj fs) secrets = contains_secret_fields fs secrets

  pub contains_secret_items : Items → List String → Bool
  contains_secret_items nil secrets = false
  contains_secret_items (cons x xs) secrets =
      contains_secret x secrets || contains_secret_items xs secrets

  -- The key of a field is searched too.
  pub contains_secret_fields : Fields → List String → Bool
  contains_secret_fields end secrets = false
  contains_secret_fields (field k v fs) secrets =
      any_in secrets k || contains_secret v secrets || contains_secret_fields fs secrets
