-- ===== src/Json.antt =====
-- JSON values as the services see them: the columns of type `JSONValue` in
-- backend/app/common/types.py, Python's truth test on them, and the operations of `dict`.
pub mod Laws
use vehinode.Prelude.{
  ℕ, ◌^◌, String, ◌≡◌, Bool, true, false, not, ◌||◌, Option, none, some, ◌==◌, str_eq,
  if◌then◌else◌,
}
use vehinode.Prelude.Int.{ℤ, pos, negsuc}

-- An IEEE double by its 64-bit pattern: the services copy such values and do not compute with them.
abbrev pub Double : Type 0
Double = ℕ

mutual
  pub data Json : Type 0 where
    null : Json
    bool : Bool → Json
    int : ℤ → Json
    float : Double → Json
    str : String → Json
    arr : Items → Json
    obj : Fields → Json

  pub data Items : Type 0 where
    nil : Items
    cons : Json → Items → Items

  pub data Fields : Type 0 where
    end : Fields
    field : String → Json → Fields → Fields

-- `bool(value)`; the two zeros of a double are its patterns 0 and 2 ^ 63.
unfoldable pub truthy : Json → Bool
truthy null = false
truthy (bool b) = b
truthy (int (pos n)) = not (n == 0)
truthy (int (negsuc n)) = true
truthy (float d) = not (d == 0 || d == 2 ^ 63)
truthy (str s) = not (str_eq s "")
truthy (arr nil) = false
truthy (arr (cons x xs)) = true
truthy (obj end) = false
truthy (obj (field k v fs)) = true

-- `values.get(key)`
unfoldable pub get : String → Fields → Option Json
get k end = none
get k (field j v fs) = if str_eq j k then some v else get k fs

-- `values[key] = value`
unfoldable pub set : String → Json → Fields → Fields
set k v end = field k v end
set k v (field j w fs) = if str_eq j k then field j v fs else field j w (set k v fs)

-- `values.pop(key, None)`
unfoldable pub pop : String → Fields → Fields
pop k end = end
pop k (field j w fs) = let rest = pop k fs in if str_eq j k then rest else field j w rest

-- `{**old, **new}`
unfoldable pub merge : Fields → Fields → Fields
merge old end = old
merge old (field k v fs) = merge (set k v old) fs

-- The value is this text.
abbrev pub is_text : String → Option Json → Bool
is_text id (some (str s)) = str_eq s id
is_text id _ = false
