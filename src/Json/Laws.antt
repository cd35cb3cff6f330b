-- ===== src/Json/Laws.antt =====
-- The laws of the dictionary operations of Json.antt.
use vehinode.Prelude.{
  String, ◌≡◌, refl, Option, none, some, arith, eq_iff, eq_refl, str_eq, if◌then◌else◌, is_some,
}
use vehinode.Json.{Json, Fields, end, field, get, set, pop, merge}

pub get-set :
    (k j : String) (v : Json) (fs : Fields)
    → get j (set k v fs) ≡ (if str_eq k j then some v else get j fs)
unfolding get set
get-set k j v end = refl
get-set k j v (field i w fs) = ground (arith, eq_iff k j, eq_iff i k, eq_iff i j, get-set k j v fs)

pub get-pop :
    (k j : String) (fs : Fields) → get j (pop k fs) ≡ (if str_eq k j then none else get j fs)
unfolding get pop
get-pop k j end = ground arith
get-pop k j (field i w fs) = ground (arith, eq_iff k j, eq_iff i k, eq_iff i j, get-pop k j fs)

-- The last value of a key among the fields, which is the one that survives a merge.
unfoldable pub get_last : String → Fields → Option Json
get_last k end = none
get_last k (field j v fs) =
    let rest = get_last k fs in if is_some rest then rest else if str_eq j k then some v else none

pub get-merge :
    (k : String) (old new : Fields)
    → get k (merge old new) ≡ (if is_some (get_last k new) then get_last k new else get k old)
unfolding merge get_last
get-merge k old end = refl
get-merge k old (field j v fs) = ground (arith, get-merge k (set j v old) fs, get-set j k v old)

pub get-set_self : (k : String) (v : Json) (fs : Fields) → get k (set k v fs) ≡ some v
get-set_self k v fs = simp (get-set, eq_refl)

pub get-pop_self : (k : String) (fs : Fields) → get k (pop k fs) ≡ none
get-pop_self k fs = simp (get-pop, eq_refl)
