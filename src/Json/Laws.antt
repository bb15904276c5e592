-- ===== src/Json/Laws.antt =====
-- What a look-up finds after each update of a `dict`.
use sas_tests.Prelude.{if◌then◌else◌, String, ◌≡◌, refl, none, some, arith, str_eq, eq_iff}
use sas_tests.Json.{Json, Dict, end, field, get, contains, put, set_default, update}

pub get-put :
    (k j : String) (v : Json) (d : Dict)
    → get j (put k v d) ≡ (if str_eq k j then some v else get j d)
unfolding get put
get-put k j v end = refl
get-put k j v (field i w d) = ground (arith, eq_iff k j, eq_iff i k, eq_iff i j, get-put k j v d)

pub get-set_default :
    (k j : String) (v : Json) (d : Dict)
    → get j (set_default k v d)
      ≡ (if contains k d then get j d else if str_eq k j then some v else get j d)
unfolding set_default
get-set_default k j v d = ground (arith, get-put k j v d)

-- The later argument wins, and the last of several fields of one key.
get-update-none : (k : String) (d e : Dict) → get k e ≡ none → get k (update d e) ≡ get k d
unfolding update get
get-update-none k d end h = refl
get-update-none k d (field j v e) h =
    ground (arith, get-update-none k (put j v d) e, get-put j k v d)
