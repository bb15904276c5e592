-- ===== src/Params.antt =====
-- What the test modules read from the backend's answers: system parameters, truth values, torque
-- units and the compliance map (machine_type/test_machine_type_constraint_enforcement.py,
-- machine_type/test_spec_compliance_highlight_plan.py).
pub mod Reading
use sas_tests.Prelude.{
  leb, ◌==◌, if◌then◌else◌, Outcome, attribute_error, ok, raised, ℕ, ◌+◌, String, Bool, true, false,
  ◌&&◌, ◌||◌, Option, none, some, List, [], ◌∷◌, map, str_eq,
}
use sas_tests.Prelude.Int
use sas_tests.Prelude.Int.{ℤ}
use sas_tests.Prelude.Text.{codes}
use sas_tests.Json.{
  Json, Items, Dict, null, bool, num, text, arr, obj, nil, cons, end, field, get, get_or, truthy,
}
use sas_tests.Events.{is_text}
use sas_tests.Pfop.Decimal.{int_of, strip}

-- `item.get(k) == t`
abbrev pub field_is : String → String → Dict → Bool
field_is k t d = elim (get k d) [ none ↦ false | some v ↦ is_text t v ]

-- `item.get(a) or item.get(b)`
unfoldable pub get_either : String → String → Dict → Json
unfolding truthy get_or
get_either a b d = let v = get_or a null d in if truthy v then v else get_or b null d

-- The loop over a list of parameters; an item that is no `dict` has no `get`.
unfoldable pub find_param : String → Items → Outcome Json
unfolding get_either
find_param name nil = ok null
find_param name (cons (obj d) xs) =
    if field_is "param_name" name d || field_is "paramName" name d
    then ok (get_either "param_value" "paramValue" d)
    else find_param name xs
find_param name (cons _ xs) = raised attribute_error

-- `_extract_system_param_value`
unfoldable pub extract_system_param_value : Dict → String → Outcome Json
unfolding find_param get_or
extract_system_param_value resp name = elim (get_or "data" (obj resp) resp) [
  | arr xs ↦ find_param name xs
  | obj d ↦ ok (get_or name null d)
  | _ ↦ ok null
]

-- `_torque_unit_str_to_code`
unfoldable pub torque_unit_code : String → Option ℕ
torque_unit_code unit =
    if str_eq unit "mN.m"
    then some 0
    else if str_eq unit "kgf.cm"
    then some 1
    else if str_eq unit "lbf.in"
    then some 2
    else if str_eq unit "N.m"
    then some 3
    else none

-- `str.lower` on ASCII code points
abbrev pub lower : ℕ → ℕ
lower c = if leb 65 c && leb c 90 then c + 32 else c

abbrev pub same_codes : List ℕ → List ℕ → Bool
same_codes [] [] = true
same_codes (a ∷ s) (b ∷ t) = a == b && same_codes s t
same_codes _ _ = false

-- `_to_bool`
unfoldable pub to_bool : Json → Bool
unfolding truthy strip
to_bool (bool b) = b
to_bool (num n) = truthy (num n)
to_bool (text s) =
    let word = map lower (strip (codes s)) in
    same_codes word (codes "1")
    || (same_codes word (codes "true")
        || (same_codes word (codes "yes") || same_codes word (codes "y")))
to_bool null = false
to_bool (arr _) = false
to_bool (obj _) = false

-- `out[sid] = v`: a later key of the same number replaces the value.
unfoldable pub put_flag : ℤ → Bool → List (ℤ × Bool) → List (ℤ × Bool)
put_flag k v [] = (k, v) ∷ []
put_flag k v ((j, w) ∷ m) = if Int.eqb_ℤ j k then (j, v) ∷ m else (j, w) ∷ put_flag k v m

-- The inner loop over `candidate.items()`.
unfoldable pub numeric_flags : List (ℤ × Bool) → Dict → List (ℤ × Bool)
unfolding put_flag
numeric_flags out end = out
numeric_flags out (field k v d) =
    let skipped = numeric_flags out d in
    elim (int_of (codes k)) [
      | raised e ↦ skipped
      | ok sid ↦ numeric_flags (put_flag sid (to_bool v) out) d
    ]

-- `_candidate_maps`: the message, then its values that are `dict`s.
abbrev pub inner_dicts : Dict → List Dict
inner_dicts end = []
inner_dicts (field k (obj d) rest) = d ∷ inner_dicts rest
inner_dicts (field k _ rest) = inner_dicts rest

unfoldable pub first_map : List Dict → List (ℤ × Bool)
unfolding numeric_flags
first_map [] = []
first_map (d ∷ ds) =
    let rest = first_map ds in
    let out = numeric_flags [] d in elim out [ [] ↦ rest | e ∷ es ↦ e ∷ es ]

-- `_extract_compliance_map`
unfoldable pub extract_compliance_map : Dict → List (ℤ × Bool)
unfolding first_map
extract_compliance_map message = first_map (message ∷ inner_dicts message)
