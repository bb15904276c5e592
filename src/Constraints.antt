-- ===== src/Constraints.antt =====
-- machine_type/test_machine_type_constraint_enforcement.py: the choice among the constraints of the
-- machine types. A constraint comes with the id of its machine type, as the backend sends it.
pub mod Pair
pub mod Search
pub mod Preferred
pub mod Widened
use sas_tests.Prelude.{if◌then◌else◌, ℕ, String, Option, none, some, List, [], ◌∷◌}
use sas_tests.Json.{Json, Dict, null, bool, num, text, arr, obj, get}
use sas_tests.Prelude.Int.{ℤ, pos, ltb_ℤ, leb_ℤ}
use sas_tests.Params.{torque_unit_code}

abbrev pub Match : Type 0
Match = Json × Dict

-- `_as_float(value)`, in thousandths; `read` stands for `float` on a text.
unfoldable pub as_float : (String → Option ℤ) → Option Json → ℤ
as_float read none = pos 0
as_float read (some null) = pos 0
as_float read (some (bool b)) = if b then pos 1000 else pos 0
as_float read (some (num n)) = n
as_float read (some (text s)) = elim (read s) [ none ↦ pos 0 | some n ↦ n ]
as_float read (some (arr xs)) = pos 0
as_float read (some (obj d)) = pos 0

-- `min_v` and `max_v`
abbrev pub min_of : (String → Option ℤ) → Dict → ℤ
min_of read c = as_float read (get "minValue" c)

abbrev pub max_of : (String → Option ℤ) → Dict → ℤ
max_of read c = as_float read (get "maxValue" c)

-- `_pick_constraint_with_valid_range`
unfoldable pub pick_valid : (String → Option ℤ) → List Match → Option Match
unfolding as_float get
pick_valid read [] = none
pick_valid read ((i, c) ∷ ms) =
    let rest = pick_valid read ms in
    if leb_ℤ (min_of read c) (max_of read c) then some (i, c) else rest

-- An entry of `normalized`.
pub record Normal : Type 0 where
  pub machine_type : Json
  pub constraint : Dict
  pub max_v : ℤ

unfoldable pub normalized : (String → Option ℤ) → List Match → List Normal
unfolding as_float get
normalized read [] = []
normalized read ((i, c) ∷ ms) =
    let rest = normalized read ms in
    if leb_ℤ (min_of read c) (max_of read c)
    then record { machine_type = i; constraint = c; max_v = max_of read c } ∷ rest
    else rest

-- `normalized.sort(key=lambda x: x[2])`, which keeps the order of equal ones.
unfoldable pub insert : Normal → List Normal → List Normal
insert x [] = x ∷ []
insert x (y ∷ ys) = if leb_ℤ x.max_v y.max_v then x ∷ y ∷ ys else y ∷ insert x ys

unfoldable pub sort : List Normal → List Normal
unfolding insert
sort [] = []
sort (x ∷ xs) = insert x (sort xs)

-- `normalized[-1]`, of a list that begins with the first.
unfoldable pub last_of : Normal → List Normal → Normal
last_of x [] = x
last_of x (y ∷ ys) = last_of y ys

-- From `strict = normalized[0]` on, with the test of the length before it.
unfoldable pub ends_of : List Normal → Option (Normal × Normal)
unfolding last_of
ends_of [] = none
ends_of (strict ∷ []) = none
ends_of (strict ∷ y ∷ ys) =
    let loose = last_of y ys in
    if leb_ℤ loose.max_v strict.max_v then none else some (strict, loose)

-- `_pick_two_machine_types_with_different_max`
unfoldable pub pick_two : (String → Option ℤ) → List Match → Option (Normal × Normal)
unfolding normalized sort ends_of
pick_two read ms = ends_of (sort (normalized read ms))

-- `_torque_unit_str_to_code(c.get("torqueUnit"))`: no text of another value is a key.
abbrev pub code_in : Option Json → Option ℕ
code_in (some (text unit)) = torque_unit_code unit
code_in none = none
code_in (some null) = none
code_in (some (bool b)) = none
code_in (some (num n)) = none
code_in (some (arr xs)) = none
code_in (some (obj d)) = none

-- `_pick_torque_constraint_with_mappable_unit`
unfoldable pub pick_torque : (String → Option ℤ) → List Match → Option (Match × ℕ)
unfolding as_float get torque_unit_code
pick_torque read [] = none
pick_torque read ((i, c) ∷ ms) =
    let rest = pick_torque read ms in
    if ltb_ℤ (max_of read c) (min_of read c)
    then rest
    else elim (code_in (get "torqueUnit" c)) [ none ↦ rest | some code ↦ some ((i, c), code) ]
