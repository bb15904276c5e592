-- ===== src/Examples/Choices.antt =====
-- The choice among constraints.
use sas_tests.Prelude.{
  ◌>>=◌, ok, ℕ, String, ◌≡◌, refl, true, Option, none, some, List, [], ◌∷◌, arith,
}
use sas_tests.Json.{text, arr, bool, get, truthy}
use sas_tests.Constraints.{as_float, min_of, max_of}
use sas_tests.Constraints.Preferred.{word, kept_at, kept_of, key_of}
use sas_tests.Constraints.Preferred.Best.{best, objects, kept_of_lem}
use sas_tests.Constraints.Widened.{widen}
use sas_tests.Constraints.Widened.Window.{widen_lem}
use sas_tests.Fixtures.{is_success}
use sas_tests.Json.{Dict, int, dict}
use sas_tests.Prelude.Int.{ℤ, ◌≤ℤ◌}
use sas_tests.Constraints.{Match, pick_two}
use sas_tests.Constraints.Pair.{Chosen, pick_two_lem}

abbrev range_to : ℕ → Dict
range_to n = dict (("minValue", int 1) ∷ ("maxValue", int n) ∷ [])

-- The last has no valid range.
abbrev matches : List Match
matches = (int 3, range_to 9) ∷ (int 4, range_to 5) ∷ (int 6, range_to 0) ∷ []

abbrev unread : String → Option ℤ
unread s = none

pick_two_lem_example : Chosen unread matches (pick_two unread matches)
pick_two_lem_example = pick_two_lem unread matches

-- A torque in two units, the preferred one last.
abbrev torque_in : String → Dict
torque_in unit = dict (("paramName", text "torque") ∷ ("torqueUnit", text unit) ∷ [])

abbrev torques : List Dict
torques = torque_in "N.m" ∷ torque_in "kgf.cm" ∷ []

abbrev torque_answer : Dict
torque_answer = dict (("success", bool true) ∷ ("constraints", arr (objects torques)) ∷ [])

kept_of_lem_example :
    (kept_of "kgf.cm" torque_answer >>= (λ m. ok (kept_at (word "torque") m)))
    ≡ ok (best "kgf.cm" (word "torque") torques)
unfolding is_success get truthy key_of
kept_of_lem_example =
    kept_of_lem "kgf.cm" (word "torque") torque_answer torques refl refl
      ((_, refl), ((_, refl), tt))

abbrev safety : Dict
safety = dict (("vel_min", int 5) ∷ ("vel_max", int 7) ∷ ("vel_target", int 6) ∷ [])

widen_lem_example :
    let d' = widen unread (some (range_to 9)) "vel_min" "vel_max" "vel_target" safety in
    let lo = as_float unread (get "vel_min" d') in
    let hi = as_float unread (get "vel_max" d') in
    let target = as_float unread (get "vel_target" d') in
    ((lo ≤ℤ min_of unread (range_to 9)) × (lo ≤ℤ as_float unread (get "vel_min" safety)))
    × (((max_of unread (range_to 9) ≤ℤ hi) × (as_float unread (get "vel_max" safety) ≤ℤ hi))
        × (((lo ≤ℤ target) × (target ≤ℤ hi)) × (get "torque_min" d' ≡ get "torque_min" safety)))
unfolding as_float get
widen_lem_example =
    widen_lem unread (range_to 9) "vel_min" "vel_max" "vel_target" "torque_min" safety refl refl
      refl refl refl refl refl (omega arith)
