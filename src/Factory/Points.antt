-- ===== src/Factory/Points.antt =====
-- The points of the module payloads.
use sas_tests.Prelude.{
  length, take, replicate, length-take, ℕ, zero, suc, ◌*◌, ◌≤◌, ◌≡◌, refl, ap, ◌∙◌, Option, none,
  some, List, [], ◌∷◌, arith,
}
use Prim.Native.Nat.{min}
use sas_tests.Prelude.Int.{ℤ, pos}
use sas_tests.Json.{Json, Dict, obj, dict, get, to_list}
use sas_tests.Factory.Screw.{for_range, clamp_count}
use sas_tests.Factory.Windows.{at, as_items}
use sas_tests.Factory.Steps.{to_list-from_list}
use sas_tests.Factory.Module.{base_point, enumerate_points, manual, torque_arm}

abbrev pub points : Dict → List Json
points p = to_list (as_items (get "position_points" p))

-- The id and the specification of each point.
abbrev ids_and_specs : List Json → List (Option ℤ × Option ℤ)
ids_and_specs [] = []
ids_and_specs (obj d ∷ xs) = (at "point_id" d, at "screw_spec" d) ∷ ids_and_specs xs
ids_and_specs (_ ∷ xs) = (none, none) ∷ ids_and_specs xs

-- The specifications, numbered from `i` on.
abbrev pub numbered : ℕ → List ℕ → List (Option ℤ × Option ℤ)
numbered i [] = []
numbered i (spec ∷ specs) =
    (some (pos (i * 1000)), some (pos (spec * 1000))) ∷ numbered (suc i) specs

enumerate_points_lem :
    (i : ℕ) (specs : List ℕ) → ids_and_specs (enumerate_points i specs) ≡ numbered i specs
unfolding enumerate_points get
enumerate_points_lem i [] = refl
enumerate_points_lem i (spec ∷ specs) =
    ap (λ l. (some (pos (i * 1000)), some (pos (spec * 1000))) ∷ l)
      (enumerate_points_lem (suc i) specs)

length-enumerate_points :
    (i : ℕ) (specs : List ℕ) → length (enumerate_points i specs) ≡ length specs
unfolding enumerate_points
length-enumerate_points i [] = refl
length-enumerate_points i (spec ∷ specs) = ap suc (length-enumerate_points (suc i) specs)

-- `manual` makes a point for each of the first sixteen specifications, in their order and numbered
-- from 0, and `point_count` is their number.
manual_lem :
    (module_id : ℕ) (specs : List ℕ)
    → let p = manual module_id specs in
      (ids_and_specs (points p) ≡ numbered 0 (take 16 specs))
      × (at "point_count" p ≡ some (pos (min (length specs) 16 * 1000)))
unfolding manual get
manual_lem module_id specs =
    let shown = to_list-from_list (enumerate_points 0 (take 16 specs)) in
    let counted : length (enumerate_points 0 (take 16 specs)) ≡ min (length specs) 16 =
      length-enumerate_points 0 (take 16 specs) ∙ omega (arith, length-take 16 specs) in
    (
      ap ids_and_specs shown ∙ enumerate_points_lem 0 (take 16 specs),
      ap (λ (n : ℕ). some (pos (n * 1000))) counted,
    )

plain_points_lem :
    (n i : ℕ)
    → ids_and_specs (for_range (λ j. obj (base_point j 0 (dict []))) n i)
      ≡ numbered i (replicate n 0)
unfolding for_range base_point get
plain_points_lem zero i = refl
plain_points_lem (suc n) i =
    ap (λ l. (some (pos (i * 1000)), some (pos 0)) ∷ l) (plain_points_lem n (suc i))

length-plain_points : (f : ℕ → Json) (n i : ℕ) → length (for_range f n i) ≡ n
unfolding for_range
length-plain_points f zero i = refl
length-plain_points f (suc n) i = ap suc (length-plain_points f n (suc i))

-- `torque_arm` brings the number of points into the range from one to sixteen, numbers that many
-- points from 0, all with specification 0, and tells their number.
torque_arm_lem :
    (module_id count : ℕ)
    → let p = torque_arm module_id count in
      let n = clamp_count count 16 in
      (1 ≤ n)
      × (n ≤ 16)
      × (ids_and_specs (points p) ≡ numbered 0 (replicate n 0))
      × (at "point_count" p ≡ some (pos (n * 1000)))
unfolding torque_arm get
torque_arm_lem module_id count =
    let n = clamp_count count 16 in
    let f : ℕ → Json = λ j. obj (base_point j 0 (dict [])) in
    (
      ground arith,
      ground arith,
      ap ids_and_specs (to_list-from_list (for_range f n 0)) ∙ plain_points_lem n 0,
      ap (λ (n : ℕ). some (pos (n * 1000))) (length-plain_points f n 0),
    )
