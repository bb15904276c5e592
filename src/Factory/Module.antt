-- ===== src/Factory/Module.antt =====
-- `ModuleFactory`.
use sas_tests.Prelude.{
  length, take, Outcome, index_error, ok, raised, ℕ, zero, suc, ◌+◌, ◌-◌, ◌*◌, String, List, [],
  ◌∷◌,
}
use Prim.Native.String.{◌++◌ as join}
use sas_tests.Constants
use sas_tests.Prelude.Int.{sub_ℕ}
use sas_tests.Prelude.Text.{str_nat}
use sas_tests.Json.{Json, Dict, null, num, text, arr, obj, int, milli, dict, from_list, update}
use sas_tests.Factory.Draws.{Draw, pure, ◌>>=◌, randint, choice}
use sas_tests.Factory.Screw.{for_range, clamp_count, spec_name}

-- `_base_point`
unfoldable pub base_point : ℕ → ℕ → Dict → Dict
unfolding update
base_point point_id screw_spec overrides =
    update
      (dict (
        ("point_id", int point_id)
        ∷ ("screw_spec", int screw_spec)
        ∷ ("x", int (100 + point_id * 50))
        ∷ ("y", int (200 + point_id * 50))
        ∷ ("expected_angle_a", int 0)
        ∷ ("expected_angle_b", int 0)
        ∷ ("angle_tolerance", int 5)
        ∷ []))
      overrides

-- The message around the points.
unfoldable pub module_message : ℕ → String → List Json → Json → Dict
module_message module_id name points arm = dict (
    ("type", text Constants.module_config)
    ∷ ("module_id", int module_id)
    ∷ ("product_name", text name)
    ∷ ("position_points", arr (from_list points))
    ∷ ("point_count", int (length points))
    ∷ ("background_image", text "")
    ∷ ("image_markers", text "[]")
    ∷ ("torque_arm_config", arm)
    ∷ ("modify_user", text "test")
    ∷ [])

-- `[cls._base_point(i, spec) for i, spec in enumerate(specs)]`
unfoldable pub enumerate_points : ℕ → List ℕ → List Json
unfolding base_point
enumerate_points i [] = []
enumerate_points i (spec ∷ specs) =
    obj (base_point i spec (dict [])) ∷ enumerate_points (suc i) specs

unfoldable pub manual : ℕ → List ℕ → Dict
unfolding module_message
manual module_id screw_specs =
    module_message module_id (spec_name "ManualModule-" module_id)
      (enumerate_points 0 (take Constants.max_point_count screw_specs)) null

unfoldable pub torque_arm : ℕ → ℕ → Dict
unfolding module_message clamp_count
torque_arm module_id points =
    module_message module_id (spec_name "TorqueArmModule-" module_id)
      (for_range (λ i. obj (base_point i 0 (dict [])))
        (clamp_count points Constants.max_point_count) 0)
      (obj (
        dict (
          ("arm_length", int 250)
          ∷ ("arm_offset", int 0)
          ∷ ("rotation_center_x", int 400)
          ∷ ("rotation_center_y", int 300)
          ∷ [])))

-- The points of `random`; `random.choice(specs_pool)` picks below `max_specs`.
unfoldable pub random_points : ℕ → ℕ → ℕ → Draw (List Json)
unfolding randint base_point
random_points max_specs zero i = pure []
random_points max_specs (suc n) i = do
  screw_spec ← randint 0 (max_specs - 1)
  x ← randint 0 800
  y ← randint 0 600
  expected_angle_a ← randint 0 360
  expected_angle_b ← randint 0 360
  angle_tolerance ← randint 1 15
  points ← random_points max_specs n (suc i)
  pure (
      obj (
        base_point i screw_spec (
          dict (
            ("x", int x)
            ∷ ("y", int y)
            ∷ ("expected_angle_a", int expected_angle_a)
            ∷ ("expected_angle_b", int expected_angle_b)
            ∷ ("angle_tolerance", int angle_tolerance)
            ∷ [])))
      ∷ points)

-- The arm of `random`, rounded to tenths.
unfoldable pub random_arm : Draw Json
unfolding randint
random_arm = do
  arm_length ← randint 1000 5000
  arm_offset ← randint 0 1000
  x ← randint 100 700
  y ← randint 100 500
  pure (
      obj (
        dict (
          ("arm_length", milli (arm_length * 100))
          ∷ ("arm_offset", num (sub_ℕ (arm_offset * 100) 50000))
          ∷ ("rotation_center_x", int x)
          ∷ ("rotation_center_y", int y)
          ∷ [])))

unfoldable pub some_arm : ℕ → Draw Json
unfolding random_arm
some_arm zero = pure null
some_arm (suc n) = random_arm

-- `random.choice` of an empty pool raises.
unfoldable pub random : ℕ → ℕ → Draw (Outcome Dict)
unfolding randint choice random_points some_arm module_message
random module_id zero = pure (raised index_error)
random module_id (suc more) = do
  point_count ← randint 1 Constants.max_point_count
  points ← random_points (suc more) point_count 0
  has_torque_arm ← choice (1 ∷ 0 ∷ [])
  arm ← some_arm has_torque_arm
  suffix ← randint 1000 9999
  pure (
      ok (
        module_message module_id
          (join (spec_name "RandModule-" module_id) (join "-" (str_nat suffix))) points arm))
