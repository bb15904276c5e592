-- ===== src/Factory/Screw.antt =====
-- `ScrewSpecFactory` without its random case.
use sas_tests.Prelude.{ltb, if◌then◌else◌, ℕ, zero, suc, ◌+◌, ◌*◌, ◌%◌, String, List, [], ◌∷◌}
use Prim.Native.String.{◌++◌ as join}
use sas_tests.Constants
use sas_tests.Prelude.Text.{str_nat}
use sas_tests.Json.{Json, Dict, text, arr, obj, int, milli, dict, from_list, update}

-- The default detail parameters of `_base_detail_params`.
abbrev pub detail_defaults : Dict
detail_defaults = dict (
    ("torque_unit", int 1)
    ∷ ("screw_cnt", int 8)
    ∷ ("prog_cnt", int 2)
    ∷ ("tighten_ng_soft_power_off", int 0)
    ∷ ("complete_soft_power_off", int 0)
    ∷ ("counter_inc_mode", int 1)
    ∷ ("repeat_gap_time", int 0)
    ∷ ("torque_compensation", milli 0)
    ∷ ("end_torque_keep_time_ms", int 25)
    ∷ ("gyrometer_start_angle", int 0)
    ∷ ("gyrometer_stop_angle", int 0)
    ∷ ("prog_start_valid_step", int 0)
    ∷ ("loosen_gap_time", int 0)
    ∷ ("repeat_angle_max", int 0)
    ∷ ("confirm_cnt", int 1)
    ∷ ("vel_limit_torque_percent", int 80)
    ∷ ("torque_filter_time_ms", int 10)
    ∷ ("vel_check_enable", int 1)
    ∷ ("torque_check_enable", int 1)
    ∷ ("time_check_enable", int 1)
    ∷ ("degree_check_enable", int 1)
    ∷ ("socket_specification", int 0)
    ∷ ("torque_target", milli 325)
    ∷ ("torque_max", milli 400)
    ∷ ("torque_min", milli 250)
    ∷ ("vel_target", int 180)
    ∷ ("vel_max", int 300)
    ∷ ("vel_min", int 100)
    ∷ ("degree_target", int 180)
    ∷ ("degree_max", int 360)
    ∷ ("degree_min", int 90)
    ∷ ("time_target", int 3000)
    ∷ ("time_max", int 5000)
    ∷ ("time_min", int 1000)
    ∷ [])

unfoldable pub base_detail_params : Dict → Dict
unfolding update
base_detail_params overrides = update detail_defaults overrides

-- The defaults of `_base_step`.
abbrev pub step_defaults : ℕ → Dict
step_defaults step_index = dict (
    ("screw_step", int (step_index + 1))
    ∷ ("ok_if_1", int 2)
    ∷ ("ok_if_2", int 4)
    ∷ ("ok_if_3", int 0)
    ∷ ("ok_if_4", int 0)
    ∷ ("ref_vel", int 180)
    ∷ ("ref_torque", milli 325)
    ∷ ("ref_degree", int 180)
    ∷ ("ref_time", int 3000)
    ∷ ("from_vel", int 0)
    ∷ ("to_vel", int 180)
    ∷ ("ok_out", int 0)
    ∷ ("ok_out_status", int 0)
    ∷ ("ok_out_pulse_time", int 500)
    ∷ ("ng_out", int 0)
    ∷ ("ng_out_status", int 0)
    ∷ ("ng_out_pulse_time", int 500)
    ∷ ("start_in", int 0)
    ∷ ("start_in_status", int 0)
    ∷ ("run_dir_positive", int 0)
    ∷ ("es", int 1)
    ∷ [])

unfoldable pub base_step : ℕ → Dict → Dict
unfolding update
base_step step_index overrides = update (step_defaults step_index) overrides

-- The message around the parameters.
unfoldable pub screw_message : ℕ → String → Dict → List Json → Dict
screw_message spec_id name detail steps = dict (
    ("type", text Constants.screw_param_config)
    ∷ ("mode", int 1)
    ∷ ("specification_id", int spec_id)
    ∷ ("specification_name", text name)
    ∷ ("machine_type_id", int 0)
    ∷ ("detail_params", obj detail)
    ∷ ("step_params", arr (from_list steps))
    ∷ [])

-- `[f(i) for i in range(start, start + n)]`
unfoldable pub for_range : (ℕ → Json) → ℕ → ℕ → List Json
for_range f zero start = []
for_range f (suc n) start = f start ∷ for_range f n (suc start)

-- `f"TestSpec-{spec_id}"`
abbrev pub spec_name : String → ℕ → String
spec_name prefix spec_id = join prefix (str_nat spec_id)

unfoldable pub default : ℕ → Dict
unfolding screw_message base_detail_params base_step
default spec_id =
    screw_message spec_id (spec_name "TestSpec-" spec_id)
      (base_detail_params (dict (("prog_cnt", int 1) ∷ []))) (obj (base_step 0 (dict [])) ∷ [])

-- `max(1, min(n, limit))`
unfoldable pub clamp_count : ℕ → ℕ → ℕ
clamp_count n limit = let m = if ltb limit n then limit else n in if ltb 1 m then m else 1

unfoldable pub with_steps : ℕ → ℕ → Dict
unfolding screw_message clamp_count
with_steps spec_id step_count =
    let n = clamp_count step_count Constants.max_steps_per_spec in
    screw_message spec_id (join (spec_name "TestSpec-" spec_id) (join "-" (join (str_nat n) "s")))
      (base_detail_params (dict (("prog_cnt", int n) ∷ [])))
      (for_range (λ i. obj (base_step i (dict []))) n 0)

-- The overrides of `complex_full`.
abbrev pub full_detail : Dict
full_detail = dict (
    ("screw_cnt", int 16)
    ∷ ("prog_cnt", int Constants.max_steps_per_spec)
    ∷ ("tighten_ng_soft_power_off", int 1)
    ∷ ("complete_soft_power_off", int 1)
    ∷ ("counter_inc_mode", int 2)
    ∷ ("repeat_gap_time", int 100)
    ∷ ("torque_compensation", milli 50)
    ∷ ("end_torque_keep_time_ms", int 50)
    ∷ ("gyrometer_start_angle", int 10)
    ∷ ("gyrometer_stop_angle", int 45)
    ∷ ("prog_start_valid_step", int 1)
    ∷ ("loosen_gap_time", int 200)
    ∷ ("repeat_angle_max", int 720)
    ∷ ("confirm_cnt", int 3)
    ∷ ("vel_limit_torque_percent", int 90)
    ∷ ("torque_filter_time_ms", int 20)
    ∷ ("socket_specification", int 5)
    ∷ ("torque_target", milli 2000)
    ∷ ("torque_max", milli 2500)
    ∷ ("torque_min", milli 1700)
    ∷ ("vel_target", int 800)
    ∷ ("vel_max", int 1000)
    ∷ ("vel_min", int 650)
    ∷ ("degree_target", int 720)
    ∷ ("degree_max", int 820)
    ∷ ("degree_min", int 640)
    ∷ ("time_target", int 2000)
    ∷ ("time_max", int 2500)
    ∷ ("time_min", int 1600)
    ∷ [])

abbrev pub full_step : ℕ → Dict
full_step i = dict (
    ("ok_if_1", int 2)
    ∷ ("ok_if_2", int 4)
    ∷ ("ok_if_3", int 8)
    ∷ ("ok_if_4", int 16)
    ∷ ("ref_vel", int (700 + i * 10))
    ∷ ("ref_torque", milli (1800 + i * 20))
    ∷ ("ref_degree", int (650 + i * 5))
    ∷ ("ref_time", int (1700 + i * 20))
    ∷ ("from_vel", int 50)
    ∷ ("to_vel", int (250 + i * 10))
    ∷ ("ok_out", int 1)
    ∷ ("ok_out_status", int 1)
    ∷ ("ng_out", int 1)
    ∷ ("ng_out_status", int 1)
    ∷ ("run_dir_positive", int (i % 2))
    ∷ ("es", int 1)
    ∷ [])

unfoldable pub complex_full : ℕ → Dict
unfolding screw_message base_detail_params base_step for_range
complex_full spec_id =
    screw_message spec_id (spec_name "FullSpec-" spec_id) (base_detail_params full_detail)
      (for_range (λ i. obj (base_step i (full_step i))) Constants.max_steps_per_spec 0)
