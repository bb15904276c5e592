-- ===== src/Factory/Random.antt =====
-- `ScrewSpecFactory.random`. The draws come in the order in which the source makes them.
use sas_tests.Prelude.{ℕ, zero, suc, ◌+◌, ◌/◌, List, [], ◌∷◌}
use Prim.Native.String.{◌++◌ as join}
use sas_tests.Constants
use sas_tests.Prelude.Text.{str_nat}
use sas_tests.Json.{Json, Dict, obj, int, milli, dict}
use sas_tests.Factory.Draws.{Draw, pure, ◌>>=◌, randint, hundredths, choice}
use sas_tests.Factory.Screw.{base_detail_params, base_step, screw_message, spec_name}

-- `min`, `max` and `target`, in this order, with the ranges of the draws.
pub record Window : Type 0 where
  pub low : ℕ
  pub high : ℕ
  pub target : ℕ

unfoldable pub window : ℕ → ℕ → ℕ → ℕ → Draw Window
unfolding randint
window low_from low_to more_from more_to = do
  low ← randint low_from low_to
  more ← randint more_from more_to
  target ← randint low (low + more)
  pure (record { low = low; high = low + more; target = target })

-- The torque window, in thousandths; each of the three is rounded to hundredths.
unfoldable pub torque_window : Draw Window
unfolding hundredths
torque_window = do
  low ← hundredths 10 100
  more ← hundredths 20 200
  target ← hundredths (low / 10) ((low + more) / 10)
  pure (record { low = low; high = low + more; target = target })

unfoldable pub random_detail : ℕ → Window → Window → Window → Window → Draw Dict
unfolding randint base_detail_params
random_detail step_count torque vel degree time = do
  screw_cnt ← randint 1 16
  tighten_ng_soft_power_off ← randint 0 1
  complete_soft_power_off ← randint 0 1
  counter_inc_mode ← randint 0 2
  repeat_gap_time ← randint 0 500
  torque_compensation ← randint 0 100
  end_torque_keep_time_ms ← randint 10 100
  gyrometer_start_angle ← randint 0 30
  gyrometer_stop_angle ← randint 0 90
  confirm_cnt ← randint 1 5
  vel_limit_torque_percent ← randint 50 100
  torque_filter_time_ms ← randint 5 50
  pure (
      base_detail_params (
        dict (
          ("screw_cnt", int screw_cnt)
          ∷ ("prog_cnt", int step_count)
          ∷ ("tighten_ng_soft_power_off", int tighten_ng_soft_power_off)
          ∷ ("complete_soft_power_off", int complete_soft_power_off)
          ∷ ("counter_inc_mode", int counter_inc_mode)
          ∷ ("repeat_gap_time", int repeat_gap_time)
          ∷ ("torque_compensation", milli torque_compensation)
          ∷ ("end_torque_keep_time_ms", int end_torque_keep_time_ms)
          ∷ ("gyrometer_start_angle", int gyrometer_start_angle)
          ∷ ("gyrometer_stop_angle", int gyrometer_stop_angle)
          ∷ ("confirm_cnt", int confirm_cnt)
          ∷ ("vel_limit_torque_percent", int vel_limit_torque_percent)
          ∷ ("torque_filter_time_ms", int torque_filter_time_ms)
          ∷ ("torque_target", milli torque.target)
          ∷ ("torque_max", milli torque.high)
          ∷ ("torque_min", milli torque.low)
          ∷ ("vel_target", int vel.target)
          ∷ ("vel_max", int vel.high)
          ∷ ("vel_min", int vel.low)
          ∷ ("degree_target", int degree.target)
          ∷ ("degree_max", int degree.high)
          ∷ ("degree_min", int degree.low)
          ∷ ("time_target", int time.target)
          ∷ ("time_max", int time.high)
          ∷ ("time_min", int time.low)
          ∷ [])))

unfoldable pub random_step : ℕ → Draw Json
unfolding randint hundredths choice base_step
random_step i = do
  ok_if_1 ← choice (0 ∷ 2 ∷ 4 ∷ [])
  ok_if_2 ← choice (0 ∷ 2 ∷ 4 ∷ 8 ∷ [])
  ok_if_3 ← choice (0 ∷ 4 ∷ 8 ∷ 16 ∷ [])
  ok_if_4 ← choice (0 ∷ 8 ∷ 16 ∷ [])
  ref_vel ← randint 50 500
  ref_torque ← hundredths 5 300
  ref_degree ← randint 0 720
  ref_time ← randint 0 5000
  from_vel ← randint 0 100
  to_vel ← randint 100 500
  ok_out ← randint 0 1
  ok_out_status ← randint 0 1
  ok_out_pulse_time ← randint 100 1000
  ng_out ← randint 0 1
  ng_out_status ← randint 0 1
  ng_out_pulse_time ← randint 100 1000
  start_in ← randint 0 1
  start_in_status ← randint 0 1
  run_dir_positive ← randint 0 1
  es ← randint 0 1
  pure (
      obj (
        base_step i (
          dict (
            ("ok_if_1", int ok_if_1)
            ∷ ("ok_if_2", int ok_if_2)
            ∷ ("ok_if_3", int ok_if_3)
            ∷ ("ok_if_4", int ok_if_4)
            ∷ ("ref_vel", int ref_vel)
            ∷ ("ref_torque", milli ref_torque)
            ∷ ("ref_degree", int ref_degree)
            ∷ ("ref_time", int ref_time)
            ∷ ("from_vel", int from_vel)
            ∷ ("to_vel", int to_vel)
            ∷ ("ok_out", int ok_out)
            ∷ ("ok_out_status", int ok_out_status)
            ∷ ("ok_out_pulse_time", int ok_out_pulse_time)
            ∷ ("ng_out", int ng_out)
            ∷ ("ng_out_status", int ng_out_status)
            ∷ ("ng_out_pulse_time", int ng_out_pulse_time)
            ∷ ("start_in", int start_in)
            ∷ ("start_in_status", int start_in_status)
            ∷ ("run_dir_positive", int run_dir_positive)
            ∷ ("es", int es)
            ∷ []))))

-- `[... for i in range(step_count)]`
unfoldable pub random_steps : ℕ → ℕ → Draw (List Json)
unfolding random_step
random_steps zero i = pure []
random_steps (suc n) i = do
  step ← random_step i
  steps ← random_steps n (suc i)
  pure (step ∷ steps)

unfoldable pub random : ℕ → Draw Dict
unfolding randint screw_message
random spec_id = do
  step_count ← randint 1 Constants.max_steps_per_spec
  torque ← torque_window
  vel ← window 50 200 100 500
  degree ← window 30 200 100 500
  time ← window 500 2000 500 3000
  suffix ← randint 1000 9999
  detail ← random_detail step_count torque vel degree time
  steps ← random_steps step_count 0
  pure (
      screw_message spec_id (join (spec_name "RandSpec-" spec_id) (join "-" (str_nat suffix)))
        detail steps)
