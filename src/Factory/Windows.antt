-- ===== src/Factory/Windows.antt =====
-- The safety windows of the screw payloads: minimum, target and maximum are in order, and the
-- reference values of the steps lie in them.
use sas_tests.Prelude.{
  ℕ, ◌+◌, ◌-◌, ◌*◌, ◌/◌, ◌%◌, ◌≤◌, String, ◌≡◌, refl, Bool, true, false, ◌&&◌, Option, none, some,
  arith,
}
use native.Mathlib.Nat.{mod-lt}
use sas_tests.Prelude.Int.{ℤ, leb_ℤ}
use sas_tests.Json.{Json, Items, Dict, null, num, arr, obj, nil, cons, get}
use sas_tests.Factory.Screw.{default, complex_full}
use sas_tests.Factory.Random.{Window, window, torque_window, random_detail, random}

-- The number at a key.
abbrev pub number : Option Json → Option ℤ
number none = none
number (some (num n)) = some n
number (some null) = none
number (some _) = none

-- The first of two numbers is there and not above the second.
abbrev pub not_above : Option ℤ → Option ℤ → Bool
not_above none b = false
not_above (some a) none = false
not_above (some a) (some b) = leb_ℤ a b

abbrev pub at : String → Dict → Option ℤ
at k d = number (get k d)

abbrev pub in_order : String → String → String → Dict → Bool
in_order low target high d =
    not_above (at low d) (at target d) && not_above (at target d) (at high d)

-- All four windows of the detail parameters are in order.
abbrev pub windows_in_order : Dict → Bool
windows_in_order d =
    in_order "torque_min" "torque_target" "torque_max" d
    && (in_order "vel_min" "vel_target" "vel_max" d
        && (in_order "degree_min" "degree_target" "degree_max" d
            && in_order "time_min" "time_target" "time_max" d))

abbrev pub between : Option ℤ → Option ℤ → Option ℤ → Bool
between low v high = not_above low v && not_above v high

-- The four reference values of a step lie in the windows.
abbrev pub step_in_windows : Dict → Dict → Bool
step_in_windows d s =
    between (at "torque_min" d) (at "ref_torque" s) (at "torque_max" d)
    && (between (at "vel_min" d) (at "ref_vel" s) (at "vel_max" d)
        && (between (at "degree_min" d) (at "ref_degree" s) (at "degree_max" d)
            && between (at "time_min" d) (at "ref_time" s) (at "time_max" d)))

abbrev pub steps_in_windows : Dict → Items → Bool
steps_in_windows d nil = true
steps_in_windows d (cons (obj s) xs) = step_in_windows d s && steps_in_windows d xs
steps_in_windows d (cons _ xs) = false

-- The parts of a payload.
abbrev pub as_dict : Option Json → Dict
as_dict (some (obj d)) = d
as_dict none = Dict.end
as_dict (some _) = Dict.end

abbrev pub as_items : Option Json → Items
as_items (some (arr xs)) = xs
as_items none = nil
as_items (some _) = nil

abbrev pub detail : Dict → Dict
detail p = as_dict (get "detail_params" p)

abbrev pub steps : Dict → Items
steps p = as_items (get "step_params" p)

-- The payloads of `default`, and of `complex_full` for every id, have their windows in order and all
-- their steps in the windows.
fixed_payloads_fit :
    (spec_id : ℕ)
    → (windows_in_order (detail (default spec_id)) ≡ true)
      × (steps_in_windows (detail (default spec_id)) (steps (default spec_id)) ≡ true)
      × (windows_in_order (detail (complex_full spec_id)) ≡ true)
      × (steps_in_windows (detail (complex_full spec_id)) (steps (complex_full spec_id)) ≡ true)
unfolding default complex_full get
fixed_payloads_fit spec_id = (refl, refl, refl, refl)

-- A draw stays in its range.
draw_in_range : (lo hi x : ℕ) → lo ≤ hi → lo + x % (hi - lo + 1) ≤ hi
draw_in_range lo hi x h = omega (arith, mod-lt x {m = hi - lo + 1} (omega arith))

window_in_order :
    (a b c d : ℕ) (source : ℕ → ℕ) (n : ℕ)
    → let w = (window a b c d source n).0 in (w.low ≤ w.target) × (w.target ≤ w.high)
unfolding window
window_in_order a b c d source n =
    let low = a + source n % (b - a + 1) in
    let high = low + (c + source (n + 1) % (d - c + 1)) in
    (omega arith, draw_in_range low high (source (n + 1 + 1)) (omega arith))

torque_window_in_order :
    (source : ℕ → ℕ) (n : ℕ)
    → let w = (torque_window source n).0 in (w.low ≤ w.target) × (w.target ≤ w.high)
unfolding torque_window
torque_window_in_order source n =
    let low = (10 + source n % (100 - 10 + 1)) * 10 in
    let high = low + (20 + source (n + 1) % (200 - 20 + 1)) * 10 in
    let drawn = draw_in_range (low / 10) (high / 10) (source (n + 1 + 1)) (omega arith) in
    (omega arith, omega (arith, drawn))

abbrev Ordered : Window → Type 0
Ordered w = (w.low ≤ w.target) × (w.target ≤ w.high)

random_detail_in_order :
    (step_count : ℕ) (torque vel degree time : Window) (source : ℕ → ℕ) (n : ℕ)
    → Ordered torque
    → Ordered vel
    → Ordered degree
    → Ordered time
    → windows_in_order (random_detail step_count torque vel degree time source n).0 ≡ true
unfolding random_detail get
random_detail_in_order step_count torque vel degree time source n ht hv hd hm = ground arith

-- Whatever the draws, a payload of `random` has its four windows in order: minimum, target, maximum.
pub random_in_order :
    (spec_id : ℕ) (source : ℕ → ℕ) (n : ℕ)
    → windows_in_order (detail (random spec_id source n).0) ≡ true
unfolding random get
random_in_order spec_id source n =
    random_detail_in_order _ _ _ _ _ source _ (torque_window_in_order source _)
      (window_in_order 50 200 100 500 source _) (window_in_order 30 200 100 500 source _)
      (window_in_order 500 2000 500 3000 source _)
