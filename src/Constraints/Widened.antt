-- ===== src/Constraints/Widened.antt =====
-- machine_type/test_machine_type_constraint_enforcement.py: `_widen`, the helper of
-- `_widen_safety_for_constraints` that makes room for a constraint in the safety window of a
-- specification. `read` stands for `float` on a text.
pub mod Window
use sas_tests.Prelude.{if◌then◌else◌, String, Option, none, some}
use sas_tests.Prelude.Int.{ℤ, ltb_ℤ, min_ℤ, max_ℤ}
use sas_tests.Json.{Dict, num, get, put}
use sas_tests.Json.Laws
use sas_tests.Constraints.{as_float, min_of, max_of}

-- The window before, and the new one.
abbrev pub new_min : (String → Option ℤ) → Dict → String → Dict → ℤ
new_min read c key_min d = min_ℤ (as_float read (get key_min d)) (min_of read c)

abbrev pub new_max : (String → Option ℤ) → Dict → String → Dict → ℤ
new_max read c key_max d = max_ℤ (as_float read (get key_max d)) (max_of read c)

-- The target, brought into the window.
unfoldable pub fit_target : (String → Option ℤ) → String → ℤ → ℤ → Dict → Dict
unfolding as_float get put
fit_target read key_target lo hi d =
    let cur_target = as_float read (get key_target d) in
    let d' = if ltb_ℤ cur_target lo then put key_target (num lo) d else d in
    if ltb_ℤ hi cur_target then put key_target (num hi) d' else d'

-- `_widen`, where `c` is `constraints.get(param_name)`.
unfoldable pub widen : (String → Option ℤ) → Option Dict → String → String → String → Dict → Dict
unfolding as_float get put fit_target
widen read none key_min key_max key_target d = d
widen read (some c) key_min key_max key_target d =
    let lo = new_min read c key_min d in
    let hi = new_max read c key_max d in
    fit_target read key_target lo hi (put key_max (num hi) (put key_min (num lo) d))
