-- ===== src/Performance.antt =====
-- lib/performance.py, and `assert_response_time` of lib/helpers.py. Times are whole numbers of some
-- small unit; a baseline file holds the records of a summary.
pub mod Baseline
pub mod Files
use sas_tests.Prelude.{
  ltb, leb, ◌==◌, if◌then◌else◌, length, keep, ◌>>=◌, Outcome, assertion_error, zero_division, ok,
  raised, ℕ, ◌-◌, ◌*◌, String, Bool, Option, none, some, List, [], ◌∷◌, ◌++◌, str_eq,
}

-- `PerfRecord`
pub record PerfRecord : Type 0 where
  pub name : String
  pub elapsed : ℕ
  pub threshold : ℕ
  pub passed : Bool

-- `PerformanceTracker.record`: the new list of records, and the result.
unfoldable pub add_record : String → ℕ → ℕ → List PerfRecord → List PerfRecord × Bool
add_record name elapsed threshold rs =
    let passed = leb elapsed threshold in
    (
      rs ++ record { name = name; elapsed = elapsed; threshold = threshold; passed = passed } ∷ [],
      passed,
    )

pub record Summary : Type 0 where
  pub total : ℕ
  pub passed : ℕ
  pub failed : ℕ
  pub records : List PerfRecord

unfoldable pub summary : List PerfRecord → Summary
summary rs =
    let total = length rs in
    let passed = length (keep (λ r. r.passed) rs) in
    record { total = total; passed = passed; failed = total - passed; records = rs }

-- `baseline_map[name]`: the last record of a name.
unfoldable pub baseline_of : String → List PerfRecord → Option ℕ
baseline_of n [] = none
baseline_of n (r ∷ rs) =
    let later = baseline_of n rs in
    elim later [ some e ↦ some e | none ↦ if str_eq r.name n then some r.elapsed else none ]

-- A line of the result, before it is formatted.
pub record Degradation : Type 0 where
  pub name : String
  pub before : ℕ
  pub after : ℕ

-- One round of the loop over `self._records`. The percentage divides by the baseline.
unfoldable pub degradation : List PerfRecord → PerfRecord → Outcome (Option Degradation)
unfolding baseline_of
degradation baseline r = elim (baseline_of r.name baseline) [
  | none ↦ ok none
  | some before ↦
      if ltb (3 * before) (2 * r.elapsed)
      then if before == 0
        then raised zero_division
        else ok (some (record { name = r.name; before = before; after = r.elapsed }))
      else ok none
]

abbrev pub with_front : Option Degradation → List Degradation → List Degradation
with_front none ds = ds
with_front (some d) ds = d ∷ ds

unfoldable pub degradations : List PerfRecord → List PerfRecord → Outcome (List Degradation)
unfolding degradation
degradations baseline [] = ok []
degradations baseline (r ∷ rs) = do
  d ← degradation baseline r
  ds ← degradations baseline rs
  ok (with_front d ds)

-- `compare_with_baseline`; there may be no file.
unfoldable pub compare_with_baseline : Option Summary → List PerfRecord → Outcome (List Degradation)
unfolding degradations
compare_with_baseline none rs = ok []
compare_with_baseline (some s) rs = degradations s.records rs

-- `assert_response_time`
unfoldable pub assert_response_time : ℕ → ℕ → Outcome (Unit {0})
assert_response_time elapsed threshold =
    if ltb threshold elapsed then raised assertion_error else ok tt
