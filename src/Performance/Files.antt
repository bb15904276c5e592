-- ===== src/Performance/Files.antt =====
-- lib/performance.py: the baseline files.
use sas_tests.Prelude.{if◌then◌else◌, Outcome, String, Option, some, List, str_eq}
use sas_tests.Performance.{PerfRecord, Summary, Degradation, summary, compare_with_baseline}

-- The summary that a file holds, where there is one.
abbrev pub Files : Type 0
Files = String → Option Summary

-- `save_baseline`
unfoldable pub save_baseline : String → List PerfRecord → Files → Files
unfolding summary
save_baseline path rs files p = if str_eq path p then some (summary rs) else files p

unfoldable pub compare_with_file : String → List PerfRecord → Files → Outcome (List Degradation)
unfolding compare_with_baseline
compare_with_file path rs files = compare_with_baseline (files path) rs
