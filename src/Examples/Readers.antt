-- ===== src/Examples/Readers.antt =====
-- The readers of answers, snapshots, records, dumps and curves.
use sas_tests.Prelude.{
  ltb, leb, ◌==◌, if◌then◌else◌, length, keep, assertion_error, zero_division, ok, raised, ℕ, ◌+◌,
  ◌-◌, String, ◌≡◌, refl, ◌⊎◌, Bool, true, false, some, List, [], ◌∷◌,
}
use sas_tests.Prelude.Int.{pos}
use sas_tests.Json.{Dict, text, int, dict, bool}
use sas_tests.Snapshot.{assert_snapshot_equal}
use sas_tests.Snapshot.Comparison.{Describes, assert_snapshot_equal_lem}
use sas_tests.Performance.{PerfRecord, baseline_of, degradations, Degradation}
use sas_tests.Performance.Baseline.{degradations_lem, reported, measured, is_worse}
use sas_tests.Mcu.{Layout, all_active_slots}
use sas_tests.Mcu.Slots.{byte_at, has_name, numbers, all_active_slots_lem}
use sas_tests.Curve.{Report, analyze, last_of}
use sas_tests.Curve.Runs.{total, Packet, sizes, ArePackets, analyze_lem}

abbrev flags : Dict
flags = dict (("3", bool true) ∷ ("type", text "map") ∷ ("3", text "yes") ∷ [])

abbrev item : ℕ → Dict
item n = dict (("id", int n) ∷ [])

assert_snapshot_equal_lem_example :
    Describes
      (assert_snapshot_equal (item 1 ∷ item 2 ∷ []) (item 1 ∷ item 3 ∷ []))
      (item 1 ∷ item 2 ∷ [])
      (item 1 ∷ item 3 ∷ [])
assert_snapshot_equal_lem_example =
    assert_snapshot_equal_lem (item 1 ∷ item 2 ∷ []) (item 1 ∷ item 3 ∷ [])

abbrev took : String → ℕ → PerfRecord
took n e = record { name = n; elapsed = e; threshold = 500; passed = leb e 500 }

degradations_lem_example :
    (ds : List Degradation) × (degradations
        (took "save" 100 ∷ [])
        (took "save" 151 ∷ took "read" 9 ∷ [])
      ≡ ok ds)
    × (reported ds
        ≡ measured (keep (is_worse (took "save" 100 ∷ [])) (took "save" 151 ∷ took "read" 9 ∷ [])))
unfolding baseline_of
degradations_lem_example =
    degradations_lem (took "save" 100 ∷ []) (took "save" 151 ∷ took "read" 9 ∷ [])
      (refl, (refl, tt))

-- The calls of `record`.
abbrev calls : List (String × ℕ × ℕ)
calls = ("save", 151, 500) ∷ ("read", 900, 500) ∷ []

-- A structure of four slots, each a byte, which is its name if it is not zero.
abbrev four_slots : Layout (List ℕ) ℕ ℕ ℕ
four_slots = record {
  size = 4;
  from_buffer_copy = λ raw. raw;
  screw_max = 4;
  screw_prog_max = 8;
  torque_unit_map = [];
  bytes_to_str = λ raw. if total raw == 0 then "" else "named";
  screw = λ raw s. byte_at raw s;
  screw_name = λ b. b ∷ [];
  prog_cnt = λ b. pos b;
  screw_cnt = λ b. pos b;
  torque_unit = λ b. pos b;
  torque_target = λ b. b;
  torque_min = λ b. b;
  torque_max = λ b. b;
  prog = λ b k. b;
  ref_torque = λ b. b;
  ref_vel = λ b. b;
  ref_degree = λ b. b;
  ok_if = λ b k. pos b;
}

all_active_slots_lem_example : all_active_slots four_slots (0 ∷ 8 ∷ []) 4 ≡ (
    if leb 4 4
    then ok (keep (has_name four_slots (0 ∷ 8 ∷ [])) (numbers 4 0))
    else raised assertion_error)
all_active_slots_lem_example = all_active_slots_lem four_slots (0 ∷ 8 ∷ []) 4

-- Times in microseconds.
abbrev whole : ℕ → ℕ
whole n = n

abbrev near : ℕ → Bool
near n = ltb n 3000

abbrev none_left : ℕ → Bool
none_left n = n == 0

analyze_lem_example :
    ((none_left (9000 - 0) ≡ true)
      × (analyze ◌-◌ whole near none_left (0 ∷ 9000 ∷ []) ≡ raised zero_division))
    ⊎ ((none_left (9000 - 0) ≡ false)
        × ((r : Report ℕ) × ((analyze ◌-◌ whole near none_left (0 ∷ 9000 ∷ []) ≡ ok (some r))
              × ((r.points ≡ length {A = ℕ} [] + 2)
                  × ((r.span ≡ 9000 - 0)
                      × ((ps : List (Packet ℕ)) × ((r.runs ≡ sizes ps)
                            × ArePackets ◌-◌ whole near none_left (0 ∷ 9000 ∷ []) ps r.gaps)))))))
unfolding last_of
analyze_lem_example = analyze_lem ◌-◌ whole near none_left 0 9000 []
