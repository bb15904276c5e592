-- ===== src/Performance/Baseline.antt =====
-- What the performance tracker counts, and what its comparison reports.
use sas_tests.Prelude.{
  ltb, leb, ◌==◌, if◌then◌else◌, Bool-cases, Option-cases, length, keep, All, length-append,
  All-append, zero_division, ok, raised, ℕ, ◌+◌, ◌*◌, ◌≤◌, String, ◌≡◌, refl, ◌∙◌, inl, inr, Bool,
  true, false, ◌&&◌, Option, none, some, List, [], ◌∷◌, ◌++◌, arith,
}
use sas_tests.Performance.{
  PerfRecord, add_record, summary, baseline_of, Degradation, degradation, degradations, with_front,
}

-- The verdict of a record is the comparison of its times.
abbrev pub IsJudged : PerfRecord → Type 0
IsJudged r = r.passed ≡ leb r.elapsed r.threshold

add_record-IsJudged :
    (name : String) (elapsed threshold : ℕ) (rs : List PerfRecord)
    → All IsJudged rs
    → All IsJudged (add_record name elapsed threshold rs).0
unfolding add_record
add_record-IsJudged name elapsed threshold rs h = All-append IsJudged rs _ h (refl, tt)

in_time : PerfRecord → Bool
in_time r = leb r.elapsed r.threshold

keep-judged :
    (rs : List PerfRecord)
    → All IsJudged rs
    → length (keep (λ r. r.passed) rs) ≡ length (keep (λ r. leb r.elapsed r.threshold) rs)
keep-judged [] h = refl
keep-judged (r ∷ rs) h = ground (arith, keep-judged rs h.1)

keep-le : (rs : List PerfRecord) → length (keep (λ r. r.passed) rs) ≤ length rs
keep-le [] = omega arith
keep-le (r ∷ rs) = ground (arith, keep-le rs)

-- A tracker's records, built by `record` alone, in the order of the calls.
abbrev record_all : List (String × ℕ × ℕ) → List PerfRecord → List PerfRecord
record_all [] rs = rs
record_all ((name, elapsed, threshold) ∷ ms) rs =
    record_all ms (add_record name elapsed threshold rs).0

record_all-IsJudged :
    (ms : List (String × ℕ × ℕ)) (rs : List PerfRecord)
    → All IsJudged rs
    → All IsJudged (record_all ms rs)
record_all-IsJudged [] rs h = h
record_all-IsJudged ((name, elapsed, threshold) ∷ ms) rs h =
    record_all-IsJudged ms _ (add_record-IsJudged name elapsed threshold rs h)

length-record_all :
    (ms : List (String × ℕ × ℕ)) (rs : List PerfRecord)
    → length (record_all ms rs) ≡ length rs + length ms
length-record_all [] rs = omega arith
length-record_all ((name, elapsed, threshold) ∷ ms) rs =
    length-record_all ms (add_record name elapsed threshold rs).0
    ∙ unfold add_record in omega (arith, length-append {0} rs)

-- After any calls of `record` on a new tracker, `summary` counts every call; passed and failed add up
-- to the total; and passed is the number of records whose time is at most its threshold.
summary_lem :
    (ms : List (String × ℕ × ℕ))
    → let rs = record_all ms [] in
      let s = summary rs in
      (s.total ≡ length ms)
      × (s.passed + s.failed ≡ s.total)
      × (s.passed ≡ length (keep (λ r. leb r.elapsed r.threshold) rs))
unfolding summary
summary_lem ms =
    let rs = record_all ms [] in
    (
      omega (arith, length-record_all ms []),
      omega (arith, keep-le rs),
      keep-judged rs (record_all-IsJudged ms [] tt),
    )

-- A record is worse than the baseline's last one of its name by more than a half.
abbrev pub is_worse : List PerfRecord → PerfRecord → Bool
is_worse baseline r = elim (baseline_of r.name baseline) [
  | none ↦ false
  | some before ↦ ltb (3 * before) (2 * r.elapsed)
]

-- It is worse than a baseline of zero.
abbrev pub divides_by_zero : List PerfRecord → PerfRecord → Bool
divides_by_zero baseline r = elim (baseline_of r.name baseline) [
  | none ↦ false
  | some before ↦ before == 0 && ltb 0 r.elapsed
]

abbrev pub reported : List Degradation → List (String × ℕ)
reported [] = []
reported (d ∷ ds) = (d.name, d.after) ∷ reported ds

abbrev pub measured : List PerfRecord → List (String × ℕ)
measured [] = []
measured (r ∷ rs) = (r.name, r.elapsed) ∷ measured rs

degradation_lem :
    (baseline : List PerfRecord) (r : PerfRecord)
    → divides_by_zero baseline r ≡ false
    → (d : Option Degradation) × (degradation baseline r ≡ ok d)
      × ((ds : List Degradation)
          → reported (with_front d ds)
            ≡ (if is_worse baseline r then (r.name, r.elapsed) ∷ reported ds else reported ds))
unfolding degradation
degradation_lem baseline r h = elim (Option-cases (baseline_of r.name baseline)) [
  | inl e ↦ (none, ground arith, λ ds. ground arith)
  | inr (before, e) ↦ elim (Bool-cases (ltb (3 * before) (2 * r.elapsed))) [
    | inl worse ↦ (
      some (record { name = r.name; before = before; after = r.elapsed }),
      ground arith,
      λ ds. ground arith,
    )
    | inr fine ↦ (none, ground arith, λ ds. ground arith)
  ]
]

-- Where no record has a baseline of zero and a time above it, the comparison reports exactly the
-- records that take more than one and a half times their baseline, in order.
pub degradations_lem :
    (baseline rs : List PerfRecord)
    → All (λ r. divides_by_zero baseline r ≡ false) rs
    → (ds : List Degradation) × (degradations baseline rs ≡ ok ds)
      × (reported ds ≡ measured (keep (is_worse baseline) rs))
unfolding degradations
degradations_lem baseline [] h = ([], refl, refl)
degradations_lem baseline (r ∷ rs) h =
    let (d, one, shown) = degradation_lem baseline r h.0 in
    let (ds, rest, all) = degradations_lem baseline rs h.1 in
    (with_front d ds, ground (arith, one, rest), ground (arith, shown ds, all))

-- At the first record whose baseline is zero and whose time is above it, the comparison raises
-- ZeroDivisionError and reports nothing.
degradations_raise :
    (baseline before after : List PerfRecord) (r : PerfRecord)
    → All (λ q. divides_by_zero baseline q ≡ false) before
    → divides_by_zero baseline r ≡ true
    → degradations baseline (before ++ r ∷ after) ≡ raised zero_division
unfolding degradations
degradations_raise baseline [] after r h z = ground arith
degradations_raise baseline (q ∷ before) after r h z =
    ground (arith, degradations_raise baseline before after r h.1 z)
