-- ===== src/Snapshot/Comparison.antt =====
-- What `assert_snapshot_equal` accepts and what it reports.
use sas_tests.Prelude.{
  ◌==◌, ==_iff, Bool-cases, length, ℕ, zero, suc, ◌+◌, ◌≡◌, refl, ◌≢◌, inl, inr, true, false,
  Option, none, some, List, [], ◌∷◌, arith,
}
use mathlib.Core.Path.{subst}
use sas_tests.Json.{Dict}
use sas_tests.Snapshot.{differ, first_difference, Mismatch, lengths, index, assert_snapshot_equal}

-- The items agree one by one, and there are as many.
abbrev pub Agree : List Dict → List Dict → Type 0
Agree [] [] = Unit {0}
Agree (b ∷ before) (a ∷ after) = (differ b a ≡ false) × Agree before after
Agree _ _ = ⊥

-- They agree on the first `i` items and differ at the next.
abbrev pub DifferAt : ℕ → List Dict → List Dict → Type 0
DifferAt i [] after = ⊥
DifferAt i (b ∷ before) [] = ⊥
DifferAt zero (b ∷ before) (a ∷ after) = differ b a ≡ true
DifferAt (suc i) (b ∷ before) (a ∷ after) = (differ b a ≡ false) × DifferAt i before after

-- What the assertion's result says of the two snapshots.
abbrev pub Describes : Option Mismatch → List Dict → List Dict → Type 0
Describes none before after = Agree before after
Describes (some (lengths m n)) before after = (m ≡ length before) × (n ≡ length after) × (m ≢ n)
Describes (some (index i)) before after = (length before ≡ length after) × DifferAt i before after

abbrev Found : ℕ → Option ℕ → List Dict → List Dict → Type 0
Found k none before after = Agree before after
Found k (some i) before after = (j : ℕ) × (i ≡ k + j) × DifferAt j before after

first_difference_lem :
    (k : ℕ) (before after : List Dict)
    → length before ≡ length after
    → Found k (first_difference k before after) before after
unfolding first_difference
first_difference_lem k [] [] h = tt
first_difference_lem k [] (a ∷ after) h = absurd (omega arith)
first_difference_lem k (b ∷ before) [] h = absurd (omega arith)
first_difference_lem k (b ∷ before) (a ∷ after) h = elim (Bool-cases (differ b a)) [
  | inl yes' ↦ rw yes' (0, omega arith, yes')
  | inr no' ↦ rw no' (
      later (first_difference (suc k) before after) no'
        (first_difference_lem (suc k) before after (omega arith)))
]
  where
    later :
        (o : Option ℕ)
        → differ b a ≡ false
        → Found (suc k) o before after
        → Found k o (b ∷ before) (a ∷ after)
    later none e f = (e, f)
    later (some i) e f = (suc f.0, omega (arith, f.1), (e, f.2))

-- `assert_snapshot_equal` passes exactly on snapshots of one length whose items are equal one by one;
-- it reports the two lengths where they differ, and else the first index at which the items differ.
pub assert_snapshot_equal_lem :
    (before after : List Dict) → Describes (assert_snapshot_equal before after) before after
unfolding assert_snapshot_equal
assert_snapshot_equal_lem before after = elim (Bool-cases (length before == length after)) [
  | inl same ↦ rw same (
      by_index (first_difference 0 before after) ((==_iff _ _).0 same)
        (first_difference_lem 0 before after ((==_iff _ _).0 same)))
  | inr other ↦ rw other (refl, refl, ground arith)
]
  where
    by_index :
        (o : Option ℕ)
        → length before ≡ length after
        → Found 0 o before after
        → Describes (elim o [ none ↦ none | some i ↦ some (index i) ]) before after
    by_index none e f = f
    by_index (some i) e f = (e, subst (λ j. DifferAt j before after) (omega (arith, f.1)) f.2)
