-- ===== src/Snapshot.antt =====
-- `assert_snapshot_equal` of lib/helpers.py, and the specification list that it is used on.
pub mod Comparison
pub mod Taken
use sas_tests.Prelude.{
  ◌==◌, if◌then◌else◌, length, ℕ, suc, Bool, not, ◌&&◌, Option, none, some, List, [], ◌∷◌,
}
use sas_tests.Constants
use sas_tests.Json.{Dict}
use sas_tests.Json.Equality.{eq_fields, size}

-- `b != a` on two `dict`s
unfoldable pub differ : Dict → Dict → Bool
unfolding eq_fields
differ b a = not (size b == size a && eq_fields b a)

-- `for i, (b, a) in enumerate(zip(before, after))`: the first index where they differ.
unfoldable pub first_difference : ℕ → List Dict → List Dict → Option ℕ
unfolding differ
first_difference i [] after = none
first_difference i (b ∷ before) [] = none
first_difference i (b ∷ before) (a ∷ after) =
    let rest = first_difference (suc i) before after in if differ b a then some i else rest

-- The texts of the two errors: the lengths, or the index.
pub data Mismatch : Type 0 where
  lengths : ℕ → ℕ → Mismatch
  index : ℕ → Mismatch

-- `none` where the assertion holds.
unfoldable pub assert_snapshot_equal : List Dict → List Dict → Option Mismatch
unfolding first_difference
assert_snapshot_equal before after =
    if length before == length after
    then elim (first_difference 0 before after) [ none ↦ none | some i ↦ some (index i) ]
    else some (lengths (length before) (length after))
