-- ===== src/Pfop/Lists/Bounds.antt =====
-- The ids of a list are no larger than their width allows.
use sas_tests.Prelude.{All, Outcome, ok, raised, ℕ, ◌^◌, ◌<◌, List}
use sas_tests.Prelude.Int.{ℤ, pos_part, neg_part}
use sas_tests.Pfop.{decode_ascii, decode_ascii}

-- An absolute value of at most `m` digits.
abbrev pub Small : ℕ → ℤ → Type 0
Small m i = (pos_part i < 10 ^ m) × (neg_part i < 10 ^ m)

abbrev pub Fitting : ℕ → Outcome (List ℤ) → Type 0
Fitting width (raised e) = Unit
Fitting width (ok ids) = All (Small width) ids
