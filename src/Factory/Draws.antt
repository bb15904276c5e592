-- ===== src/Factory/Draws.antt =====
-- Python's `random`: the program's draws, read off an arbitrary stream of numbers. A draw that is
-- rounded to two decimals can be any hundredth of its range.
use sas_tests.Prelude.{length, ℕ, zero, suc, ◌+◌, ◌-◌, ◌*◌, ◌%◌, List, [], ◌∷◌}

-- A stream and the place of the next draw.
abbrev pub Draw : Type 0 → Type 0
Draw A = (ℕ → ℕ) → ℕ → A × ℕ

abbrev pub pure : {A : Type 0} → A → Draw A
pure a source n = (a, n)

infixl 5 ◌>>=◌
abbrev pub ◌>>=◌ : {A B : Type 0} → Draw A → (A → Draw B) → Draw B
◌>>=◌ m f source n = let (a, n') = m source n in f a source n'

-- `random.randint(lo, hi)`, both ends included
unfoldable pub randint : ℕ → ℕ → Draw ℕ
randint lo hi source n = (lo + source n % (hi - lo + 1), n + 1)

-- `round(random.uniform(lo, hi), 2)` with the ends in hundredths, in thousandths
unfoldable pub hundredths : ℕ → ℕ → Draw ℕ
hundredths lo hi source n = ((lo + source n % (hi - lo + 1)) * 10, n + 1)

abbrev at : List ℕ → ℕ → ℕ
at [] i = 0
at (x ∷ xs) zero = x
at (x ∷ xs) (suc i) = at xs i

-- `random.choice(xs)`
unfoldable pub choice : List ℕ → Draw ℕ
choice xs source n = (at xs (source n % length xs), n + 1)
