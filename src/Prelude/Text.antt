-- ===== src/Prelude/Text.antt =====
-- Text as code points, and the decimal print of a number.
use Prim.Native.Char.{code}
use Prim.Native.Nat.{ℕ, zero, suc, ◌/◌, ◌%◌}
use Prim.Native.String.{String, ◌++◌}
use mathlib.Core.List.{List}
use mathlib.Core.Bool.{true, false}
use sas_tests.Prelude.Tests.{ltb, ◌==◌, if◌then◌else◌}

-- The code points of a text: its bytes, if it is ASCII.
abbrev pub codes : String → List ℕ
codes String.[] = List.[]
codes (String.◌∷◌ c s) = List.◌∷◌ (code c) (codes s)

abbrev pub digit_text : ℕ → String
digit_text d =
    if d == 0
    then "0"
    else if d == 1
    then "1"
    else if d == 2
    then "2"
    else if d == 3
    then "3"
    else if d == 4
    then "4"
    else if d == 5
    then "5"
    else if d == 6
    then "6"
    else if d == 7
    then "7"
    else if d == 8
    then "8"
    else "9"

str_rounds : ℕ → ℕ → String
str_rounds zero n = ""
str_rounds (suc f) n = elim (ltb n 10) [
  | true ↦ digit_text n
  | false ↦ str_rounds f (n / 10) ++ digit_text (n % 10)
]

-- `str(n)`: a number has no more digits than its value plus one.
unfoldable pub str_nat : ℕ → String
unfolding str_rounds
str_nat n = str_rounds (suc n) n

infixr 60 ◌<>◌
abbrev pub ◌<>◌ : String → String → String
s <> t = s ++ t
