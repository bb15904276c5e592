-- ===== src/Pfop/Decimal.antt =====
-- Python's decimal text of a number, `f"{n:04d}"`, and `int(text)`, on ASCII bytes.
use sas_tests.Prelude.{
  ltb, leb, ◌==◌, if◌then◌else◌, length, replicate, Outcome, value_error, ok, raised, ℕ, zero, suc,
  ◌+◌, ◌-◌, ◌*◌, ◌/◌, ◌%◌, Bool, true, false, ◌&&◌, ◌||◌, Option, none, some, List, [], ◌∷◌, ◌++◌,
}
use mathlib.Core.List.{reverse}
use sas_tests.Prelude.Int.{ℤ, pos, negsuc}

-- The digits of a number, on fuel.
unfoldable pub decimal : ℕ → ℕ → List ℕ
decimal zero n = []
decimal (suc f) n = elim (ltb n 10) [
  | true ↦ (48 + n) ∷ []
  | false ↦ decimal f (n / 10) ++ (48 + n % 10) ∷ []
]

-- `f"{n:0wd}"`: a number has no more digits than one more than its value.
unfoldable pub padded : ℕ → ℕ → List ℕ
unfolding decimal
padded w n = let ds = decimal (suc n) n in replicate (w - length ds) 48 ++ ds

-- What `int` takes for blank in ASCII text.
abbrev pub is_space : ℕ → Bool
is_space c = (leb 9 c && leb c 13) || c == 32

-- What `str.strip` takes for blank.
abbrev pub is_blank : ℕ → Bool
is_blank c =
    (leb 9 c && leb c 13)
    || (leb 28 c && leb c 32)
    || c == 133
    || c == 160
    || c == 5760
    || (leb 8192 c && leb c 8202)
    || c == 8232
    || c == 8233
    || c == 8239
    || c == 8287
    || c == 12288

unfoldable pub strip_left : (ℕ → Bool) → List ℕ → List ℕ
strip_left blank [] = []
strip_left blank (c ∷ s) = if blank c then strip_left blank s else c ∷ s

unfoldable pub strip_by : (ℕ → Bool) → List ℕ → List ℕ
unfolding strip_left
strip_by blank s = reverse (strip_left blank (reverse (strip_left blank s)))

-- `s.strip()`
unfoldable pub strip : List ℕ → List ℕ
unfolding strip_by
strip s = strip_by is_blank s

-- Digits, with single underscores between them; `after` is whether a digit stands just before.
unfoldable pub digits_of : Bool → ℕ → List ℕ → Option ℕ
digits_of true n [] = some n
digits_of false n [] = none
digits_of after n (c ∷ s) =
    let digit = digits_of true (n * 10 + (c - 48)) s in
    let underscore = digits_of false n s in
    if leb 48 c && leb c 57 then digit else if after && c == 95 then underscore else none

abbrev pub negated : ℕ → ℤ
negated zero = pos 0
negated (suc n) = negsuc n

abbrev pub mapped : (ℕ → ℤ) → Option ℕ → Outcome ℤ
mapped f none = raised value_error
mapped f (some n) = ok (f n)

unfoldable pub signed : List ℕ → Outcome ℤ
unfolding digits_of
signed [] = raised value_error
signed (c ∷ s) =
    if c == 43
    then mapped pos (digits_of false 0 s)
    else if c == 45
    then mapped negated (digits_of false 0 s)
    else mapped pos (digits_of false 0 (c ∷ s))

-- `int(s)`
unfoldable pub int_of : List ℕ → Outcome ℤ
unfolding strip_by signed
int_of s = signed (strip_by is_space s)
