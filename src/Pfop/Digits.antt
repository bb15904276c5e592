-- ===== src/Pfop/Digits.antt =====
-- A number below 10 ^ w is printed with exactly `w` digits, which `int` reads back.
use sas_tests.Prelude.{
  ltb, ltb→lt, lt→ltb, Bool-cases, length, replicate, All, length-append, All-append, ok, ℕ, zero,
  suc, ◌+◌, ◌-◌, ◌*◌, ◌/◌, ◌%◌, ◌^◌, ◌≤◌, ◌<◌, ◌≡◌, refl, sym, ap, ◌∙◌, inl, inr, Bool, true, false,
  some, List, [], ◌∷◌, ◌++◌, append_assoc, arith,
}
use mathlib.Core.List.{reverse, reverse-append, reverse-reverse}
use mathlib.Core.Path.{subst}
use native.Mathlib.Nat.{pow-suc}
use sas_tests.Prelude.Int.{pos}
use sas_tests.Pfop.Decimal.{
  decimal, padded, is_space, is_blank, strip_left, strip_by, strip, digits_of, signed, int_of,
}

-- The last `w` digits.
abbrev pub fixed : ℕ → ℕ → List ℕ
fixed zero n = []
fixed (suc w) n = fixed w (n / 10) ++ (48 + n % 10) ∷ []

pub length-fixed : (w n : ℕ) → length (fixed w n) ≡ w
length-fixed zero n = refl
length-fixed (suc w) n =
    length-append {0} (fixed w (n / 10)) _ ∙ omega (arith, length-fixed w (n / 10))

replicate_snoc : (w a : ℕ) → replicate w a ++ a ∷ [] ≡ a ∷ replicate w a
replicate_snoc zero a = refl
replicate_snoc (suc w) a = ap (λ l. a ∷ l) (replicate_snoc w a)

fixed-zero : (w : ℕ) → fixed w 0 ≡ replicate w 48
fixed-zero zero = refl
fixed-zero (suc w) = rw (fixed-zero w) (replicate_snoc w 48)

shorter : (w n : ℕ) → n < 10 ^ suc (suc w) → n / 10 < 10 ^ suc w
shorter w n h = let e = pow-suc 10 (suc w) in omega (arith, e)

abbrev Pads : ℕ → ℕ → List ℕ → Type 0
Pads w n ds = (length ds ≤ suc w) × (replicate (suc w - length ds) 48 ++ ds ≡ fixed (suc w) n)

one_digit : (w n : ℕ) → n < 10 → Pads w n ((48 + n) ∷ [])
one_digit w n h =
    let none_left : n / 10 ≡ 0 = omega arith in
    let last : 48 + n % 10 ≡ 48 + n = omega arith in
    let pad : suc w - 1 ≡ w = omega arith in
    (omega arith, rw (pad, none_left, last) (ap (λ l. l ++ (48 + n) ∷ []) (sym (fixed-zero w))))

Pads-snoc : (w n : ℕ) (ds : List ℕ) → Pads w (n / 10) ds → Pads (suc w) n (ds ++ (48 + n % 10) ∷ [])
Pads-snoc w n ds h =
    let grown : length (ds ++ (48 + n % 10) ∷ []) ≡ suc (length ds) =
      length-append {0} ds ((48 + n % 10) ∷ []) ∙ omega arith in
    let pad : suc (suc w) - suc (length ds) ≡ suc w - length ds = omega arith in
    (
      omega (arith, grown, h.0),
      rw (grown, pad)
          (sym (append_assoc (replicate (suc w - length ds) 48) ds _)
            ∙ ap (λ l. l ++ (48 + n % 10) ∷ []) h.1),
    )

decimal-Pads : (f w n : ℕ) → n < f → n < 10 ^ suc w → Pads w n (decimal f n)
unfolding decimal
decimal-Pads zero w n lt h = absurd (omega arith)
decimal-Pads (suc f) zero n lt h =
    rw (lt→ltb n 10 (omega arith), decimal) (one_digit zero n (omega arith))
decimal-Pads (suc f) (suc w) n lt h = elim (Bool-cases (ltb n 10)) [
  | inl small ↦ rw (small, decimal) (one_digit (suc w) n (ltb→lt n 10 small))
  | inr big ↦
      rw (big, decimal)
        (Pads-snoc w n (decimal f (n / 10))
          (decimal-Pads f w (n / 10) (ground arith) (shorter w n h)))
]

pub padded-eq-fixed : (w n : ℕ) → n < 10 ^ suc w → padded (suc w) n ≡ fixed (suc w) n
unfolding padded
padded-eq-fixed w n h = (decimal-Pads (suc n) w n (omega arith) h).1

-- `int` of a fixed-width print is the number.
abbrev pub IsDigit : ℕ → Type 0
IsDigit c = (48 ≤ c) × (c ≤ 57)

pub fixed-IsDigit : (w n : ℕ) → All IsDigit (fixed w n)
fixed-IsDigit zero n = tt
fixed-IsDigit (suc w) n =
    All-append IsDigit (fixed w (n / 10)) _ (fixed-IsDigit w (n / 10)) (omega arith)

-- The number that digits spell behind `a`.
abbrev value : ℕ → List ℕ → ℕ
value a [] = a
value a (c ∷ s) = value (a * 10 + (c - 48)) s

value-append : (xs : List ℕ) (a c : ℕ) → value a (xs ++ c ∷ []) ≡ value a xs * 10 + (c - 48)
value-append [] a c = refl
value-append (x ∷ xs) a c = value-append xs (a * 10 + (x - 48)) c

value-fixed : (w n : ℕ) → n < 10 ^ w → value 0 (fixed w n) ≡ n
value-fixed zero n h = omega arith
value-fixed (suc w) n h =
    let e = pow-suc 10 w in
    value-append (fixed w (n / 10)) 0 (48 + n % 10)
    ∙ omega (arith, value-fixed w (n / 10) (omega (arith, e)))

digits_of-value : (xs : List ℕ) (a : ℕ) → All IsDigit xs → digits_of true a xs ≡ some (value a xs)
unfolding digits_of
digits_of-value [] a hs = refl
digits_of-value (x ∷ xs) a hs = ground (arith, digits_of-value xs (a * 10 + (x - 48)) hs.1)

All-reverse : (xs : List ℕ) → All IsDigit xs → All IsDigit (reverse xs)
All-reverse [] hs = tt
All-reverse (x ∷ xs) hs =
    subst (All IsDigit) (sym (reverse-append (x ∷ []) xs))
      (All-append IsDigit (reverse xs) _ (All-reverse xs hs.1) (hs.0, tt))

-- Digits have no blank to strip.
module _ (blank : ℕ → Bool) (none_is : (c : ℕ) → IsDigit c → blank c ≡ false) where
  strip_left_digits : (xs : List ℕ) → All IsDigit xs → strip_left blank xs ≡ xs
  unfolding strip_left
  strip_left_digits [] hs = refl
  strip_left_digits (x ∷ xs) hs = ground (arith, none_is x hs.0)

  strip_by_digits : (xs : List ℕ) → All IsDigit xs → strip_by blank xs ≡ xs
  unfolding strip_by
  strip_by_digits xs hs =
      rw (strip_left_digits xs hs, strip_left_digits (reverse xs) (All-reverse xs hs))
        (reverse-reverse xs)

is_space_digit : (c : ℕ) → IsDigit c → is_space c ≡ false
is_space_digit c h = ground arith

is_blank_digit : (c : ℕ) → IsDigit c → is_blank c ≡ false
is_blank_digit c h = ground arith

pub strip_digits : (xs : List ℕ) → All IsDigit xs → strip xs ≡ xs
unfolding strip
strip_digits = strip_by_digits is_blank is_blank_digit

signed_digits : (xs : List ℕ) → All IsDigit xs → 0 < length xs → signed xs ≡ ok (pos (value 0 xs))
unfolding signed digits_of
signed_digits [] hs n = absurd (omega arith)
signed_digits (x ∷ xs) hs n = ground (arith, digits_of-value xs (0 * 10 + (x - 48)) hs.1)

-- `int` of a fixed-width print is the number.
pub int_of-fixed : (w n : ℕ) → n < 10 ^ suc w → int_of (fixed (suc w) n) ≡ ok (pos n)
unfolding int_of
int_of-fixed w n h =
    let ds = fixed-IsDigit (suc w) n in
    rw (strip_by_digits is_space is_space_digit (fixed (suc w) n) ds) (
      signed_digits (fixed (suc w) n) ds (omega (arith, length-fixed (suc w) n))
      ∙ ap (λ m. ok (pos m)) (value-fixed (suc w) n h))

pow_pos : (w : ℕ) → 1 ≤ 10 ^ w
pow_pos zero = omega arith
pow_pos (suc w) = omega (arith, pow-suc 10 w, pow_pos w)

decimal_long : (f w n : ℕ) → n < f → 10 ^ w ≤ n → w < length (decimal f n)
unfolding decimal
decimal_long zero w n lt h = absurd (omega arith)
decimal_long (suc f) zero n lt h = elim (Bool-cases (ltb n 10)) [
  | inl small ↦ rw (small, decimal) (omega arith)
  | inr big ↦
      rw (big, decimal) (omega (arith, length-append {0} (decimal f (n / 10)) ((48 + n % 10) ∷ [])))
]
decimal_long (suc f) (suc w) n lt h = elim (Bool-cases (ltb n 10)) [
  | inl small ↦ absurd (omega (arith, pow-suc 10 w, ltb→lt n 10 small, pow_pos w))
  | inr big ↦
      rw (big, decimal)
        (omega (
          arith,
          length-append {0} (decimal f (n / 10)) ((48 + n % 10) ∷ []),
          decimal_long f w (n / 10) (ground arith) (omega (arith, pow-suc 10 w)),
        ))
]

-- A number of more digits than the width is printed in full.
pub padded_long :
    (v w n : ℕ) → v ≤ suc w → 10 ^ w ≤ n → n < 10 ^ suc w → padded v n ≡ fixed (suc w) n
unfolding padded
padded_long v w n narrow lo hi =
    let ds = decimal (suc n) n in
    let pads = decimal-Pads (suc n) w n (omega arith) hi in
    let full : length ds ≡ suc w =
      omega (arith, pads.0, decimal_long (suc n) w n (omega arith) lo) in
    let one : v - length ds ≡ 0 = omega arith in
    let two : suc w - length ds ≡ 0 = omega arith in rw one (rw two at pads.1)
