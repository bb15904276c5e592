-- ===== src/Pfop/Lists/RoundTrip.antt =====
-- What the readers of id lists make of a list that is printed as the protocol has it.
use sas_tests.Prelude.{
  ltb, length, take, drop, All, length-append, take-append, drop-append, ◌>>=◌, ok, ℕ, zero, suc,
  ◌+◌, ◌^◌, ◌≤◌, ◌<◌, ◌≡◌, refl, sym, ap, ◌∙◌, ◌⊎◌, inl, inr, false, List, [], ◌∷◌, ◌++◌, map,
  append_assoc, arith,
}
use mathlib.Core.Path.{ap₂}
use sas_tests.Prelude.Int.{pos}
use sas_tests.Pfop.Decimal.{padded}
use sas_tests.Pfop.Digits.{fixed, length-fixed, padded-eq-fixed, fixed-IsDigit}
use sas_tests.Pfop.{Bytes, int_or_zero}
use sas_tests.Pfop.Reading.{field_lem, decode_digits}
use sas_tests.Pfop.Lists.{read_ids, read_list}

-- The ids one behind the other.
abbrev pub fields : ℕ → List ℕ → Bytes
fields width [] = []
fields width (i ∷ ids) = padded width i ++ fields width ids

plain_field_lem : (w n : ℕ) → n < 10 ^ suc w → int_or_zero (fixed (suc w) n) ≡ ok (pos n)
plain_field_lem w n h =
    ap int_or_zero (sym (decode_digits (fixed (suc w) n) (fixed-IsDigit (suc w) n)))
    ∙ field_lem w n h

-- One round, on a text cut before and behind the field that it reads.
read_ids_step :
    (w rounds : ℕ) (before field behind : Bytes)
    → length field ≡ suc w
    → read_ids (suc w) (suc rounds) (length before) (before ++ (field ++ behind)) ≡ (
        int_or_zero field >>= (λ i.
          read_ids (suc w) rounds (length before + suc w) (before ++ (field ++ behind))
          >>= (λ ids. ok (i ∷ ids))))
unfolding read_ids
read_ids_step w rounds before field behind e =
    let text = before ++ (field ++ behind) in
    let there : ltb (length text) (length before + suc w) ≡ false =
      ground (arith, length-append {0} before (field ++ behind), length-append {0} field behind) in
    let cut : take (suc w) (drop (length before) text) ≡ field =
      ap (take (suc w)) (drop-append before (field ++ behind))
      ∙ ap (λ n. take n (field ++ behind)) (sym e)
      ∙ take-append field behind in
    rw (there, cut) refl

one_less : {m n a b : ℕ} → (suc m ≤ suc n) ⊎ (a < b) → (m ≤ n) ⊎ (a < b)
one_less (inl h) = inl (omega arith)
one_less (inr h) = inr h

-- A text whose front has been read.
read_ids_lem :
    (w rounds : ℕ) (before : Bytes) (ids : List ℕ) (tail : Bytes)
    → All (λ i. i < 10 ^ suc w) ids
    → (rounds ≤ length ids) ⊎ (length tail < suc w)
    → read_ids (suc w) rounds (length before) (before ++ (fields (suc w) ids ++ tail))
      ≡ ok (map pos (take rounds ids))
unfolding read_ids
read_ids_lem w zero before ids tail fits enough = refl
read_ids_lem w (suc rounds) before [] tail fits enough =
    ground (arith, length-append {0} before tail)
read_ids_lem w (suc rounds) before (i ∷ ids) tail fits enough =
    let field = fixed (suc w) i in
    let behind = fields (suc w) ids ++ tail in
    let wide = length-fixed (suc w) i in
    let parted : before ++ (fields (suc w) (i ∷ ids) ++ tail) ≡ before ++ (field ++ behind) =
      ap (λ l. before ++ l)
        (ap (λ p. (p ++ fields (suc w) ids) ++ tail) (padded-eq-fixed w i fits.0)
          ∙ append_assoc field (fields (suc w) ids) tail) in
    let passed : read_ids (suc w) rounds (length before + suc w) (before ++ (field ++ behind))
        ≡ ok (map pos (take rounds ids)) =
      ap₂ (read_ids (suc w) rounds)
        (ap (λ n. length before + n) (sym wide) ∙ sym (length-append {0} before field))
        (sym (append_assoc before field behind))
      ∙ read_ids_lem w rounds (before ++ field) ids tail fits.1 (one_less enough) in
    rw parted (
      read_ids_step w rounds before field behind wide
      ∙ (rw (plain_field_lem w i fits.0, passed) refl))

-- A list: the count, the ids, and whatever stands behind them.
abbrev pub listed : ℕ → ℕ → List ℕ → Bytes → Bytes
listed width count ids tail = padded width count ++ (fields width ids ++ tail)

pub read_list_lem :
    (w count : ℕ) (ids : List ℕ) (tail : Bytes)
    → count < 10 ^ suc w
    → All (λ i. i < 10 ^ suc w) ids
    → (count ≤ length ids) ⊎ (length tail < suc w)
    → read_list (suc w) (listed (suc w) count ids tail) ≡ ok (map pos (take count ids))
unfolding read_list
read_list_lem w count ids tail small fits enough =
    let field = fixed (suc w) count in
    let behind = fields (suc w) ids ++ tail in
    let wide = length-fixed (suc w) count in
    let long : ltb (length (field ++ behind)) (suc w) ≡ false =
      ground (arith, length-append {0} field behind) in
    let cut : take (suc w) (field ++ behind) ≡ field =
      ap (λ n. take n (field ++ behind)) (sym wide) ∙ take-append field behind in
    rw (padded-eq-fixed w count small) (
      rw (long, cut, plain_field_lem w count small)
        (ap (λ n. read_ids (suc w) count n (field ++ behind)) (sym wide)
          ∙ read_ids_lem w count field ids tail fits enough))
