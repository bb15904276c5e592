-- ===== src/Pfop/Reading.antt =====
-- What `recv_frame` reads in a header whose fields have their widths.
use sas_tests.Prelude.{
  ltb, length, drop, replicate, All, ok, ℕ, suc, ◌^◌, ◌<◌, ◌≡◌, refl, ◌∙◌, false, List, [], ◌∷◌,
  ◌++◌, arith,
}
use sas_tests.Prelude.Int.{pos}
use sas_tests.Pfop.Decimal.{strip, int_of}
use sas_tests.Pfop.Digits.{fixed, length-fixed, IsDigit, fixed-IsDigit, strip_digits, int_of-fixed}
use sas_tests.Pfop.{Bytes, Frame, decode_ascii, int_or_zero, parse_fields, parse_body}

pub decode_digits : (xs : List ℕ) → All IsDigit xs → decode_ascii xs ≡ xs
unfolding decode_ascii
decode_digits [] hs = refl
decode_digits (x ∷ xs) hs = ground (arith, decode_digits xs hs.1)

int_or_zero_cons : (xs : List ℕ) → 0 < length xs → int_or_zero xs ≡ int_of xs
int_or_zero_cons [] h = absurd (omega arith)
int_or_zero_cons (x ∷ xs) h = refl

-- A header field of the right width.
pub field_lem :
    (w n : ℕ) → n < 10 ^ suc w → int_or_zero (decode_ascii (fixed (suc w) n)) ≡ ok (pos n)
field_lem w n h = rw (decode_digits (fixed (suc w) n) (fixed-IsDigit (suc w) n)) (
    int_or_zero_cons (fixed (suc w) n) (omega (arith, length-fixed (suc w) n)) ∙ int_of-fixed w n h)

pub stripped_field_lem :
    (w n : ℕ) → n < 10 ^ suc w → int_or_zero (strip (decode_ascii (fixed (suc w) n))) ≡ ok (pos n)
stripped_field_lem w n h =
    rw
      (
        decode_digits (fixed (suc w) n) (fixed-IsDigit (suc w) n),
        strip_digits (fixed (suc w) n) (fixed-IsDigit (suc w) n),
      )
      (int_or_zero_cons (fixed (suc w) n) (omega (arith, length-fixed (suc w) n))
        ∙ int_of-fixed w n h)

abbrev pub fixed_header : ℕ → ℕ → ℕ → Bytes
fixed_header size mid revision =
    fixed 4 size ++ (fixed 4 mid ++ (fixed 3 revision ++ replicate 9 32))

-- What `recv_frame` makes of a frame.
abbrev pub frame_of : ℕ → ℕ → ℕ → Bytes → Bytes → Frame
frame_of size mid revision body text = record {
  size = pos size;
  mid = pos mid;
  revision = pos revision;
  raw = body ++ 0 ∷ [];
  payload = text;
}

pub parse_fields_lem :
    (a b c body : Bytes) (size mid revision : ℕ)
    → int_or_zero (decode_ascii a) ≡ ok (pos size)
    → int_or_zero (decode_ascii b) ≡ ok (pos mid)
    → int_or_zero (strip (decode_ascii c)) ≡ ok (pos revision)
    → parse_fields a b c body ≡ ok (frame_of size mid revision body (drop 20 body))
unfolding parse_fields
parse_fields_lem a b c body size mid revision ha hb hc = simp (ha, hb, hc)

pub parse_body-header :
    (size mid revision : ℕ) (text : Bytes)
    → size < 10000
    → mid < 10000
    → revision < 1000
    → parse_body (fixed_header size mid revision ++ text)
      ≡ ok (frame_of size mid revision (fixed_header size mid revision ++ text) text)
parse_body-header size mid revision text hs hm hr =
    let body = fixed_header size mid revision ++ text in
    let long : ltb (length body) 20 ≡ false = ground arith in
    unfold parse_body in
    rw long (
      parse_fields_lem (fixed 4 size) (fixed 4 mid) (fixed 3 revision) body size mid revision
        (field_lem 3 size hs) (field_lem 3 mid hm) (stripped_field_lem 2 revision hr))
