-- ===== src/Pfop/RoundTrip.antt =====
-- What `recv_frame` reads of the frames that `send_mid` sends, however the stream is cut.
use sas_tests.Prelude.{
  ltb, length, replicate, All, ok, ℕ, ◌+◌, ◌*◌, ◌/◌, ◌%◌, ◌≤◌, ◌<◌, ◌≡◌, refl, sym, ap, true, false,
  List, [], ◌∷◌, ◌++◌, append_assoc, arith,
}
use sas_tests.Prelude.Int.{pos}
use sas_tests.Pfop.Decimal.{strip}
use mathlib.Core.Path.{subst}
use sas_tests.Pfop.Digits.{padded_long, fixed, padded-eq-fixed, IsDigit}
use sas_tests.Pfop.{
  Bytes, Frame, header, is_ascii, send_mid, has_nul, decode_ascii, int_or_zero, parse_body,
  recv_frame,
}
use sas_tests.Pfop.Reading.{
  fixed_header, frame_of, parse_body-header, parse_fields_lem, field_lem, stripped_field_lem,
}
use sas_tests.Pfop.Chunks.{Cut, recv_frame-Cut}

header-eq-fixed :
    (size mid revision : ℕ)
    → size < 10000
    → mid < 10000
    → revision < 1000
    → header size mid revision ≡ fixed_header size mid revision
unfolding header
header-eq-fixed size mid revision hs hm hr =
    rw (padded-eq-fixed 3 size hs, padded-eq-fixed 3 mid hm, padded-eq-fixed 2 revision hr)

has_nul_digits : (xs : List ℕ) → All IsDigit xs → has_nul xs ≡ false
has_nul_digits [] hs = refl
has_nul_digits (x ∷ xs) hs = ground (arith, has_nul_digits xs hs.1)

has_nul-fixed_header :
    (size mid revision : ℕ) (text : Bytes)
    → has_nul text ≡ false
    → has_nul (fixed_header size mid revision ++ text) ≡ false
has_nul-fixed_header size mid revision text h = ground arith

-- A frame of at most 9999 bytes whose data is ASCII without NUL, with `mid` below 10000 and
-- `revision` below 1000: `send_mid` sends the header, the data and a NUL, and `recv_frame` on the
-- other side gives back the length, the mid, the revision and the data, however the stream is cut
-- into chunks that are not empty. What follows the NUL in its chunk is lost, and the chunks behind
-- that are not read.
pub recv_frame-send_mid :
    (mid revision : ℕ) (text extra : Bytes) (cs rest : List Bytes)
    → mid < 10000
    → revision < 1000
    → length text < 9980
    → is_ascii text ≡ true
    → has_nul text ≡ false
    → Cut (header (20 + length text) mid revision ++ text) extra cs
    → let body = header (20 + length text) mid revision ++ text in
      (send_mid true mid revision text ≡ ok (body ++ 0 ∷ []))
      × (recv_frame true (cs ++ rest)
          ≡ ok (frame_of (20 + length text) mid revision body text, rest))
unfolding send_mid
recv_frame-send_mid mid revision text extra cs rest hm hr ht ascii clean cut =
    let size = 20 + length text in
    let e = header-eq-fixed size mid revision (omega arith) hm hr in
    let parsed = parse_body-header size mid revision text (omega arith) hm hr in
    (
      rw ascii (ap (λ l. ok l) (sym (append_assoc (header size mid revision) text (0 ∷ [])))),
      recv_frame-Cut (header size mid revision ++ text) extra cs rest
          (frame_of size mid revision (header size mid revision ++ text) text)
          (rw e (has_nul-fixed_header size mid revision text clean)) (rw e parsed) cut,
    )

-- A five-digit length spoils the header: every field is read one place too early.
abbrev pub shifted : ℕ → ℕ → ℕ → Bytes → Bytes → Frame
shifted size mid revision body text =
    frame_of (size / 10) (size % 10 * 1000 + mid / 10) (mid % 10 * 100 + revision / 10) body
      (32 ∷ text)

abbrev long_header : ℕ → ℕ → ℕ → Bytes
long_header size mid revision =
    fixed 5 size ++ (fixed 4 mid ++ (fixed 3 revision ++ replicate 9 32))

has_nul-long_header :
    (size mid revision : ℕ) (text : Bytes)
    → has_nul text ≡ false
    → has_nul (long_header size mid revision ++ text) ≡ false
has_nul-long_header size mid revision text h = ground arith

header-eq-long :
    (size mid revision : ℕ)
    → 10000 ≤ size
    → size < 100000
    → mid < 10000
    → revision < 1000
    → header size mid revision ≡ long_header size mid revision
unfolding header
header-eq-long size mid revision lo hi hm hr = rw (
  padded_long 4 4 size (omega arith) lo hi,
  padded-eq-fixed 3 mid hm,
  padded-eq-fixed 2 revision hr,
)

four_digits :
    {a b c d a' b' c' d' : ℕ}
    → a ≡ a'
    → b ≡ b'
    → c ≡ c'
    → d ≡ d'
    → ◌≡◌ {A = List ℕ} (a ∷ b ∷ c ∷ d ∷ []) (a' ∷ b' ∷ c' ∷ d' ∷ [])
four_digits p q r s = cc

three_digits :
    {a b c a' b' c' : ℕ}
    → a ≡ a'
    → b ≡ b'
    → c ≡ c'
    → ◌≡◌ {A = List ℕ} (a ∷ b ∷ c ∷ []) (a' ∷ b' ∷ c' ∷ [])
three_digits p q r = cc

mid_digits :
    (size mid : ℕ)
    → mid < 10000
    → (48 + size % 10) ∷ fixed 3 (mid / 10) ≡ fixed 4 (size % 10 * 1000 + mid / 10)
mid_digits size mid h = four_digits (omega arith) (omega arith) (omega arith) (omega arith)

revision_digits :
    (mid revision : ℕ)
    → revision < 1000
    → (48 + mid % 10) ∷ fixed 2 (revision / 10) ≡ fixed 3 (mid % 10 * 100 + revision / 10)
revision_digits mid revision h = three_digits (omega arith) (omega arith) (omega arith)

parse_body-long_header :
    (size mid revision : ℕ) (text : Bytes)
    → size < 100000
    → mid < 10000
    → revision < 1000
    → let body = long_header size mid revision ++ text in
      parse_body body ≡ ok (shifted size mid revision body text)
parse_body-long_header size mid revision text hs hm hr =
    let body = long_header size mid revision ++ text in
    let long : ltb (length body) 20 ≡ false = ground arith in
    let mid' = size % 10 * 1000 + mid / 10 in
    let revision' = mid % 10 * 100 + revision / 10 in
    unfold parse_body in
    rw long (
      parse_fields_lem (fixed 4 (size / 10)) ((48 + size % 10) ∷ fixed 3 (mid / 10))
        ((48 + mid % 10) ∷ fixed 2 (revision / 10)) body (size / 10) mid' revision'
        (field_lem 3 (size / 10) (omega arith))
        (subst (λ l. int_or_zero (decode_ascii l) ≡ ok (pos mid')) (sym (mid_digits size mid hm))
          (field_lem 3 mid' (omega arith)))
        (subst (λ l. int_or_zero (strip (decode_ascii l)) ≡ ok (pos revision'))
          (sym (revision_digits mid revision hr)) (stripped_field_lem 2 revision' (omega arith))))

-- A frame of 10000 to 99999 bytes, which is data of 9980 bytes or more without NUL, with `mid` below
-- 10000 and `revision` below 1000, has a length of five digits, and `recv_frame` reads other numbers
-- than `send_mid` was given: a tenth of the length, and the mid and the revision
-- each made of the last digit of the field before it and its own digits but the last; the data gets
-- a blank in front.
pub recv_frame-send_mid_long :
    (mid revision : ℕ) (text extra : Bytes) (cs rest : List Bytes)
    → mid < 10000
    → revision < 1000
    → 9980 ≤ length text
    → length text < 99980
    → has_nul text ≡ false
    → Cut (header (20 + length text) mid revision ++ text) extra cs
    → let body = header (20 + length text) mid revision ++ text in
      recv_frame true (cs ++ rest) ≡ ok (shifted (20 + length text) mid revision body text, rest)
recv_frame-send_mid_long mid revision text extra cs rest hm hr lo hi clean cut =
    let size = 20 + length text in
    let e = header-eq-long size mid revision (omega arith) (omega arith) hm hr in
    recv_frame-Cut (header size mid revision ++ text) extra cs rest
      (shifted size mid revision (header size mid revision ++ text) text)
      (rw e (has_nul-long_header size mid revision text clean))
      (rw e (parse_body-long_header size mid revision text (omega arith) hm hr)) cut
