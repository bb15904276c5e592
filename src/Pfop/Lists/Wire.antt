-- ===== src/Pfop/Lists/Wire.antt =====
-- The lists of ids over the wire.
use sas_tests.Prelude.{
  ltb, Bool-cases, length, take, All, keep-append, All-append, ◌>>=◌, ok, ℕ, suc, ◌+◌, ◌^◌, ◌≤◌,
  ◌<◌, ◌≡◌, refl, sym, ap, ◌∙◌, ◌⊎◌, inl, inr, true, false, List, [], ◌∷◌, ◌++◌, map, append_assoc,
  arith,
}
use sas_tests.Prelude.Int.{ℤ, leb_ℤ, pos}
use sas_tests.Pfop.Decimal.{padded}
use sas_tests.Pfop.Digits.{padded-eq-fixed, IsDigit, fixed-IsDigit}
use sas_tests.Pfop.{Bytes, header, is_ascii, has_nul, decode_ascii, send_mid, recv_frame}
use sas_tests.Pfop.Chunks.{Cut}
use sas_tests.Pfop.Reading.{decode_digits}
use sas_tests.Pfop.RoundTrip.{recv_frame-send_mid}
use sas_tests.Pfop.Lists.{job_width, read_list, parse_job_ids, parse_pset_ids}
use sas_tests.Pfop.Lists.RoundTrip.{fields, listed, read_list_lem}

padded-IsDigit : (w n : ℕ) → n < 10 ^ suc w → All IsDigit (padded (suc w) n)
padded-IsDigit w n h = rw (padded-eq-fixed w n h) (fixed-IsDigit (suc w) n)

fields-IsDigit :
    (w : ℕ) (ids : List ℕ) → All (λ i. i < 10 ^ suc w) ids → All IsDigit (fields (suc w) ids)
fields-IsDigit w [] fits = tt
fields-IsDigit w (i ∷ ids) fits =
    All-append IsDigit (padded (suc w) i) (fields (suc w) ids) (padded-IsDigit w i fits.0)
      (fields-IsDigit w ids fits.1)

listed-IsDigit :
    (w count : ℕ) (ids : List ℕ)
    → count < 10 ^ suc w
    → All (λ i. i < 10 ^ suc w) ids
    → All IsDigit (padded (suc w) count ++ fields (suc w) ids)
listed-IsDigit w count ids small fits =
    All-append IsDigit (padded (suc w) count) (fields (suc w) ids) (padded-IsDigit w count small)
      (fields-IsDigit w ids fits)

listed_parts :
    (width count : ℕ) (ids : List ℕ) (tail : Bytes)
    → listed width count ids tail ≡ (padded width count ++ fields width ids) ++ tail
listed_parts width count ids tail = sym (append_assoc (padded width count) (fields width ids) tail)

decode-listed :
    (w count : ℕ) (ids : List ℕ) (tail : Bytes)
    → count < 10 ^ suc w
    → All (λ i. i < 10 ^ suc w) ids
    → decode_ascii (listed (suc w) count ids tail) ≡ listed (suc w) count ids (decode_ascii tail)
unfolding decode_ascii
decode-listed w count ids tail small fits =
    let front = padded (suc w) count ++ fields (suc w) ids in
    ap decode_ascii (listed_parts (suc w) count ids tail)
    ∙ keep-append (λ c. ltb c 128) front tail
    ∙ ap (λ l. l ++ decode_ascii tail) (decode_digits front (listed-IsDigit w count ids small fits))
    ∙ sym (listed_parts (suc w) count ids (decode_ascii tail))

parse-listed :
    (w count : ℕ) (ids : List ℕ) (tail : Bytes)
    → count < 10 ^ suc w
    → All (λ i. i < 10 ^ suc w) ids
    → (count ≤ length ids) ⊎ (length (decode_ascii tail) < suc w)
    → read_list (suc w) (decode_ascii (listed (suc w) count ids tail))
      ≡ ok (map pos (take count ids))
parse-listed w count ids tail small fits enough =
    ap (read_list (suc w)) (decode-listed w count ids tail small fits)
    ∙ read_list_lem w count ids (decode_ascii tail) small fits enough

-- A Pset list with a count and ids below 1000, printed with three digits each: `_parse_pset_ids` gives
-- back the first ids of the count, if so many are there; and all of them, if the count is larger and
-- less than a field of ASCII stands behind them.
parse_pset_ids-listed :
    (count : ℕ) (ids : List ℕ) (tail : Bytes)
    → count < 1000
    → All (λ i. i < 1000) ids
    → (count ≤ length ids) ⊎ (length (decode_ascii tail) < 3)
    → parse_pset_ids (listed 3 count ids tail) ≡ ok (map pos (take count ids))
unfolding parse_pset_ids
parse_pset_ids-listed = parse-listed 2

ascii_digits : (xs tail : Bytes) → All IsDigit xs → is_ascii (xs ++ tail) ≡ is_ascii tail
ascii_digits [] tail hs = refl
ascii_digits (x ∷ xs) tail hs = ground (arith, ascii_digits xs tail hs.1)

nul_digits : (xs tail : Bytes) → All IsDigit xs → has_nul (xs ++ tail) ≡ has_nul tail
nul_digits [] tail hs = refl
nul_digits (x ∷ xs) tail hs = ground (arith, nul_digits xs tail hs.1)

wired :
    (w count revision : ℕ) (ids : List ℕ) (tail extra : Bytes) (cs rest : List Bytes)
    → job_width (pos revision) ≡ suc w
    → revision < 1000
    → count < 10 ^ suc w
    → All (λ i. i < 10 ^ suc w) ids
    → (count ≤ length ids) ⊎ (length (decode_ascii tail) < suc w)
    → is_ascii tail ≡ true
    → has_nul tail ≡ false
    → length (listed (suc w) count ids tail) < 9980
    → Cut
        (header (20 + length (listed (suc w) count ids tail)) 31 revision
          ++ listed (suc w) count ids tail)
        extra
        cs
    → let text = listed (suc w) count ids tail in
      (send_mid true 31 revision text
        ≡ ok ((header (20 + length text) 31 revision ++ text) ++ 0 ∷ []))
      × ((recv_frame true (cs ++ rest) >>= (λ r. parse_job_ids r.0.payload r.0.revision))
          ≡ ok (map pos (take count ids)))
unfolding parse_job_ids
wired w count revision ids tail extra cs rest e hr small fits enough ascii clean short cut =
    let front = padded (suc w) count ++ fields (suc w) ids in
    let digits = listed-IsDigit w count ids small fits in
    let parts = listed_parts (suc w) count ids tail in
    let (sent, got) =
      recv_frame-send_mid 31 revision (listed (suc w) count ids tail) extra cs rest (omega arith) hr
        short (ap is_ascii parts ∙ ascii_digits front tail digits ∙ ascii)
        (ap has_nul parts ∙ nul_digits front tail digits ∙ clean) cut in
    (sent, rw (got, e) (parse-listed w count ids tail small fits enough))

wide : (revision : ℤ) → (w : ℕ) × (job_width revision ≡ suc w)
wide revision = elim (Bool-cases (leb_ℤ revision (pos 1))) [
  | inl old ↦ (1, rw old refl)
  | inr new ↦ (3, rw new refl)
]

-- A job list, MID 31, printed in the width of its revision, which is below 1000, with a count and ids
-- that this width has room for and ASCII without NUL behind them, in a frame of less than 10000 bytes:
-- what `send_mid` sends of it, however the stream is cut into chunks that are not empty, `recv_frame`
-- and `_parse_job_ids` turn into the first ids of the count, if so many are there; and into all of
-- them, if the count is larger and less than a field stands behind them.
pub job_list_lem :
    (count revision : ℕ) (ids : List ℕ) (tail extra : Bytes) (cs rest : List Bytes)
    → revision < 1000
    → count < 10 ^ job_width (pos revision)
    → All (λ i. i < 10 ^ job_width (pos revision)) ids
    → (count ≤ length ids) ⊎ (length (decode_ascii tail) < job_width (pos revision))
    → is_ascii tail ≡ true
    → has_nul tail ≡ false
    → length (listed (job_width (pos revision)) count ids tail) < 9980
    → Cut
        (header (20 + length (listed (job_width (pos revision)) count ids tail)) 31 revision
          ++ listed (job_width (pos revision)) count ids tail)
        extra
        cs
    → let text = listed (job_width (pos revision)) count ids tail in
      (send_mid true 31 revision text
        ≡ ok ((header (20 + length text) 31 revision ++ text) ++ 0 ∷ []))
      × ((recv_frame true (cs ++ rest) >>= (λ r. parse_job_ids r.0.payload r.0.revision))
          ≡ ok (map pos (take count ids)))
job_list_lem count revision ids tail extra cs rest hr small fits enough ascii clean short cut =
    let (w, e) = wide (pos revision) in
    rw e (
      wired w count revision ids tail extra cs rest e hr (rw e at small) (rw e at fits)
        (rw e at enough) ascii clean (rw e at short) (rw e at cut))
