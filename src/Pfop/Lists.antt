-- ===== src/Pfop/Lists.antt =====
-- pfop/test_pfop_job.py and pfop/test_pfop_pset.py: the lists of ids that a controller sends, a count
-- and as many ids, all of one width.
pub mod Bounds
pub mod RoundTrip
pub mod Wire
use sas_tests.Prelude.{
  ltb, if◌then◌else◌, length, take, drop, ◌>>=◌, Outcome, ok, ℕ, zero, suc, ◌+◌, List, [], ◌∷◌,
}
use sas_tests.Prelude.Int.{ℤ, pos, pos_part, leb_ℤ}
use sas_tests.Pfop.{Bytes, decode_ascii, int_or_zero}

-- `for _ in range(count)`: at most so many ids from an offset on, and none behind the end of the text.
unfoldable pub read_ids : ℕ → ℕ → ℕ → Bytes → Outcome (List ℤ)
read_ids width zero offset text = ok []
read_ids width (suc rounds) offset text =
    let rest = read_ids width rounds (offset + width) text in
    if ltb (length text) (offset + width)
    then ok []
    else do i ← int_or_zero (take width (drop offset text)); ids ← rest; ok (i ∷ ids)

-- A list whose fields have this width. `range` of a negative number is empty.
unfoldable pub read_list : ℕ → Bytes → Outcome (List ℤ)
unfolding read_ids
read_list width text =
    if ltb (length text) width
    then ok []
    else int_or_zero (take width text) >>= (λ count. read_ids width (pos_part count) width text)

-- The width of a job list of a revision.
abbrev pub job_width : ℤ → ℕ
job_width revision = if leb_ℤ revision (pos 1) then 2 else 4

-- `_parse_job_ids`
unfoldable pub parse_job_ids : Bytes → ℤ → Outcome (List ℤ)
unfolding read_list decode_ascii
parse_job_ids frame_data revision = read_list (job_width revision) (decode_ascii frame_data)

-- `_parse_pset_ids`
unfoldable pub parse_pset_ids : Bytes → Outcome (List ℤ)
unfolding read_list decode_ascii
parse_pset_ids frame_data = read_list 3 (decode_ascii frame_data)
