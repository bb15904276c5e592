-- ===== src/Examples/Frames.antt =====
-- Frames over a socket.
use sas_tests.Prelude.{
  length, take, replicate, length-replicate, ◌>>=◌, ok, ℕ, ◌+◌, ◌≡◌, refl, inl, true, List, [], ◌∷◌,
  ◌++◌, map, arith,
}
use sas_tests.Prelude.Int.{pos}
use sas_tests.Pfop.Lists.{job_width, parse_job_ids}
use sas_tests.Pfop.Lists.RoundTrip.{listed}
use sas_tests.Pfop.Lists.Wire.{job_list_lem}
use sas_tests.Prelude.Text.{codes}
use sas_tests.Pfop.{Bytes, header, send_mid, recv_frame}
use sas_tests.Pfop.Decimal.{padded, decimal}
use sas_tests.Pfop.Chunks.{last, more}
use sas_tests.Pfop.Reading.{frame_of}
use sas_tests.Pfop.RoundTrip.{shifted, recv_frame-send_mid, recv_frame-send_mid_long}

abbrev asked : Bytes
asked = codes "abc"

-- The frame, cut behind its first eleven bytes, with a byte of the next frame in the second chunk.
abbrev begun : Bytes
begun = codes "00230018001"

abbrev ended : Bytes
ended = codes "         abc"

recv_frame-send_mid_example :
    let body = header (20 + length asked) 18 1 ++ asked in
    (send_mid true 18 1 asked ≡ ok (body ++ 0 ∷ []))
    × (recv_frame true ((begun ∷ (ended ++ 0 ∷ 48 ∷ []) ∷ []) ++ [])
        ≡ ok (frame_of (20 + length asked) 18 1 body asked, []))
unfolding header padded decimal
recv_frame-send_mid_example =
    recv_frame-send_mid 18 1 asked (48 ∷ []) (begun ∷ (ended ++ 0 ∷ 48 ∷ []) ∷ []) [] (omega arith)
      (omega arith) (omega arith) refl refl
      (more 48 (codes "0230018001") (begun ++ ended) ended (48 ∷ []) _ refl (last ended (48 ∷ [])))

-- Data of 9980 bytes.
abbrev long_data : Bytes
long_data = replicate 9980 65

recv_frame-send_mid_long_example :
    let body = header (20 + length long_data) 18 1 ++ long_data in
    recv_frame true (((body ++ 0 ∷ []) ∷ []) ++ [])
    ≡ ok (shifted (20 + length long_data) 18 1 body long_data, [])
recv_frame-send_mid_long_example =
    recv_frame-send_mid_long 18 1 long_data [] _ [] (omega arith) (omega arith)
      (omega (arith, length-replicate {0} {A = ℕ} 9980 65))
      (omega (arith, length-replicate {0} {A = ℕ} 9980 65)) refl
      (last (header (20 + length long_data) 18 1 ++ long_data) [])

-- Three jobs, of which the count tells two, in one chunk.
abbrev jobs : List ℕ
jobs = 4 ∷ 17 ∷ 127 ∷ []

abbrev job_text : Bytes
job_text = listed (job_width (pos 2)) 2 jobs []

job_list_lem_example :
    let body = header (20 + length job_text) 31 2 ++ job_text in
    (send_mid true 31 2 job_text ≡ ok (body ++ 0 ∷ []))
    × ((recv_frame true (((body ++ 0 ∷ []) ∷ []) ++ [])
          >>= (λ r. parse_job_ids r.0.payload r.0.revision))
        ≡ ok (map pos (take 2 jobs)))
unfolding header padded decimal
job_list_lem_example =
    job_list_lem 2 2 jobs [] [] _ [] (omega arith) (omega arith)
      (omega arith, (omega arith, (omega arith, tt))) (inl (omega arith)) refl refl (omega arith)
      (last (header (20 + length job_text) 31 2 ++ job_text) [])
