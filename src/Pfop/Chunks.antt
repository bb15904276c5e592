-- ===== src/Pfop/Chunks.antt =====
-- The loop of `recv_frame` over a stream that is cut into chunks.
use sas_tests.Prelude.{
  ok, ℕ, ◌≡◌, refl, sym, ap, ◌∙◌, true, false, ◌||◌, List, [], ◌∷◌, ◌++◌, append_assoc, arith,
}
use sas_tests.Pfop.{Bytes, Frame, has_nul, before_nul, gather, parse_body, finish, recv_frame}

-- A stream that begins with the bytes `xs` and a NUL, cut into chunks that are not empty: the NUL is
-- in the last chunk, with whatever follows it.
pub data Cut : Bytes → Bytes → List Bytes → Type 0 where
  last : (xs extra : Bytes) → Cut xs extra ((xs ++ 0 ∷ extra) ∷ [])
  more :
      (c : ℕ) (s xs ys extra : Bytes) (cs : List Bytes)
      → xs ≡ (c ∷ s) ++ ys
      → Cut ys extra cs
      → Cut xs extra ((c ∷ s) ∷ cs)

has_nul-append : (xs ys : Bytes) → has_nul (xs ++ ys) ≡ (has_nul xs || has_nul ys)
has_nul-append [] ys = refl
has_nul-append (x ∷ xs) ys = ground (arith, has_nul-append xs ys)

gather_chunk :
    (buf chunk : Bytes) (cs : List Bytes)
    → has_nul chunk ≡ true
    → gather buf (chunk ∷ cs) ≡ ok (buf ++ chunk, cs)
unfolding gather
gather_chunk buf [] cs h = cc
gather_chunk buf (c ∷ s) cs h = rw (h, gather)

gather_more :
    (buf : Bytes) (c : ℕ) (s : Bytes) (cs : List Bytes)
    → has_nul (c ∷ s) ≡ false
    → gather buf ((c ∷ s) ∷ cs) ≡ gather (buf ++ c ∷ s) cs
unfolding gather
gather_more buf c s cs h = rw (h, gather)

gather-Cut :
    (buf : Bytes) {xs extra : Bytes} {cs : List Bytes} (rest : List Bytes)
    → Cut xs extra cs
    → has_nul xs ≡ false
    → gather buf (cs ++ rest) ≡ ok (buf ++ (xs ++ 0 ∷ extra), rest)
gather-Cut buf rest (last xs extra) h =
    gather_chunk buf (xs ++ 0 ∷ extra) rest (ground (arith, has_nul-append xs (0 ∷ extra)))
gather-Cut buf rest (more c s xs ys extra cs e cut) h =
    let no : (has_nul (c ∷ s) || has_nul ys) ≡ false =
      sym (has_nul-append (c ∷ s) ys) ∙ ap has_nul (sym e) ∙ h in
    gather_more buf c s (cs ++ rest) (ground arith)
    ∙ gather-Cut (buf ++ c ∷ s) rest cut (ground arith)
    ∙ ap (λ l. ok (l, rest))
        (append_assoc buf (c ∷ s) (ys ++ 0 ∷ extra)
          ∙ ap (λ l. buf ++ l)
              (sym (append_assoc (c ∷ s) ys (0 ∷ extra)) ∙ ap (λ l. l ++ 0 ∷ extra) (sym e)))

before_nul-append : (xs extra : Bytes) → has_nul xs ≡ false → before_nul (xs ++ 0 ∷ extra) ≡ xs
unfolding before_nul
before_nul-append [] extra h = refl
before_nul-append (x ∷ xs) extra h = ground (arith, before_nul-append xs extra)

pub finish_lem :
    (body extra : Bytes) (rest : List Bytes) (frame : Frame)
    → has_nul body ≡ false
    → parse_body body ≡ ok frame
    → finish (body ++ 0 ∷ extra, rest) ≡ ok (frame, rest)
unfolding finish
finish_lem body extra rest frame clean parsed =
    let found : has_nul (body ++ 0 ∷ extra) ≡ true =
      ground (arith, has_nul-append body (0 ∷ extra)) in
    rw (found, before_nul-append body extra clean, parsed)

-- A frame that parses is received whole, and the chunks behind it are left.
pub recv_frame-Cut :
    (body extra : Bytes) (cs rest : List Bytes) (frame : Frame)
    → has_nul body ≡ false
    → parse_body body ≡ ok frame
    → Cut body extra cs
    → recv_frame true (cs ++ rest) ≡ ok (frame, rest)
unfolding recv_frame
recv_frame-Cut body extra cs rest frame clean parsed cut =
    rw (gather-Cut [] rest cut clean) (finish_lem body extra rest frame clean parsed)
