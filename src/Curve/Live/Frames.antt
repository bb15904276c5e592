-- ===== src/Curve/Live/Frames.antt =====
-- What `run_ws` makes of one frame.
use sas_tests.Prelude.{
  ltb, leb, if◌then◌else◌, Bool-cases, length, ◌>>=◌, ok, ℕ, zero, suc, ◌+◌, ◌-◌, ◌*◌, ◌≡◌, ap, ◌∙◌,
  inl, inr, Bool, true, false, ◌&&◌, Option, none, some, List, [], ◌∷◌, arith,
}
use sas_tests.Prelude.Int.{ℤ, sub_ℕ}
use sas_tests.Curve.{last_of}
use sas_tests.Curve.Live.{
  Bytes, Received, bytes, text, nothing, fails, Round, Counters, u32, words, unpack_words, is_frame,
  is_indexed, points, offset, jumps_at, with_indexes, gaps_at, count_frame,
}

-- The frames that are handled before the end, with their times.
abbrev pub heard_in : ℕ → Received → List (ℕ × Bytes) → List (ℕ × Bytes)
heard_in now (bytes msg) hs = if is_frame msg then (now, msg) ∷ hs else hs
heard_in now text hs = hs
heard_in now nothing hs = hs
heard_in now (fails e) hs = hs

unfoldable pub heard : ℕ → List Round → List (ℕ × Bytes)
heard stop [] = []
heard stop (r ∷ rs) = if ltb r.before stop then heard_in r.now r.received (heard stop rs) else []

-- Whether `recv` raised nothing but a timeout.
abbrev pub is_calm : Received → Bool
is_calm (fails e) = false
is_calm (bytes msg) = true
is_calm text = true
is_calm nothing = true

-- Whether a frame that says that it has indexes has them, and one at least.
abbrev pub is_whole : Bytes → Bool
is_whole msg =
    if is_indexed msg
    then leb 1 (points msg) && leb (offset msg + 4 * points msg) (length msg)
    else true

-- The first and the last index of a frame.
abbrev pub first_index : Bytes → ℕ
first_index msg = u32 (offset msg) msg

abbrev pub last_index : Bytes → ℕ
last_index msg = u32 (offset msg + 4 * (points msg - 1)) msg

-- One for a frame that does not begin after the index `l`, and zero for one that does.
abbrev pub steps_back : ℕ → Option ℕ → ℕ
steps_back i none = 0
steps_back i (some l) = if ltb l i then 0 else 1

-- The frames, in their order, that do not begin after the last index of the indexed frame before.
abbrev pub backward : Option ℕ → List Bytes → ℕ
backward l [] = 0
backward l (msg ∷ ms) =
    if is_indexed msg
    then steps_back (first_index msg) l + backward (some (last_index msg)) ms
    else backward l ms

abbrev pub latest : Option ℕ → List Bytes → Option ℕ
latest l [] = l
latest l (msg ∷ ms) = latest (if is_indexed msg then some (last_index msg) else l) ms

-- The times from one frame to the next.
abbrev pub gaps_from : Option ℕ → List ℕ → List ℤ
gaps_from l [] = []
gaps_from none (u ∷ us) = gaps_from (some u) us
gaps_from (some t) (u ∷ us) = sub_ℕ u t ∷ gaps_from (some u) us

last-words :
    (n off : ℕ) (msg : Bytes)
    → last_of (u32 off msg) (words n (off + 4) msg) ≡ u32 (off + 4 * n) msg
unfolding last_of words
last-words zero off msg = ap (λ i. u32 i msg) (omega arith)
last-words (suc n) off msg = last-words n (off + 4) msg ∙ ap (λ i. u32 i msg) (omega arith)

-- What a whole frame adds.
abbrev pub counted : ℕ → Bytes → Counters → Counters
counted now msg c = record {
  frames = c.frames + 1;
  pts = c.pts + points msg;
  last_idx = latest c.last_idx (msg ∷ []);
  jumps = c.jumps + backward c.last_idx (msg ∷ []);
  gaps = gaps_at now c.t_last c.gaps;
  t_last = some now;
}

jumps_at_lem :
    (i : ℕ) (l : Option ℕ) (jumps : ℕ) → jumps_at i l jumps ≡ jumps + (steps_back i l + 0)
jumps_at_lem i none jumps = omega arith
jumps_at_lem i (some l) jumps = ground arith

indexed_lem :
    (n : ℕ) (msg : Bytes) (c : Counters)
    → leb 1 n ≡ true
    → leb (offset msg + 4 * n) (length msg) ≡ true
    → (unpack_words n (offset msg) msg >>= (λ idx. with_indexes idx c))
      ≡ ok (record c {
        jumps = jumps_at (first_index msg) c.last_idx c.jumps;
        last_idx = some (u32 (offset msg + 4 * (n - 1)) msg);
      })
unfolding unpack_words words with_indexes
indexed_lem zero msg c h k = cc
indexed_lem (suc n) msg c h k = ground (arith, last-words n (offset msg) msg)

abbrev added : ℕ → Bytes → Counters → Counters
added now msg c = record c {
  frames = c.frames + 1;
  pts = c.pts + points msg;
  gaps = gaps_at now c.t_last c.gaps;
  t_last = some now;
}

pub count_frame_lem :
    (now : ℕ) (msg : Bytes) (c : Counters)
    → is_whole msg ≡ true
    → count_frame now msg c ≡ ok (counted now msg c)
unfolding count_frame
count_frame_lem now msg c h = elim (Bool-cases (is_indexed msg)) [
  | inl yes' ↦ ground (
    arith,
    yes',
    indexed_lem (points msg) msg (added now msg c),
    jumps_at_lem (first_index msg) c.last_idx c.jumps,
  )
  | inr no' ↦ ground (arith, no')
]
