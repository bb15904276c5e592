-- ===== src/Curve/Live/Counted.antt =====
-- What `run_ws` counts.
use sas_tests.Prelude.{
  ltb, leb, if◌then◌else◌, Bool-cases, length, All, ◌>>=◌, ok, ℕ, ◌+◌, ◌≤◌, ◌≡◌, refl, sym, ◌∙◌,
  inl, inr, Bool, true, false, Option, none, some, List, [], ◌∷◌, ◌++◌, map, append-nil,
  append_assoc, arith,
}
use sas_tests.Prelude.Int.{ℤ, sub_ℕ}
use sas_tests.Curve.Runs.{total}
use sas_tests.Curve.Live.{
  Bytes, Received, bytes, text, nothing, fails, Round, Counters, start, is_frame, is_indexed,
  points, gaps_at, count_frame, handle, run_ws,
}
use sas_tests.Curve.Live.Frames.{
  heard_in, heard, is_calm, is_whole, backward, latest, gaps_from, counted, count_frame_lem,
}

abbrev pub messages : List (ℕ × Bytes) → List Bytes
messages hs = map (λ h. h.1) hs

abbrev pub times : List (ℕ × Bytes) → List ℕ
times hs = map (λ h. h.0) hs

-- What some frames add.
record Counts (hs : List (ℕ × Bytes)) (c c' : Counters) : Type 0 where
  frames : c'.frames ≡ c.frames + length hs
  pts : c'.pts ≡ c.pts + total (map points (messages hs))
  jumps : c'.jumps ≡ c.jumps + backward c.last_idx (messages hs)
  gaps : c'.gaps ≡ c.gaps ++ gaps_from c.t_last (times hs)

abbrev is_set : Option ℕ → Bool
is_set none = true
is_set (some t) = leb 1 t

gaps_at_set :
    (now : ℕ) (l : Option ℕ) (us : List ℕ) (gaps : List ℤ)
    → is_set l ≡ true
    → gaps_at now l gaps ++ gaps_from (some now) us ≡ gaps ++ gaps_from l (now ∷ us)
gaps_at_set now none us gaps h = refl
gaps_at_set now (some t) us gaps h =
    ground (arith, append_assoc gaps (sub_ℕ now t ∷ []) (gaps_from (some now) us))

backward_cons :
    (l : Option ℕ) (msg : Bytes) (ms : List Bytes)
    → backward l (msg ∷ ms) ≡ backward l (msg ∷ []) + backward (latest l (msg ∷ [])) ms
backward_cons l msg ms = elim (Bool-cases (is_indexed msg)) [
  | inl yes' ↦ ground arith
  | inr no' ↦ ground arith
]

Counts-cons :
    {c c' : Counters} (now : ℕ) (msg : Bytes) (hs : List (ℕ × Bytes))
    → is_set c.t_last ≡ true
    → Counts hs (counted now msg c) c'
    → Counts ((now, msg) ∷ hs) c c'
Counts-cons {c} {c'} now msg hs h k = record {
  frames = omega (arith, k.frames);
  pts = omega (arith, k.pts);
  jumps = omega (arith, k.jumps, backward_cons c.last_idx msg (messages hs));
  gaps = k.gaps ∙ gaps_at_set now c.t_last (times hs) c.gaps h;
}

Counts-nil : (c : Counters) → Counts [] c c
Counts-nil c = record {
  frames = omega arith;
  pts = omega arith;
  jumps = omega arith;
  gaps = sym (append-nil c.gaps);
}

-- What the loop needs of a round.
abbrev pub IsFair : Round → Type 0
IsFair r = (is_calm r.received ≡ true) × (1 ≤ r.now)

abbrev Ran : ℕ → List Round → List (ℕ × Bytes) → Counters → Type 0
Ran stop rs hs c = (c' : Counters) × ((run_ws stop rs c ≡ ok c') × Counts hs c c')

abbrev AllWhole : List (ℕ × Bytes) → Type 0
AllWhole = All (λ h. is_whole h.1 ≡ true)

received_lem :
    (stop now : ℕ) (x : Received) (rs : List Round) (c : Counters)
    → is_calm x ≡ true
    → 1 ≤ now
    → is_set c.t_last ≡ true
    → AllWhole (heard_in now x (heard stop rs))
    → ((k : Counters)
        → is_set k.t_last ≡ true
        → AllWhole (heard stop rs)
        → Ran stop rs (heard stop rs) k)
    → (c' : Counters) × (((handle now x c >>= run_ws stop rs) ≡ ok c')
        × Counts (heard_in now x (heard stop rs)) c c')
unfolding handle
received_lem stop now nothing rs c calm late h whole go = go c h whole
received_lem stop now text rs c calm late h whole go = go c h whole
received_lem stop now (fails e) rs c calm late h whole go = cc
received_lem stop now (bytes msg) rs c calm late h whole go = by_frame (is_frame msg) whole
  where
    by_frame :
        (b : Bool)
        → AllWhole (if b then (now, msg) ∷ heard stop rs else heard stop rs)
        → (c' : Counters) × ((((if b then count_frame now msg c else ok c) >>= run_ws stop rs)
              ≡ ok c')
            × Counts (if b then (now, msg) ∷ heard stop rs else heard stop rs) c c')
    by_frame false all = go c h all
    by_frame true all =
        let (c', (e, k)) = go (counted now msg c) (ground arith) all.1 in
        (c', (rw (count_frame_lem now msg c all.0) e, Counts-cons now msg (heard stop rs) h k))

ran_lem :
    (stop : ℕ) (rs : List Round) (c : Counters)
    → is_set c.t_last ≡ true
    → All IsFair rs
    → AllWhole (heard stop rs)
    → Ran stop rs (heard stop rs) c
unfolding run_ws heard
ran_lem stop [] c h fair whole = (c, (refl, Counts-nil c))
ran_lem stop (r ∷ rs) c h fair whole =
    by_time (λ k set rest. ran_lem stop rs k set fair.1 rest) (ltb r.before stop) whole
  where
    by_time :
        ((k : Counters)
          → is_set k.t_last ≡ true
          → AllWhole (heard stop rs)
          → Ran stop rs (heard stop rs) k)
        → (b : Bool) → AllWhole (if b then heard_in r.now r.received (heard stop rs) else [])
        → (c' : Counters) × (((if b then handle r.now r.received c >>= run_ws stop rs else ok c)
              ≡ ok c')
            × Counts (if b then heard_in r.now r.received (heard stop rs) else []) c c')
    by_time go false all = (c, (refl, Counts-nil c))
    by_time go true all = received_lem stop r.now r.received rs c fair.0.0 fair.0.1 h all go

-- Where `recv` raises nothing but timeouts, the clock is not at zero, and every frame before the end
-- that says that it has indexes has at least one and all of them, `run_ws` reports: the frames before
-- the end, the sum of the point numbers in their headers, the times between one frame and the next,
-- and as jumps the indexed frames whose first index is not after the last index of the indexed frame
-- before.
pub run_ws_lem :
    (stop : ℕ) (rs : List Round)
    → All IsFair rs
    → All (λ h. is_whole h.1 ≡ true) (heard stop rs)
    → let hs = heard stop rs in
      (c : Counters) × ((run_ws stop rs start ≡ ok c)
        × ((c.frames ≡ length hs)
            × ((c.pts ≡ total (map points (messages hs)))
                × ((c.jumps ≡ backward none (messages hs))
                    × (c.gaps ≡ gaps_from none (times hs))))))
run_ws_lem stop rs fair whole =
    let (c, (e, k)) = ran_lem stop rs start refl fair whole in
    (c, (e, (omega (arith, k.frames), (omega (arith, k.pts), (omega (arith, k.jumps), k.gaps)))))
