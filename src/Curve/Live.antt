-- ===== src/Curve/Live.antt =====
-- system/monitor_curve_samples.py: `run_ws`, which counts the frames of a curve as they come. A round
-- of its loop is the time of the loop's test, what `recv` gave, and the time after it, in
-- milliseconds.
pub mod Frames
pub mod Counted
use sas_tests.Prelude.{
  ltb, leb, ◌==◌, if◌then◌else◌, length, get_elem?, ◌>>=◌, Error, Outcome, index_error,
  struct_error, ok, raised, ℕ, zero, suc, ◌+◌, ◌*◌, ◌/◌, ◌%◌, Bool, not, ◌&&◌, Option, none, some,
  List, [], ◌∷◌, ◌++◌,
}
use sas_tests.Prelude.Int.{ℤ, sub_ℕ}
use sas_tests.Curve.{last_of}

abbrev pub Bytes : Type 0
Bytes = List ℕ

pub data Received : Type 0 where
  bytes : Bytes → Received
  text : Received
  nothing : Received
  fails : Error → Received

pub record Round : Type 0 where
  pub before : ℕ
  pub received : Received
  pub now : ℕ

pub record Counters : Type 0 where
  pub frames : ℕ
  pub pts : ℕ
  pub last_idx : Option ℕ
  pub jumps : ℕ
  pub gaps : List ℤ
  pub t_last : Option ℕ

abbrev pub start : Counters
start = record { frames = 0; pts = 0; last_idx = none; jumps = 0; gaps = []; t_last = none }

-- A byte of a message, which is long enough.
abbrev pub byte : ℕ → Bytes → ℕ
byte i msg = elim (get_elem? msg i) [ none ↦ 0 | some b ↦ b ]

-- `struct.unpack_from("<H", msg, off)[0]`
unfoldable pub u16 : ℕ → Bytes → ℕ
u16 off msg = byte off msg + 256 * byte (off + 1) msg

-- `struct.unpack_from("<I", msg, off)[0]`
unfoldable pub u32 : ℕ → Bytes → ℕ
unfolding u16
u32 off msg = u16 off msg + 65536 * u16 (off + 2) msg

unfoldable pub words : ℕ → ℕ → Bytes → List ℕ
unfolding u32
words zero off msg = []
words (suc n) off msg = u32 off msg ∷ words n (off + 4) msg

-- `struct.unpack_from(f"<{n}I", msg, off)`
unfoldable pub unpack_words : ℕ → ℕ → Bytes → Outcome (List ℕ)
unfolding words
unpack_words n off msg =
    if ltb (length msg) (off + 4 * n) then raised struct_error else ok (words n off msg)

-- The test on what `recv` gave: 40 bytes or more that begin with `DCU1`.
unfoldable pub is_frame : Bytes → Bool
is_frame msg =
    not (ltb (length msg) 40)
    && (byte 0 msg == 68 && (byte 1 msg == 67 && (byte 2 msg == 85 && byte 3 msg == 49)))

-- `flags & 4`
unfoldable pub is_indexed : Bytes → Bool
unfolding u16
is_indexed msg = u16 6 msg / 4 % 2 == 1

-- `n`
unfoldable pub points : Bytes → ℕ
unfolding u32
points msg = u32 20 msg

-- `off`
unfoldable pub offset : Bytes → ℕ
unfolding points u16
offset msg = 40 + points msg * 8 + (if u16 6 msg % 2 == 1 then points msg * 4 else 0)

-- `if last_idx is not None and idx[0] <= last_idx: jumps += 1`
abbrev pub jumps_at : ℕ → Option ℕ → ℕ → ℕ
jumps_at i none jumps = jumps
jumps_at i (some l) jumps = if leb i l then jumps + 1 else jumps

-- `idx`: what is made of it where it is empty is an `IndexError`.
unfoldable pub with_indexes : List ℕ → Counters → Outcome Counters
unfolding last_of
with_indexes [] c = raised index_error
with_indexes (i ∷ is) c =
    ok (record c { jumps = jumps_at i c.last_idx c.jumps; last_idx = some (last_of i is) })

-- `if t_last: gaps.append((now - t_last) * 1000)`
abbrev pub gaps_at : ℕ → Option ℕ → List ℤ → List ℤ
gaps_at now none gaps = gaps
gaps_at now (some t) gaps = if t == 0 then gaps else gaps ++ sub_ℕ now t ∷ []

-- What follows the test, for a frame.
unfoldable pub count_frame : ℕ → Bytes → Counters → Outcome Counters
unfolding is_indexed points offset unpack_words with_indexes
count_frame now msg c =
    let c' = record c {
      frames = c.frames + 1;
      pts = c.pts + points msg;
      gaps = gaps_at now c.t_last c.gaps;
      t_last = some now;
    } in
    if is_indexed msg
    then unpack_words (points msg) (offset msg) msg >>= (λ idx. with_indexes idx c')
    else ok c'

-- The body of the loop.
unfoldable pub handle : ℕ → Received → Counters → Outcome Counters
unfolding is_frame count_frame
handle now nothing c = ok c
handle now text c = ok c
handle now (fails e) c = raised e
handle now (bytes msg) c = if is_frame msg then count_frame now msg c else ok c

-- The loop, up to the first test at `end` or later.
unfoldable pub run_ws : ℕ → List Round → Counters → Outcome Counters
unfolding handle
run_ws stop [] c = ok c
run_ws stop (r ∷ rs) c =
    if ltb r.before stop then handle r.now r.received c >>= run_ws stop rs else ok c
