-- ===== src/Constraints/Widened/Window.antt =====
-- The safety window after it has been widened.
use sas_tests.Prelude.{
  if◌then◌else◌, String, ◌≡◌, refl, sym, ap, ◌∙◌, Bool, true, false, Option, some, arith, str_eq,
  eq_refl,
}
use mathlib.Core.Path.{subst}
use sas_tests.Prelude.Int.{ℤ, ◌≤ℤ◌, ltb_ℤ, min_ℤ, max_ℤ}
use sas_tests.Json.{Json, Dict, num, get, put}
use sas_tests.Json.Laws.{get-put}
use sas_tests.Constraints.{as_float, min_of, max_of}
use sas_tests.Constraints.Widened.{new_min, new_max, fit_target, widen}

-- The least and the greatest of the old window and the constraint's.
around :
    (a b x y : ℤ)
    → x ≤ℤ y
    → let lo = min_ℤ a x in
      let hi = max_ℤ b y in ((lo ≤ℤ x) × (lo ≤ℤ a)) × (((y ≤ℤ hi) × (b ≤ℤ hi)) × (lo ≤ℤ hi))
around a b x y h = ground arith

as_float_num : (read : String → Option ℤ) (n : ℤ) → as_float read (some (num n)) ≡ n
unfolding as_float
as_float_num read n = refl

-- What the target is in the end.
fit_target_at :
    (read : String → Option ℤ) (key : String) (lo hi : ℤ) (d : Dict)
    → let cur = as_float read (get key d) in
      get key (fit_target read key lo hi d)
      ≡ (if ltb_ℤ hi cur then some (num hi) else if ltb_ℤ cur lo then some (num lo) else get key d)
unfolding fit_target
fit_target_at read key lo hi d = ground (
  arith,
  eq_refl key,
  get-put key key (num lo) d,
  get-put key key (num hi) d,
  get-put key key (num hi) (put key (num lo) d),
)

within :
    (lo hi cur : ℤ)
    → lo ≤ℤ hi
    → let t = if ltb_ℤ hi cur then hi else if ltb_ℤ cur lo then lo else cur in (lo ≤ℤ t) × (t ≤ℤ hi)
within lo hi cur h = ground arith

as_float-if :
    (read : String → Option ℤ) (a b : Bool) (m n : ℤ) (o : Option Json)
    → as_float read (if a then some (num m) else if b then some (num n) else o)
      ≡ (if a then m else if b then n else as_float read o)
unfolding as_float
as_float-if read true b m n o = refl
as_float-if read false true m n o = refl
as_float-if read false false m n o = refl

-- The target that is left.
fit_target_lem :
    (read : String → Option ℤ) (key : String) (lo hi : ℤ) (d : Dict)
    → lo ≤ℤ hi
    → let t = as_float read (get key (fit_target read key lo hi d)) in (lo ≤ℤ t) × (t ≤ℤ hi)
fit_target_lem read key lo hi d h =
    let cur = as_float read (get key d) in
    let e =
      ap (as_float read) (fit_target_at read key lo hi d)
      ∙ as_float-if read (ltb_ℤ hi cur) (ltb_ℤ cur lo) hi lo (get key d) in
    subst (λ t. (lo ≤ℤ t) × (t ≤ℤ hi)) (sym e) (within lo hi cur h)

fit_target_other :
    (read : String → Option ℤ) (key : String) (lo hi : ℤ) (d : Dict) (k : String)
    → str_eq key k ≡ false
    → get k (fit_target read key lo hi d) ≡ get k d
unfolding fit_target
fit_target_other read key lo hi d k h = ground (
  arith,
  get-put key k (num lo) d,
  get-put key k (num hi) d,
  get-put key k (num hi) (put key (num lo) d),
)

-- A constraint whose least value is not above its greatest, and three keys that are different: after
-- `_widen` the window at the first two keys has the range of the constraint and what it had before in
-- it, the target at the third lies in the window, and a fourth key has the value that it had.
pub widen_lem :
    (read : String → Option ℤ) (c : Dict) (key_min key_max key_target other : String) (d : Dict)
    → str_eq key_min key_max ≡ false
    → str_eq key_max key_min ≡ false
    → str_eq key_target key_min ≡ false
    → str_eq key_target key_max ≡ false
    → str_eq key_min other ≡ false
    → str_eq key_max other ≡ false
    → str_eq key_target other ≡ false
    → min_of read c ≤ℤ max_of read c
    → let d' = widen read (some c) key_min key_max key_target d in
      let lo = as_float read (get key_min d') in
      let hi = as_float read (get key_max d') in
      let target = as_float read (get key_target d') in
      ((lo ≤ℤ min_of read c) × (lo ≤ℤ as_float read (get key_min d)))
      × (((max_of read c ≤ℤ hi) × (as_float read (get key_max d) ≤ℤ hi))
          × (((lo ≤ℤ target) × (target ≤ℤ hi)) × (get other d' ≡ get other d)))
unfolding widen
widen_lem read c key_min key_max key_target other d a b e f g h i valid =
    let cur = as_float read (get key_min d) in
    let top = as_float read (get key_max d) in
    let lo = new_min read c key_min d in
    let hi = new_max read c key_max d in
    let d1 = put key_min (num lo) d in
    let d2 = put key_max (num hi) d1 in
    let (low, (high, order)) = around cur top (min_of read c) (max_of read c) valid in
    let at_min : get key_min (fit_target read key_target lo hi d2) ≡ some (num lo) =
      fit_target_other read key_target lo hi d2 key_min e
      ∙ ground (
        arith,
        b,
        eq_refl key_min,
        get-put key_max key_min (num hi) d1,
        get-put key_min key_min (num lo) d,
      ) in
    let at_max : get key_max (fit_target read key_target lo hi d2) ≡ some (num hi) =
      fit_target_other read key_target lo hi d2 key_max f
      ∙ ground (arith, eq_refl key_max, get-put key_max key_max (num hi) d1) in
    let elsewhere : get other (fit_target read key_target lo hi d2) ≡ get other d =
      fit_target_other read key_target lo hi d2 other i
      ∙ ground (arith, g, h, get-put key_max other (num hi) d1, get-put key_min other (num lo) d) in
    let settled = fit_target_lem read key_target lo hi d2 order in
    rw (at_min, at_max, elsewhere) (low, (high, (settled, refl)))
