-- ===== src/Factory/Steps.antt =====
-- The steps of the screw payloads and their number.
use sas_tests.Prelude.{
  ltb, if◌then◌else◌, length, ℕ, zero, suc, ◌+◌, ◌*◌, ◌%◌, ◌≤◌, ◌≡◌, refl, ap, ◌∙◌, some, List, [],
  ◌∷◌, arith,
}
use mathlib.Core.Path.{subst}
use sas_tests.Prelude.Int.{pos}
use sas_tests.Json.{Json, Dict, obj, int, dict, get, from_list, to_list}
use sas_tests.Factory.Screw.{with_steps, base_step, for_range, clamp_count, base_detail_params}
use sas_tests.Factory.Random.{random_step, random_steps, random, random_detail}
use sas_tests.Factory.Windows.{at, detail, steps}

-- The steps are numbered from `k` on.
abbrev pub Numbered : ℕ → List Json → Type 0
Numbered k [] = Unit {0}
Numbered k (obj s ∷ xs) = (get "screw_step" s ≡ some (int k)) × Numbered (k + 1) xs
Numbered k (_ ∷ xs) = ⊥

-- A payload has as many steps as its `prog_cnt` says, from one to eight, and they are numbered from 1.
pub record IsCounted (p : Dict) : Type 0 where
  pub count : ℕ
  pub told : at "prog_cnt" (detail p) ≡ some (pos (count * 1000))
  pub held : length (to_list (steps p)) ≡ count
  pub bounds : (1 ≤ count) × (count ≤ 8)
  pub numbered : Numbered 1 (to_list (steps p))

pub to_list-from_list : (xs : List Json) → to_list (from_list xs) ≡ xs
to_list-from_list [] = refl
to_list-from_list (x ∷ xs) = ap (λ l. x ∷ l) (to_list-from_list xs)

length-for_range : (f : ℕ → Json) (n start : ℕ) → length (for_range f n start) ≡ n
unfolding for_range
length-for_range f zero start = refl
length-for_range f (suc n) start = ap suc (length-for_range f n (suc start))

plain_steps-Numbered :
    (n start : ℕ) → Numbered (start + 1) (for_range (λ i. obj (base_step i (dict []))) n start)
unfolding for_range base_step get
plain_steps-Numbered zero start = tt
plain_steps-Numbered (suc n) start = (
  refl,
  subst (λ k. Numbered k (for_range (λ i. obj (base_step i (dict []))) n (suc start))) (omega arith)
      (plain_steps-Numbered n (suc start)),
)

-- The nearest number from one to eight.
abbrev pub nearest : ℕ → ℕ
nearest zero = 1
nearest (suc n) = if ltb n 8 then suc n else 8

clamp_lem : (n : ℕ) → clamp_count n 8 ≡ nearest n
unfolding clamp_count
clamp_lem zero = ground arith
clamp_lem (suc n) = ground arith

-- The payload of `with_steps` has the number of steps that was asked for, where that is from one to
-- eight, and else the nearest of these; its `prog_cnt` says so, and the steps are numbered from 1.
pub with_steps-IsCounted :
    (spec_id step_count : ℕ)
    → let p = with_steps spec_id step_count in
      IsCounted p × (length (to_list (steps p)) ≡ nearest step_count)
unfolding with_steps base_detail_params get
with_steps-IsCounted spec_id step_count =
    let n = clamp_count step_count 8 in
    let xs = for_range (λ i. obj (base_step i (dict []))) n 0 in
    let held = ap length (to_list-from_list xs) ∙ length-for_range _ n 0 in
    (
      record {
        count = n;
        told = refl;
        held = held;
        bounds = ground arith;
        numbered = rw (to_list-from_list xs) (plain_steps-Numbered n 0);
      },
      held ∙ clamp_lem step_count,
    )

random_steps-Numbered :
    (n start : ℕ) (source : ℕ → ℕ) (m : ℕ)
    → let xs = (random_steps n start source m).0 in (length xs ≡ n) × Numbered (start + 1) xs
unfolding random_steps get
random_steps-Numbered zero start source m = (refl, tt)
random_steps-Numbered (suc n) start source m =
    let rest = random_steps-Numbered n (suc start) source (random_step start source m).1 in
    let e : suc start + 1 ≡ start + 1 + 1 = omega arith in
    (
      ap suc rest.0,
      (
        refl,
        subst
            (λ k. Numbered k ((random_steps n (suc start) source (random_step start source m).1).0))
            e rest.1,
      ),
    )

-- Whatever the draws, a payload of `random` has as many steps as its `prog_cnt` says, from one to
-- eight, and they are numbered from 1.
pub random-IsCounted :
    (spec_id : ℕ) (source : ℕ → ℕ) (n : ℕ) → IsCounted (random spec_id source n).0
unfolding random random_detail get
random-IsCounted spec_id source n =
    let count = 1 + source n % 8 in
    let rest = random_steps-Numbered count 0 source _ in
    record {
      count = count;
      told = refl;
      held = ap length (to_list-from_list _) ∙ rest.0;
      bounds = omega arith;
      numbered = rw (to_list-from_list _) rest.1;
    }
