-- ===== src/Curve.antt =====
-- system/monitor_curve_samples.py: `analyze`, which counts the samples of a job's curve. The times
-- are floating-point numbers; what the function computes from them are parameters.
pub mod Runs
pub mod Live
pub mod Stored
use sas_tests.Prelude.{
  if◌then◌else◌, length, Outcome, zero_division, ok, raised, ℕ, ◌+◌, Bool, Option, none, some, List,
  [], ◌∷◌, ◌++◌,
}

-- `t[-1]`, of a list that begins with the first argument.
unfoldable pub last_of {ℓ} : {A : Type ℓ} → A → List A → A
last_of t [] = t
last_of t (u ∷ us) = last_of u us

-- What the loop has at an index: `runs`, `gaps`, in their order, and `run`.
pub record Counted (T : Type 0) : Type 0 where
  pub runs : List ℕ
  pub gaps : List T
  pub run : ℕ

-- What the printed line is made from.
pub record Report (T : Type 0) : Type 0 where
  pub points : ℕ
  pub span : T
  pub runs : List ℕ
  pub gaps : List T

-- On floating-point numbers: `x - y`, `x * 1000`, `x < 3`, and whether `x` is zero.
module _ {T : Type 0} (minus : T → T → T) (thousandfold : T → T) (below_3 is_zero : T → Bool) where
  -- `dt`, from `t[k - 1]` and `t[k]`
  abbrev pub dt : T → T → T
  dt before t = thousandfold (minus t before)

  -- The loop over the indexes; the first argument is `t[k - 1]`.
  unfoldable pub count_runs : T → List T → Counted T → Counted T
  count_runs before [] c = c
  count_runs before (t ∷ ts) c =
      let joined = count_runs t ts (record c { run = c.run + 1 }) in
      let parted =
        count_runs t ts
          (record { runs = c.runs ++ c.run ∷ []; gaps = c.gaps ++ dt before t ∷ []; run = 1 }) in
      if below_3 (dt before t) then joined else parted

  -- `analyze`: nothing to report below two samples; the rate divides by the span.
  unfoldable pub analyze : List T → Outcome (Option (Report T))
  unfolding count_runs last_of
  analyze [] = ok none
  analyze (t ∷ []) = ok none
  analyze (t ∷ u ∷ us) =
      let c = count_runs t (u ∷ us) (record { runs = []; gaps = []; run = 1 }) in
      let span = minus (last_of t (u ∷ us)) t in
      if is_zero span
      then raised zero_division
      else ok (
          some (record {
            points = length (t ∷ u ∷ us);
            span = span;
            runs = c.runs ++ c.run ∷ [];
            gaps = c.gaps;
          }))
