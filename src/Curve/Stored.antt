-- ===== src/Curve/Stored.antt =====
-- system/monitor_curve_samples.py: `run_db`, which reports the last curves of the database.
use sas_tests.Prelude.{
  ◌==◌, if◌then◌else◌, ◌>>=◌, Outcome, ok, ℕ, String, Bool, false, Option, none, some, List, [],
  ◌∷◌,
}
use sas_tests.Prelude.Text.{str_nat, ◌<>◌}
use sas_tests.Remote.{PrintedText}
use sas_tests.Remote.Calls.{split_lines}
use sas_tests.Curve.{Report, analyze}

-- `HOST`, `USER` and `KEY`
pub record Target : Type 0 where
  pub host : String
  pub user : String
  pub key : String

-- `sql`, and the command that runs it.
abbrev pub sql : ℕ → String
sql n = "select ID||'|'||Plot_Data from Job_Data order by ID desc limit " <> str_nat n

abbrev pub command : Target → ℕ → List String
command t n =
    "ssh"
    ∷ "-i"
    ∷ t.key
    ∷ "-o"
    ∷ "BatchMode=yes"
    ∷ (t.user <> "@" <> t.host)
    ∷ ("sqlite3 -readonly /home/pi/backend/data/SAS.db \"" <> sql n <> "\"")
    ∷ []

-- `line.split("|", 1)`, where the line has a bar.
unfoldable pub split_bar : PrintedText → Option (PrintedText × PrintedText)
split_bar [] = none
split_bar (c ∷ s) =
    let rest = split_bar s in
    if c == 124 then some ([], s) else elim rest [ none ↦ none | some (i, p) ↦ some (c ∷ i, p) ]

-- The arithmetic is that of `analyze`.
module _ {T : Type 0} (minus : T → T → T) (thousandfold : T → T) (below_3 is_zero : T → Bool) where
  -- The loop over the lines; `times_of` stands for what `json.loads` and `get` make of a curve. An
  -- exception ends it, without what it had printed before.
  unfoldable pub report_lines :
      (PrintedText → Outcome (List T))
      → List PrintedText
      → Outcome (List (PrintedText × Option (Report T)))
  unfolding split_bar analyze
  report_lines times_of [] = ok []
  report_lines times_of (line ∷ lines) =
      let rest = report_lines times_of lines in
      elim (split_bar line) [
        | none ↦ rest
        | some (i, p) ↦ times_of p >>= analyze minus thousandfold below_3 is_zero >>= λ r.
            rest >>= λ rs. ok ((i, r) ∷ rs)
      ]

  -- `run_db`, given what the command prints, or the exception of `check=True`.
  unfoldable pub run_db :
      (List String → Outcome PrintedText)
      → (PrintedText → Outcome (List T))
      → Target
      → ℕ
      → Outcome (List (PrintedText × Option (Report T)))
  unfolding split_lines report_lines
  run_db run times_of t n =
      run (command t n) >>= λ out. report_lines times_of (split_lines [] false out)
