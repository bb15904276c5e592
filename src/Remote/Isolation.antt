-- ===== src/Remote/Isolation.antt =====
-- lib/db_isolation.py and lib/log_collector.py.
use sas_tests.Prelude.{
  replicate, Error, Outcome, ok, raised, ℕ, Bool, true, false, Option, none, some, ◌∷◌, ◌++◌,
}
use sas_tests.Prelude.Text.{◌<>◌, codes}
use sas_tests.Remote.{Host, Backend, Act, PrintedText, World, run, then_do, db_path}
use sas_tests.Remote.Calls.{
  stop_backend, start_backend, backup_database, restore_database, get_backend_log,
}
use sas_tests.Remote.Starting.{wait_until_ready}

-- The assignment after the backup.
abbrev pub taken_after {ℓ} :
    {M : Type ℓ} → Bool → Outcome (Unit {0}) × World M → Outcome (Unit {0}) × Bool × World M
taken_after taken (ok u, w) = (ok tt, true, w)
taken_after taken (raised e, w) = (raised e, taken, w)

module _ {ℓ} {M : Type ℓ} (h : Host M) (b : Backend) where
  -- `snapshot`: what it raises or returns, and `_snapshot_taken` after it.
  unfoldable pub snapshot : Bool → World M → Outcome (Unit {0}) × Bool × World M
  unfolding backup_database
  snapshot taken w = taken_after taken (backup_database h b w)

  -- `restore`
  unfoldable pub restore : Bool → Act M (Unit {0})
  unfolding stop_backend restore_database start_backend then_do
  restore false w = (ok tt, w)
  restore true w =
      then_do (stop_backend h b w)
        λ _ w1. then_do (restore_database h b w1) λ _ w2. start_backend h b w2

  -- `use_clean_db`: `none` stands for a wait that the fuel cut short.
  unfoldable pub use_clean_db :
      (ℕ → Bool) → (ℕ → ℕ) → (ℕ → ℕ) → ℕ → ℕ → World M → Option (Outcome (Unit {0}) × World M)
  unfolding stop_backend start_backend run then_do wait_until_ready
  use_clean_db opens takes late fuel now w =
      let (r, w') =
        then_do (stop_backend h b w)
          λ _ w1. then_do (run h b ("rm -f " <> db_path) w1) λ _ w2. start_backend h b w2 in
      elim r [
        | raised e ↦ some (raised e, w')
        | ok u ↦ elim (wait_until_ready opens takes late fuel 30000 now) [
          | none ↦ none
          | some waited ↦ some (waited, w')
        ]
      ]

  -- `capture`: `shown` is the text of an exception.
  unfoldable pub capture : (Error → PrintedText) → ℕ → World M → PrintedText × World M
  unfolding get_backend_log
  capture shown lines w =
      let (r, w') = get_backend_log h b lines w in
      elim r [
        | ok log ↦ (log, w')
        | raised e ↦ (codes "[LogCollector] Failed to capture log: " ++ shown e, w')
      ]

-- `format_for_report`
unfoldable pub format_for_report : PrintedText → PrintedText
format_for_report log_content =
    let separator = replicate 60 61 in
    10 ∷ separator
    ++ codes "\nBACKEND LOG (last 50 lines)\n"
    ++ separator
    ++ 10 ∷ log_content
    ++ 10 ∷ separator
