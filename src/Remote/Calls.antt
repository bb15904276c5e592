-- ===== src/Remote/Calls.antt =====
-- lib/ssh_utils.py: the calls on the backend's service, log, database and MCU dump. JSON's own
-- library is a parameter.
use sas_tests.Prelude.{
  leb, ◌==◌, if◌then◌else◌, length, Outcome, runtime_error, ok, raised, ℕ, String, Bool, true,
  false, ◌&&◌, ◌||◌, Option, none, some, List, [], ◌∷◌,
}
use mathlib.Core.List.{reverse}
use sas_tests.Prelude.Int.{ℤ, pos, eqb_ℤ}
use sas_tests.Prelude.Text.{codes, str_nat, ◌<>◌}
use sas_tests.Json.{Json, nil, arr}
use sas_tests.Pfop.Decimal.{strip, int_of}
use sas_tests.Remote.{
  Host, Backend, Act, PrintedText, Reply, exec, run, then_do, ensure_connected, service_name,
  db_path, log_path, backup_path, dump_mcu_script,
}

-- `stdout.strip()`, then `if pid and pid != "0": return int(pid)`
unfoldable pub pid_of : PrintedText → Outcome (Option ℤ)
unfolding int_of
pid_of [] = ok none
pid_of (c ∷ s) = elim (c == 48 && leb (length s) 0) [
  | true ↦ ok none
  | false ↦ elim (int_of (c ∷ s)) [ raised e ↦ raised e | ok n ↦ ok (some n) ]
]

-- Whether a text begins with the words, and whether it has them within.
abbrev pub begins : PrintedText → PrintedText → Bool
begins [] s = true
begins (c ∷ t) [] = false
begins (c ∷ t) (d ∷ s) = c == d && begins t s

abbrev pub has_within : PrintedText → PrintedText → Bool
has_within t [] = begins t []
has_within t (c ∷ s) = begins t (c ∷ s) || has_within t s

-- What ends a line for `str.splitlines`.
abbrev pub is_break : ℕ → Bool
is_break c =
    (leb 10 c && leb c 13) || ((leb 28 c && leb c 30) || (c == 133 || (c == 8232 || c == 8233)))

-- `str.splitlines`: the line so far, reversed, and whether a carriage return stands just before.
unfoldable pub split_lines : PrintedText → Bool → PrintedText → List PrintedText
split_lines [] after [] = []
split_lines (c ∷ line) after [] = reverse (c ∷ line) ∷ []
split_lines line after (c ∷ s) =
    let skipped = split_lines line false s in
    let next = split_lines [] (c == 13) s in
    let longer = split_lines (c ∷ line) false s in
    if after && c == 10 then skipped else if is_break c then reverse line ∷ next else longer

-- `line.split(":")[-1]`
unfoldable pub last_part : PrintedText → PrintedText → PrintedText
last_part part [] = part
last_part part (c ∷ s) =
    let here = last_part s s in let later = last_part part s in if c == 58 then here else later

-- The loop over the lines that the dump script prints.
unfoldable pub saved_path : PrintedText → List PrintedText → PrintedText
unfolding last_part strip
saved_path path [] = path
saved_path path (line ∷ lines) =
    let rest = saved_path path lines in
    if has_within (codes "原始二进制已保存") line then strip (last_part line line) else rest

-- `f"sudo systemctl {verb} {self.SERVICE_NAME}"`, and a copy of a file to a path.
abbrev pub systemctl : String → String
systemctl verb = "sudo systemctl " <> verb <> " " <> service_name

abbrev pub cp_command : String → String → String
cp_command from to = "cp " <> from <> " " <> to

module _ {ℓ} {M : Type ℓ} (h : Host M) (b : Backend) where
  unfoldable pub restart_backend : Act M (Unit {0})
  unfolding run
  restart_backend = run h b (systemctl "restart")

  unfoldable pub stop_backend : Act M (Unit {0})
  unfolding run
  stop_backend = run h b (systemctl "stop")

  unfoldable pub start_backend : Act M (Unit {0})
  unfolding run
  start_backend = run h b (systemctl "start")

  unfoldable pub kill_backend : Act M (Unit {0})
  unfolding run
  kill_backend = run h b ("sudo systemctl kill -s KILL " <> service_name)

  unfoldable pub get_backend_pid : Act M (Option ℤ)
  unfolding exec then_do pid_of strip
  get_backend_pid w =
      then_do (exec h b ("systemctl show -p MainPID --value " <> service_name) w)
        λ r w'. (pid_of (strip r.stdout), w')

  unfoldable pub is_backend_running : Act M Bool
  unfolding exec then_do
  is_backend_running w =
      then_do (exec h b ("systemctl is-active " <> service_name) w)
        λ r w'. (ok (eqb_ℤ r.exit_code (pos 0)), w')

  unfoldable pub get_backend_log : ℕ → Act M PrintedText
  unfolding exec then_do
  get_backend_log lines w =
      then_do (exec h b ("tail -n " <> str_nat lines <> " " <> log_path) w)
        λ r w'. (ok r.stdout, w')

  unfoldable pub backup_database : Act M (Unit {0})
  unfolding run
  backup_database = run h b (cp_command db_path backup_path)

  unfoldable pub restore_database : Act M (Unit {0})
  unfolding run
  restore_database = run h b (cp_command backup_path db_path)

  unfoldable pub replace_database : String → Act M (Unit {0})
  unfolding ensure_connected then_do
  replace_database local_db_path w =
      then_do (ensure_connected h b w)
        λ _ w'. let r = h.put local_db_path db_path w'.machine in (r.0, record w' { machine = r.1 })

  unfoldable pub download_mcu_bin : String → String → Act M (Unit {0})
  unfolding ensure_connected then_do
  download_mcu_bin remote_path local_path w = then_do (ensure_connected h b w) λ _ w'.
      let r = h.fetch remote_path local_path w'.machine in (r.0, record w' { machine = r.1 })

  abbrev pub py_script : String
  py_script =
      "import sqlite3, json, sys; " <> "db = sqlite3.connect('" <> db_path <> "'); "
      <> "db.row_factory = sqlite3.Row; " <> "cur = db.execute(sys.argv[1]); "
      <> "rows = [dict(r) for r in cur.fetchall()]; " <> "print(json.dumps(rows))"

  -- The rows that the script printed.
  unfoldable pub rows_of : (PrintedText → Outcome Json) → Reply → Outcome Json
  unfolding strip
  rows_of loads r =
      if eqb_ℤ r.exit_code (pos 0)
      then elim (strip r.stdout) [ [] ↦ ok (arr nil) | c ∷ s ↦ loads r.stdout ]
      else raised runtime_error

  unfoldable pub query_db : (String → String) → (PrintedText → Outcome Json) → String → Act M Json
  unfolding exec then_do rows_of
  query_db dumps loads sql w =
      then_do (exec h b ("python3 -c " <> dumps py_script <> " " <> dumps sql) w)
        λ r w'. (rows_of loads r, w')

  unfoldable pub dump_mcu_to_bin : String → Act M PrintedText
  unfolding exec then_do saved_path split_lines
  dump_mcu_to_bin path w =
      then_do
        (exec h b
          ("sudo python3 " <> dump_mcu_script <> " --save-bin " <> path
            <> " -o /tmp/mcu_dump_test.txt")
          w)
        λ r w'. (
          (if eqb_ℤ r.exit_code (pos 0)
              then ok (saved_path (codes path) (split_lines [] false r.stdout))
              else raised runtime_error),
          w',
        )
