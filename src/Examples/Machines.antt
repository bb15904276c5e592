-- ===== src/Examples/Machines.antt =====
-- A machine with the two database files.
use sas_tests.Prelude.{
  if◌then◌else◌, ok, ℕ, String, ◌≡◌, refl, true, false, Option, none, some, List, [], ◌∷◌, str_eq,
}
use sas_tests.Prelude.Int.{pos}
use sas_tests.Remote.{Host, Backend, World, Reply, remote_backend, db_path, backup_path}
use sas_tests.Remote.Calls.{cp_command, start_backend}
use sas_tests.Remote.Isolation.{snapshot, restore}
use sas_tests.Remote.Restoring.{restore-snapshot, restore-snapshot_failed}

-- The database and its copy.
abbrev Disk : Type 0
Disk = List ℕ × List ℕ

abbrev file : String → Disk → Option (List ℕ)
file path (db, copy) =
    if str_eq path db_path then some db else if str_eq path backup_path then some copy else none

abbrev done : Reply
done = record { stdout = []; stderr = []; exit_code = pos 0 }

abbrev after : String → Disk → Disk
after command (db, copy) =
    if str_eq command (cp_command db_path backup_path)
    then (db, db)
    else if str_eq command (cp_command backup_path db_path)
    then (copy, copy)
    else (db, copy)

abbrev raspberry : Host Disk
raspberry = record {
  alive = λ m. true;
  dial = λ login m. (ok tt, m);
  exec = λ command m. (ok done, after command m);
  put = λ here there m. (ok tt, m);
  fetch = λ there here m. (ok tt, m);
}

abbrev pi : Backend
pi = remote_backend "192.168.0.168" "pi" none none

abbrev before_tests : World Disk
before_tests = record { opened = false; machine = (1 ∷ [], []) }

abbrev after_tests : World Disk
after_tests = record { opened = true; machine = (2 ∷ 2 ∷ [], 1 ∷ []) }

restore-snapshot_example :
    let r = snapshot raspberry pi false before_tests in
    (r.0 ≡ ok tt)
    × ((m : World Disk) × ((restore raspberry pi r.1 after_tests ≡ start_backend raspberry pi m)
          × (file db_path m.machine ≡ file db_path before_tests.machine)))
unfolding snapshot
restore-snapshot_example =
    restore-snapshot raspberry pi file (λ command m. (done, refl)) (λ m. refl) (λ p m. refl)
      (λ m. refl) (λ m. refl) (λ m. refl) false before_tests after_tests refl

-- A machine whose disk has no room for a copy.
abbrev no_room : Reply
no_room = record { stdout = []; stderr = []; exit_code = pos 1 }

abbrev answer_full : String → Reply
answer_full command = if str_eq command (cp_command db_path backup_path) then no_room else done

abbrev after_full : String → Disk → Disk
after_full command (db, copy) =
    if str_eq command (cp_command backup_path db_path) then (copy, copy) else (db, copy)

abbrev full : Host Disk
full = record raspberry { exec = λ command m. (ok (answer_full command), after_full command m) }

-- The copy is of an earlier run.
abbrev before_full : World Disk
before_full = record { opened = false; machine = (1 ∷ [], 9 ∷ []) }

abbrev after_tests_full : World Disk
after_tests_full = record { opened = true; machine = (2 ∷ 2 ∷ [], 9 ∷ []) }

restore-snapshot_failed_example :
    let r = snapshot full pi false before_full in
    (r.0 ≡ ok tt)
    × ((r.1 ≡ true)
        × ((m : World Disk) × ((restore full pi r.1 after_tests_full ≡ start_backend full pi m)
              × (file db_path m.machine ≡ some (9 ∷ [])))))
unfolding snapshot
restore-snapshot_failed_example =
    restore-snapshot_failed full pi file (λ command m. (answer_full command, refl)) (λ m. refl)
      (λ p m. refl) (λ bytes m e. e) (λ m. refl) (λ m. refl) false before_full after_tests_full
      (9 ∷ []) refl refl
