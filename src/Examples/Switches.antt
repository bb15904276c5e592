-- ===== src/Examples/Switches.antt =====
-- A switch of the work mode that passes.
use sas_tests.Prelude.{ok, String, ◌≡◌, refl, true, List, [], ◌∷◌, ◌++◌}
use sas_tests.Json.{Json, text, bool, obj, dict, get, truthy}
use sas_tests.Events.{is_text}
use sas_tests.Client.{Frame, value, garbage, json}
use sas_tests.Sync.{
  recv_until, get_of, or_empty, equals, not_none, pushed_mode, read_ack, read_params, read_status,
  succeeded, check_pushed, check_stored, check_mode,
}
use sas_tests.Sync.Rounds.{main, read_login, login_message, run_rounds, try_modes, try_mode}
use sas_tests.Sync.Rounds.Passed.{PassingRounds, main_lem}
use sas_tests.Sync.Switch.{Reads, Stored, check_mode_lem}

-- A status with the old mode comes before the parameters.
abbrev status : String → Frame
status mode = value (
    obj (
      dict (
        ("type", text "hardware_status_update")
        ∷ ("data", obj (dict (("job_statistics", obj (dict (("work_mode", text mode) ∷ []))) ∷ [])))
        ∷ [])))

abbrev sent_back : List Frame
sent_back =
    garbage
    ∷ value (
        obj (
          dict
            (("type", text "system_params_batch_update_response") ∷ ("success", bool true) ∷ [])))
    ∷ status "screw"
    ∷ value (
        obj (
          dict (
            ("type", text "data_response")
            ∷ ("data_type", text "system_params")
            ∷ ("data", obj (dict (("WorkMode", text "module") ∷ [])))
            ∷ [])))
    ∷ status "module"
    ∷ []

check_mode_lem_example :
    (ack : Json) × ((rest : List Frame) × (Reads read_ack sent_back (ok ack, rest)
        × ((succeeded ack ≡ ok true) × Stored "module" rest)))
unfolding recv_until get_of or_empty equals not_none pushed_mode read_ack read_params read_status
    succeeded check_pushed check_stored check_mode is_text truthy get
check_mode_lem_example = check_mode_lem "module" [] sent_back refl

-- Of one round.
abbrev logged : List Frame
logged = value (obj (dict (("type", text "login_response") ∷ ("success", bool true) ∷ []))) ∷ []

abbrev answers_to : String → List Frame
answers_to mode =
    value (
      obj
        (dict (("type", text "system_params_batch_update_response") ∷ ("success", bool true) ∷ [])))
    ∷ value (
        obj (
          dict (
            ("type", text "data_response")
            ∷ ("data_type", text "system_params")
            ∷ ("data", obj (dict (("WorkMode", text mode) ∷ [])))
            ∷ [])))
    ∷ status mode
    ∷ []

abbrev round_back : List Frame
round_back = logged ++ (answers_to "module" ++ answers_to "screw")

main_lem_example :
    (resp : Json) × ((rest : List Frame) × ((recv_until read_login round_back ≡ (ok resp, rest))
        × ((succeeded resp ≡ ok true) × PassingRounds 1 (json login_message ∷ [], rest))))
unfolding main read_login run_rounds try_modes try_mode recv_until get_of or_empty equals not_none
    pushed_mode read_ack read_params read_status succeeded check_pushed check_stored check_mode
    is_text truthy get
main_lem_example = main_lem 1 round_back refl
