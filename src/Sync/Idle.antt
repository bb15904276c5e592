-- ===== src/Sync/Idle.antt =====
-- _verify_idle_workmode_switch.py: a switch of the work mode while the machine idles, run by hand. It
-- reads no answer; a connection is the list of what is sent over it.
use sas_tests.Prelude.{String, List, [], ◌∷◌, map}
use sas_tests.Json.{text, arr, obj, dict, from_list}
use sas_tests.Client.{Sent, json}

-- `switch_work_mode`
unfoldable pub switch_work_mode : String → List Sent
switch_work_mode mode =
    json (
      dict (
        ("type", text "system_params_batch_update")
        ∷ (
          "params",
          arr (
              from_list (
                obj (dict (("param_name", text "WorkMode") ∷ ("param_value", text mode) ∷ []))
                ∷ [])),
        )
        ∷ []))
    ∷ []

-- `sys.argv[1:] or ["screw", "module"]`
abbrev pub modes_of : List String → List String
modes_of [] = "screw" ∷ "module" ∷ []
modes_of (mode ∷ modes) = mode ∷ modes

-- `main`: a connection for each mode.
unfoldable pub main : List String → List (List Sent)
unfolding switch_work_mode
main argv = map switch_work_mode (modes_of argv)
