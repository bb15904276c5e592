-- ===== src/Client/Methods.antt =====
-- The convenience methods of lib/ws_client.py: the messages that they build, and what they read
-- from the answers.
use sas_tests.Prelude.{
  if◌then◌else◌, is_some, Outcome, timeout_error, attribute_error, type_error, key_error, ok,
  raised, ℕ, ◌+◌, String, Bool, true, false, ◌&&◌, ◌||◌, Option, none, some, [], ◌∷◌,
}
use package.text.Mathlib.Text.{find?}
use sas_tests.Constants
use sas_tests.Json.{
  Json, Dict, Items, null, bool, num, text, arr, obj, nil, cons, int, from_list, dict, get, get_or,
  contains, set_default,
}
use sas_tests.Prelude.Text.{str_nat}
use sas_tests.Events.{has_type, is_text}
use sas_tests.Client.{Client, raw, Frames}
use sas_tests.Client.Waiting.{Reply, send, request, request_any}
use sas_tests.Client.Polling.{wait_for_condition}

-- `resp.get("data", [])`
unfoldable pub data_of : Reply → Outcome Json × Client × Frames
data_of (ok m, c, fs) = (ok (get_or "data" (arr nil) m), c, fs)
data_of (raised e, c, fs) = (raised e, c, fs)

unfoldable pub get_spec_list : Frames → Client → Outcome Json × Client × Frames
unfolding request data_of
get_spec_list fs c = data_of (
    request (dict (("type", text Constants.spec_options_get) ∷ [])) Constants.spec_options_response
      fs c)

unfoldable pub get_module_list : Frames → Client → Outcome Json × Client × Frames
unfolding request data_of
get_module_list fs c = data_of (
    request (dict (("type", text Constants.module_list_get) ∷ [])) Constants.module_list_response fs
      c)

unfoldable pub get_module : ℕ → ℕ → Frames → Client → Reply
unfolding request_any
get_module choice module_id =
    request_any choice
      (dict (("type", text Constants.module_get) ∷ ("module_id", int module_id) ∷ []))
      (Constants.module_get_response ∷ Constants.module_error ∷ [])

unfoldable pub get_screw_steps : ℕ → Frames → Client → Reply
unfolding request
get_screw_steps spec_id =
    request
      (dict (("type", text Constants.screw_step_get) ∷ ("specification_id", int spec_id) ∷ []))
      Constants.screw_step_response

-- The predicate of `get_system_params`.
unfoldable pub is_system_params : Dict → Outcome Bool
is_system_params m = ok (
    has_type Constants.data_response m
    && elim (get "data_type" m) [ none ↦ false | some v ↦ is_text "system_params" v ])

-- The fuel bounds the rounds of the poll; `none` is a run that it cut short.
unfoldable pub get_system_params :
    (ℕ → ℕ) → (ℕ → Frames) → ℕ → Client → Option (Outcome Dict × Client)
unfolding send wait_for_condition is_system_params
get_system_params late arrive fuel c = elim (send (raw "data:request:system_params") c) [
  | raised e ↦ some (raised e, c)
  | ok c' ↦
      wait_for_condition late arrive fuel is_system_params (c.now + Constants.default_ws_timeout)
        c.now c'
]

-- `str(b).lower()`
abbrev pub bool_text : Bool → String
bool_text true = "true"
bool_text false = "false"

abbrev pub param : String → String → Json
param name v = obj (dict (("param_name", text name) ∷ ("param_value", text v) ∷ []))

-- The message of `set_work_mode`.
unfoldable pub work_mode_message : String → ℕ → ℕ → Bool → Bool → String → Dict
work_mode_message work_mode screw_id module_id barcode automation modify_user = dict (
    ("type", text Constants.system_params_batch_update)
    ∷ (
      "params",
      arr (
          from_list (
            param "BarcodeEnabled" (bool_text barcode)
            ∷ param "WorkMode" work_mode
            ∷ param "AutomationMode" (bool_text automation)
            ∷ param "DefaultScrewId" (str_nat screw_id)
            ∷ param "DefaultModuleId" (str_nat module_id)
            ∷ [])),
    )
    ∷ ("modify_user", text modify_user)
    ∷ [])

unfoldable pub set_work_mode : String → ℕ → ℕ → Bool → Bool → String → Frames → Client → Reply
unfolding work_mode_message request
set_work_mode work_mode screw_id module_id barcode automation modify_user =
    request (work_mode_message work_mode screw_id module_id barcode automation modify_user)
      Constants.system_params_batch_update_response

-- `"job_statistics" in v`
abbrev pub lists_text : String → Items → Bool
lists_text t nil = false
lists_text t (cons x xs) = is_text t x || lists_text t xs

unfoldable pub has_statistics : Json → Outcome Bool
has_statistics (obj d) = ok (contains "job_statistics" d)
has_statistics (text s) = ok (is_some (find? s "job_statistics"))
has_statistics (arr xs) = ok (lists_text "job_statistics" xs)
has_statistics null = raised type_error
has_statistics (bool b) = raised type_error
has_statistics (num n) = raised type_error

-- The predicate of `get_work_mode_from_status`.
unfoldable pub is_status : Dict → Outcome Bool
unfolding has_statistics
is_status m =
    if has_type Constants.hardware_status_update m
    then elim (get "data" m) [ none ↦ ok false | some v ↦ has_statistics v ]
    else ok false

-- `v.get("work_mode")`
abbrev mode_in : Json → Outcome Json
mode_in (obj j) = ok (get_or "work_mode" null j)
mode_in (arr xs) = raised attribute_error
mode_in _ = raised attribute_error

-- `v["job_statistics"].get("work_mode")`
unfoldable pub work_mode_of : Json → Outcome Json
work_mode_of (obj d) = elim (get "job_statistics" d) [
  | none ↦ raised key_error
  | some v ↦ mode_in v
]
work_mode_of (arr xs) = raised type_error
work_mode_of _ = raised type_error

-- What `get_work_mode_from_status` makes of the wait: only a timeout is caught.
unfoldable pub status_mode : Outcome Dict × Client → Outcome Json × Client
unfolding work_mode_of
status_mode (ok m, c) =
    (elim (get "data" m) [ none ↦ raised key_error | some v ↦ work_mode_of v ], c)
status_mode (raised timeout_error, c) = (ok null, c)
status_mode (raised e, c) = (raised e, c)

unfoldable pub get_work_mode_from_status :
    (ℕ → ℕ) → (ℕ → Frames) → ℕ → ℕ → Client → Option (Outcome Json × Client)
unfolding wait_for_condition is_status status_mode
get_work_mode_from_status late arrive fuel timeout c =
    elim (wait_for_condition late arrive fuel is_status (c.now + timeout) c.now c) [
      | none ↦ none
      | some r ↦ some (status_mode r)
    ]

-- The message of `save_screw_param`: what the caller's `dict` lacks is added.
unfoldable pub screw_param_message : ℕ → Dict → Dict
unfolding set_default
screw_param_message spec_id d =
    set_default "specification_id" (int spec_id)
      (set_default "type" (text Constants.screw_param_config) d)

unfoldable pub save_screw_param : ℕ → Dict → Frames → Client → Reply
unfolding screw_param_message request
save_screw_param spec_id d =
    request (screw_param_message spec_id d) Constants.screw_param_save_response

unfoldable pub get_screw_param : ℕ → Frames → Client → Reply
unfolding request
get_screw_param spec_id =
    request
      (dict (("type", text Constants.screw_param_get) ∷ ("specification_id", int spec_id) ∷ []))
      Constants.screw_param_get_response

unfoldable pub query_screw_reference : ℕ → Frames → Client → Reply
unfolding request
query_screw_reference screw_id =
    request (dict (("type", text Constants.spec_ref_query) ∷ ("screw_id", int screw_id) ∷ []))
      Constants.spec_ref_response

unfoldable pub clone_screw_spec : ℕ → ℕ → Frames → Client → Reply
unfolding request
clone_screw_spec source_id target_id =
    request
      (dict (
        ("type", text Constants.spec_clone)
        ∷ ("source_id", int source_id)
        ∷ ("target_id", int target_id)
        ∷ []))
      Constants.spec_clone_response

-- The message of `save_module`.
unfoldable pub module_message : ℕ → Dict → Dict
unfolding set_default
module_message module_id d =
    set_default "module_id" (int module_id) (set_default "type" (text Constants.module_config) d)

unfoldable pub save_module : ℕ → ℕ → Dict → Frames → Client → Reply
unfolding module_message request_any
save_module choice module_id d =
    request_any choice (module_message module_id d)
      (Constants.module_config_response ∷ Constants.module_error ∷ [])
