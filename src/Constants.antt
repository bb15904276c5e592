-- ===== src/Constants.antt =====
-- lib/constants.py: the limits and the message types. A range is its first number and its end. Times
-- are in milliseconds.
use sas_tests.Prelude.{ℕ, String}

abbrev pub spec_id_range : ℕ × ℕ
spec_id_range = (0, 128)

abbrev pub module_id_range : ℕ × ℕ
module_id_range = (0, 128)

abbrev pub safe_test_range : ℕ × ℕ
safe_test_range = (100, 128)

abbrev pub max_list_response_ms : ℕ
max_list_response_ms = 200

abbrev pub max_single_response_ms : ℕ
max_single_response_ms = 100

abbrev pub max_concurrent_response_ms : ℕ
max_concurrent_response_ms = 500

abbrev pub mcu_module_slots : ℕ
mcu_module_slots = 8

abbrev pub mcu_screw_slots : ℕ
mcu_screw_slots = 16

abbrev pub max_unique_specs_per_module : ℕ
max_unique_specs_per_module = 16

abbrev pub max_steps_per_spec : ℕ
max_steps_per_spec = 8

abbrev pub max_point_count : ℕ
max_point_count = 16

abbrev pub default_ws_timeout : ℕ
default_ws_timeout = 5000

abbrev pub stress_ws_timeout : ℕ
stress_ws_timeout = 30000

abbrev pub backend_restart_timeout : ℕ
backend_restart_timeout = 30000

abbrev pub default_ws_url : String
default_ws_url = "ws://192.168.0.168:80"

-- `MsgType`
abbrev pub spec_options_get : String
spec_options_get = "screw_specification_options_get"

abbrev pub spec_options_response : String
spec_options_response = "screw_specification_options_get_response"

abbrev pub screw_param_get : String
screw_param_get = "screw_param_get"

abbrev pub screw_param_get_response : String
screw_param_get_response = "screw_param_get_response"

abbrev pub screw_step_get : String
screw_step_get = "screw_step_param_get"

abbrev pub screw_step_response : String
screw_step_response = "screw_step_param_get_response"

abbrev pub screw_param_config : String
screw_param_config = "screw_param_config"

abbrev pub screw_param_save_response : String
screw_param_save_response = "screw_param_response"

abbrev pub spec_ref_query : String
spec_ref_query = "screw_spec_reference_query"

abbrev pub spec_ref_response : String
spec_ref_response = "screw_spec_reference_response"

abbrev pub spec_clone : String
spec_clone = "screw_spec_clone"

abbrev pub spec_clone_response : String
spec_clone_response = "screw_spec_clone_response"

abbrev pub module_config : String
module_config = "module_config"

abbrev pub module_config_response : String
module_config_response = "module_config_response"

abbrev pub module_get : String
module_get = "module_get"

abbrev pub module_get_response : String
module_get_response = "module_get_response"

abbrev pub module_list_get : String
module_list_get = "module_list_get"

abbrev pub module_list_response : String
module_list_response = "module_list_get_response"

abbrev pub module_error : String
module_error = "module_error"

abbrev pub system_param_update : String
system_param_update = "system_param_update"

abbrev pub system_param_update_response : String
system_param_update_response = "system_param_update_response"

abbrev pub system_params_batch_update : String
system_params_batch_update = "system_params_batch_update"

abbrev pub system_params_batch_update_response : String
system_params_batch_update_response = "system_params_batch_update_response"

abbrev pub data_response : String
data_response = "data_response"

abbrev pub hardware_status_update : String
hardware_status_update = "hardware_status_update"

abbrev pub screw_param_config_response : String
screw_param_config_response = "screw_param_response"

abbrev pub spec_set_active : String
spec_set_active = "screw_spec_set_active"

abbrev pub spec_set_active_response : String
spec_set_active_response = "screw_spec_set_active_response"

abbrev pub spec_csv_export : String
spec_csv_export = "screw_spec_csv_export"

abbrev pub spec_csv_export_response : String
spec_csv_export_response = "screw_spec_csv_export_response"

abbrev pub spec_csv_import : String
spec_csv_import = "screw_spec_csv_import"

abbrev pub spec_csv_import_response : String
spec_csv_import_response = "screw_spec_csv_import_response"

abbrev pub ping : String
ping = "ping"

abbrev pub pong : String
pong = "pong"

abbrev pub role_switch : String
role_switch = "role_switch"

abbrev pub role_switch_response : String
role_switch_response = "role_switch_response"

abbrev pub slot_status_get : String
slot_status_get = "slot_status_get"

abbrev pub slot_status_response : String
slot_status_response = "slot_status_get_response"
