-- ===== src/Client/Messages.antt =====
-- What the messages of the convenience methods hold.
use sas_tests.Prelude.{ℕ, String, ◌≡◌, false, Option, none, some, arith, str_eq}
use sas_tests.Constants
use sas_tests.Json.{Json, Dict, text, int, get, contains, set_default}
use sas_tests.Json.Laws.{get-set_default}
use sas_tests.Client.Methods.{screw_param_message}

-- A field, or the default where it is missing.
abbrev or_default : Option Json → Json → Option Json
or_default none v = some v
or_default (some w) v = some w

-- The message of `save_screw_param` has every field of the caller's payload unchanged; the type and
-- the specification id are added exactly where the payload lacks them, so an id in the payload wins
-- over the argument; any other key reads as in the payload.
screw_param_message_lem :
    (spec_id : ℕ) (d : Dict) (k : String)
    → str_eq "type" k ≡ false
    → str_eq "specification_id" k ≡ false
    → (get "type" (screw_param_message spec_id d)
        ≡ or_default (get "type" d) (text Constants.screw_param_config))
      × (get "specification_id" (screw_param_message spec_id d)
          ≡ or_default (get "specification_id" d) (int spec_id))
      × (get k (screw_param_message spec_id d) ≡ get k d)
unfolding screw_param_message contains
screw_param_message_lem spec_id d k p q =
    let typed = set_default "type" (text Constants.screw_param_config) d in
    (
      ground (
        arith,
        get-set_default "specification_id" "type" (int spec_id) typed,
        get-set_default "type" "type" (text Constants.screw_param_config) d,
      ),
      ground (
        arith,
        get-set_default "specification_id" "specification_id" (int spec_id) typed,
        get-set_default "type" "specification_id" (text Constants.screw_param_config) d,
      ),
      ground (
        arith,
        get-set_default "specification_id" k (int spec_id) typed,
        get-set_default "type" k (text Constants.screw_param_config) d,
      ),
    )
