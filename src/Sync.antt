-- ===== src/Sync.antt =====
-- _verify_workmode_sync.py: the check, run by hand, that a switch of the work mode reaches the
-- database and the state machine. The messages that the backend sends are a list; `_recv_until` reads
-- it on.
pub mod Switch
pub mod Rounds
pub mod Idle
use sas_tests.Prelude.{
  if◌then◌else◌, ◌>>=◌, Outcome, timeout_error, attribute_error, connection_error, ok, raised,
  String, Bool, false, ◌&&◌, Option, none, some, List, [], ◌∷◌, ◌++◌,
}
use sas_tests.Json.{Json, Dict, null, bool, num, text, arr, obj, end, dict, get, truthy, from_list}
use sas_tests.Events.{is_text}
use sas_tests.Client.{Frame, garbage, closed, value, Sent, json, raw}

-- `_recv_until`: what the predicate returns for the first message for which it is not None. Where the
-- connection ends, the socket's `recv` raises.
unfoldable pub recv_until {ℓ} :
    {A : Type ℓ} → (Json → Outcome (Option A)) → List Frame → Outcome A × List Frame
recv_until p [] = (raised timeout_error, [])
recv_until p (garbage ∷ fs) = recv_until p fs
recv_until p (closed ∷ fs) = (raised connection_error, fs)
recv_until p (value m ∷ fs) =
    let rest = recv_until p fs in
    elim (p m) [
      | raised e ↦ (raised e, fs)
      | ok found ↦ elim found [ some a ↦ (ok a, fs) | none ↦ rest ]
    ]

-- `m.get(k)`
unfoldable pub get_of : String → Json → Outcome (Option Json)
get_of k (obj d) = ok (get k d)
get_of k null = raised attribute_error
get_of k (bool _) = raised attribute_error
get_of k (num _) = raised attribute_error
get_of k (text _) = raised attribute_error
get_of k (arr _) = raised attribute_error

-- `v or {}`
unfoldable pub or_empty : Option Json → Json
unfolding truthy
or_empty none = obj end
or_empty (some v) = if truthy v then v else obj end

-- `v == t`
unfoldable pub equals : String → Option Json → Bool
unfolding is_text
equals t none = false
equals t (some v) = is_text t v

-- `result is not None`
unfoldable pub not_none : Option Json → Option Json
not_none none = none
not_none (some null) = none
not_none (some v) = some v

-- The three predicates of `check_mode`.
unfoldable pub read_ack : Json → Outcome (Option Json)
unfolding get_of equals
read_ack m = get_of "type" m >>= λ t.
    ok (if equals "system_params_batch_update_response" t then some m else none)

unfoldable pub read_params : Json → Outcome (Option Json)
unfolding get_of equals or_empty
read_params m = do
  t ← get_of "type" m
  kind ← get_of "data_type" m
  v ← get_of "data" m
  ok (if equals "data_response" t && equals "system_params" kind then some (or_empty v) else none)

-- `((m.get("data") or {}).get("job_statistics") or {}).get("work_mode")`
unfoldable pub pushed_mode : Json → Outcome (Option Json)
unfolding get_of or_empty not_none
pushed_mode m = do
  v ← get_of "data" m
  j ← get_of "job_statistics" (or_empty v)
  w ← get_of "work_mode" (or_empty j)
  ok (not_none w)

unfoldable pub read_status : Json → Outcome (Option Json)
unfolding get_of equals pushed_mode
read_status m =
    let mode = pushed_mode m in
    get_of "type" m >>= λ t. if equals "hardware_status_update" t then mode else ok none

-- `ack.get("success")`, as the test takes it.
unfoldable pub succeeded : Json → Outcome Bool
unfolding get_of or_empty
succeeded ack = get_of "success" ack >>= λ v. ok (elim v [ none ↦ false | some s ↦ truthy s ])

-- The first message of `check_mode`.
abbrev pub switch_message : String → Dict
switch_message mode = dict (
    ("type", text "system_params_batch_update")
    ∷ (
      "params",
      arr (
          from_list
            (obj (dict (("param_name", text "WorkMode") ∷ ("param_value", text mode) ∷ [])) ∷ [])),
    )
    ∷ ("modify_user", text "verify_script")
    ∷ [])

abbrev pub Check : Type 0
Check = Outcome Bool × List Sent × List Frame

-- A step that raises ends the check.
abbrev pub go_on {ℓ} : {A : Type ℓ} → Outcome A → List Sent → List Frame → (A → Check) → Check
go_on (raised e) sent fs k = (raised e, sent, fs)
go_on (ok a) sent fs k = k a

-- The three steps, last to first.
unfoldable pub check_pushed : String → Bool → List Sent → List Frame → Check
unfolding recv_until read_status
check_pushed mode fine sent fs =
    let (r, fs') = recv_until read_status fs in
    (r >>= (λ w. ok (fine && is_text mode w)), sent, fs')

unfoldable pub check_stored : String → Bool → List Sent → List Frame → Check
unfolding recv_until read_params check_pushed equals
check_stored mode fine sent fs =
    let sent' = sent ++ raw "data:request:system_params" ∷ [] in
    let (r, fs') = recv_until read_params fs in
    go_on (r >>= (λ params. get_of "WorkMode" params)) sent' fs'
      λ stored. check_pushed mode (fine && equals mode stored) sent' fs'

-- `check_mode`
unfoldable pub check_mode : String → List Sent → List Frame → Check
unfolding recv_until read_ack check_stored succeeded
check_mode mode sent fs =
    let sent' = sent ++ json (switch_message mode) ∷ [] in
    let (r, fs') = recv_until read_ack fs in
    go_on (r >>= succeeded) sent' fs' λ fine. check_stored mode fine sent' fs'
