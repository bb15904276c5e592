-- ===== src/Snapshot/Taken.antt =====
-- lib/helpers.py: `snapshot_spec_list`, on a `WSClient` and on a plain connection, for which `recv`
-- is given as how it ends in the time.
use sas_tests.Prelude.{
  if◌then◌else◌, Outcome, value_error, attribute_error, connection_error, ok, raised, false, none,
  some, List, [], ◌∷◌, ◌++◌,
}
use sas_tests.Constants
use sas_tests.Json.{Json, null, bool, num, text, arr, obj, nil, dict, get, get_or}
use sas_tests.Events.{is_text}
use sas_tests.Client.{Client, Frame, Frames, Sent, garbage, closed, value, json}
use sas_tests.Client.Methods.{get_spec_list}

abbrev pub snapshot_spec_list : Frames → Client → Outcome Json × Client × Frames
snapshot_spec_list = get_spec_list

-- What is read from the answer.
unfoldable pub spec_list_in : Json → Outcome Json
unfolding get get_or is_text
spec_list_in (obj d) =
    if elim (get "type" d) [ none ↦ false | some v ↦ is_text Constants.spec_options_response v ]
    then ok (get_or "data" (arr nil) d)
    else raised value_error
spec_list_in null = raised attribute_error
spec_list_in (bool b) = raised attribute_error
spec_list_in (num n) = raised attribute_error
spec_list_in (text s) = raised attribute_error
spec_list_in (arr xs) = raised attribute_error

-- The branch without `get_spec_list`.
unfoldable pub snapshot_plain : Outcome Frame → List Sent → Outcome Json × List Sent
unfolding spec_list_in
snapshot_plain got sent =
    let sent' = sent ++ json (dict (("type", text Constants.spec_options_get) ∷ [])) ∷ [] in
    elim got [
      | raised e ↦ (raised e, sent')
      | ok frame ↦ elim frame [
        | garbage ↦ (raised value_error, sent')
        | closed ↦ (raised connection_error, sent')
        | value v ↦ (spec_list_in v, sent')
      ]
    ]
