-- ===== src/Torque.antt =====
-- _check_torque_constraints.py: the constraints of the torque parameters, printed for some machine
-- types. What the socket receives is a list; where it ends the connection is closed.
use sas_tests.Prelude.{
  if◌then◌else◌, ◌>>=◌, Outcome, attribute_error, type_error, connection_error, ok, raised, ℕ,
  String, Bool, Option, none, some, List, [], ◌∷◌, ◌++◌, map, str_eq,
}
use sas_tests.Json.{
  Json, Dict, Items, null, bool, num, text, arr, obj, nil, cons, end, field, int, dict,
}
use sas_tests.Prelude.Text.{codes}
use sas_tests.Params.{lower}
use sas_tests.Remote.Calls.{has_within}
use sas_tests.Client.{Frame, Sent, garbage, closed, value, json}
use sas_tests.Sync.{get_of, equals}

-- A printed line.
pub record Line : Type 0 where
  pub machine_type : ℕ
  pub param : String
  pub torque_unit : Option Json
  pub min_value : Option Json
  pub max_value : Option Json

-- The inner loop: the first value that is not an echo.
unfoldable pub next_answer : List Frame → Outcome Json × List Frame
unfolding get_of equals
next_answer [] = (raised connection_error, [])
next_answer (garbage ∷ fs) = next_answer fs
next_answer (closed ∷ fs) = (raised connection_error, fs)
next_answer (value v ∷ fs) =
    let rest = next_answer fs in
    elim (get_of "type" v) [
      | raised e ↦ (raised e, fs)
      | ok t ↦ if equals "echo" t then rest else (ok v, fs)
    ]

-- `"torque" in pn.lower()`
unfoldable pub is_torque : String → Bool
is_torque pn = has_within (codes "torque") (map lower (codes pn))

-- `pn.lower()` of what `c.get("paramName")` gave.
unfoldable pub name_of : Option Json → Outcome String
name_of (some (text pn)) = ok pn
name_of none = raised attribute_error
name_of (some null) = raised attribute_error
name_of (some (bool b)) = raised attribute_error
name_of (some (num n)) = raised attribute_error
name_of (some (arr xs)) = raised attribute_error
name_of (some (obj d)) = raised attribute_error

-- The body of the loop over the constraints.
unfoldable pub line_of : ℕ → Json → Outcome (List Line)
unfolding get_of name_of is_torque
line_of machine_type c = do
  pn ← get_of "paramName" c >>= name_of
  unit ← get_of "torqueUnit" c
  low ← get_of "minValue" c
  high ← get_of "maxValue" c
  ok (
      if is_torque pn
      then record {
        machine_type = machine_type;
        param = pn;
        torque_unit = unit;
        min_value = low;
        max_value = high;
      }
        ∷ []
      else [])

unfoldable pub lines_of : ℕ → Items → Outcome (List Line)
unfolding line_of
lines_of machine_type nil = ok []
lines_of machine_type (cons c cs) = do
  line ← line_of machine_type c
  rest ← lines_of machine_type cs
  ok (line ++ rest)

-- `for c in constraints:`; the items of a text or of a `dict` have no `get`.
unfoldable pub constraints_in : ℕ → Json → Outcome (List Line)
unfolding lines_of
constraints_in machine_type (arr cs) = lines_of machine_type cs
constraints_in machine_type (obj end) = ok []
constraints_in machine_type (obj (field _ _ _)) = raised attribute_error
constraints_in machine_type (text s) = if str_eq s "" then ok [] else raised attribute_error
constraints_in machine_type null = raised type_error
constraints_in machine_type (bool b) = raised type_error
constraints_in machine_type (num n) = raised type_error

-- `resp.get("constraints", [])`
unfoldable pub constraints_of : Json → Outcome Json
unfolding get_of
constraints_of resp =
    get_of "constraints" resp >>= λ v. ok (elim v [ none ↦ arr nil | some cs ↦ cs ])

abbrev pub query_message : ℕ → Dict
query_message mt_id =
    dict (("type", text "machine_type_constraints_query") ∷ ("machineTypeId", int mt_id) ∷ [])

-- The lines of one machine type after the other, or the exception that ends the script, without what
-- it had printed before.
unfoldable pub check_types : List ℕ → List Sent → List Frame → Outcome (List Line) × List Sent
unfolding next_answer constraints_of constraints_in
check_types [] sent fs = (ok [], sent)
check_types (mt_id ∷ ids) sent fs =
    let sent' = sent ++ json (query_message mt_id) ∷ [] in
    let (r, fs') = next_answer fs in
    let (rest, sent'') = check_types ids sent' fs' in
    elim (r >>= constraints_of >>= constraints_in mt_id) [
      | raised e ↦ (raised e, sent')
      | ok lines ↦ (rest >>= (λ more. ok (lines ++ more)), sent'')
    ]

-- `main`
unfoldable pub main : List Frame → Outcome (List Line) × List Sent
unfolding check_types
main fs = check_types (1 ∷ 2 ∷ 3 ∷ 14 ∷ 16 ∷ []) [] fs
