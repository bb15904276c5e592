-- ===== src/Constraints/Search.antt =====
-- machine_type/test_machine_type_constraint_enforcement.py: the search for the constraints of a
-- parameter over all machine types. `times` says how many frames come in the time of each request.
use sas_tests.Prelude.{
  if◌then◌else◌, ◌>>=◌, Outcome, attribute_error, type_error, ok, raised, ℕ, suc, String, Bool,
  true, not, ◌&&◌, ◌||◌, Option, none, some, List, [], ◌∷◌, ◌++◌, str_eq,
}
use sas_tests.Json.{
  Json, Dict, Items, null, bool, num, text, arr, obj, nil, cons, end, field, dict, get, get_or,
  truthy,
}
use sas_tests.Events.{is_text}
use sas_tests.Client.{Client, Frames}
use sas_tests.Sync.{get_of, equals}
use sas_tests.Constraints.{Match}
use sas_tests.Fixtures.{ask_in, is_success}

-- What a `for` goes over whose body calls `get` on each item.
abbrev pub items_of : Json → Outcome Items
items_of (arr xs) = ok xs
items_of (obj end) = ok nil
items_of (obj (field _ _ _)) = raised attribute_error
items_of (text s) = if str_eq s "" then ok nil else raised attribute_error
items_of null = raised type_error
items_of (bool b) = raised type_error
items_of (num n) = raised type_error

-- `torque_unit in (None, "")`
abbrev pub is_empty_unit : Option Json → Bool
is_empty_unit none = true
is_empty_unit (some null) = true
is_empty_unit (some v) = is_text "" v

-- The tests on a constraint.
unfoldable pub is_wanted : String → Bool → Dict → Bool
unfolding get equals is_text
is_wanted param_name require_empty c =
    equals param_name (get "paramName" c)
    && (not require_empty || is_empty_unit (get "torqueUnit" c))

-- The inner loop, for the list of all.
unfoldable pub matches_in : String → Bool → Json → Items → Outcome (List Match)
unfolding is_wanted
matches_in param_name require_empty i nil = ok []
matches_in param_name require_empty i (cons (obj c) cs) =
    matches_in param_name require_empty i cs >>= λ ms.
    ok (if is_wanted param_name require_empty c then (i, c) ∷ ms else ms)
matches_in param_name require_empty i (cons _ cs) = raised attribute_error

abbrev pub list_query : Dict
list_query = dict (("type", text "machine_type_list_query") ∷ [])

abbrev pub constraints_query : Json → Dict
constraints_query i =
    dict (("type", text "machine_type_constraints_query") ∷ ("machineTypeId", i) ∷ [])

-- The constraints of a machine type that are wanted; none where the query fails.
unfoldable pub answer_matches : String → Bool → Json → Dict → Outcome (List Match)
unfolding is_success get_or matches_in
answer_matches param_name require_empty i resp =
    if is_success resp
    then items_of (get_or "constraints" (arr nil) resp) >>= matches_in param_name require_empty i
    else ok []

-- `row.get("id")`, where it is not falsy.
unfoldable pub id_of : Json → Outcome (Option Json)
unfolding get_of truthy
id_of row = get_of "id" row >>= λ v.
    ok (elim v [ none ↦ none | some i ↦ if truthy i then some i else none ])

abbrev pub Found : Type 0
Found = Outcome (List Match) × Client × Frames

-- The loop over the machine types, from a request's number on.
unfoldable pub search_rows : (ℕ → ℕ) → String → Bool → ℕ → Items → Client → Frames → Found
unfolding id_of ask_in answer_matches
search_rows times param_name require_empty k nil c fs = (ok [], c, fs)
search_rows times param_name require_empty k (cons row rows) c fs = elim (id_of row) [
  | raised e ↦ (raised e, c, fs)
  | ok none ↦ search_rows times param_name require_empty k rows c fs
  | ok (some i) ↦
      (let (r, c', fs') =
          ask_in (times k) (constraints_query i) "machine_type_constraints_response" fs c in
        elim (r >>= answer_matches param_name require_empty i) [
          | raised e ↦ (raised e, c', fs')
          | ok ms ↦
              (let (rest, c'', fs'') =
                  search_rows times param_name require_empty (suc k) rows c' fs' in
                (rest >>= (λ more. ok (ms ++ more)), c'', fs''))
        ])
]

-- `_find_machine_type_constraints`
unfoldable pub find_constraints : (ℕ → ℕ) → String → Bool → Client → Frames → Found
unfolding ask_in search_rows get_or
find_constraints times param_name require_empty c fs =
    let (r, c', fs') = ask_in (times 0) list_query "machine_type_list_response" fs c in
    elim (r >>= (λ listing. items_of (get_or "data" (arr nil) listing))) [
      | raised e ↦ (raised e, c', fs')
      | ok rows ↦ search_rows times param_name require_empty 1 rows c' fs'
    ]
