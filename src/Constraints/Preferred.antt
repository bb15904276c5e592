-- ===== src/Constraints/Preferred.antt =====
-- machine_type/test_spec_compliance_highlight_plan.py: `_get_all_constraints_map`, which keeps one
-- constraint of each parameter, of the preferred unit if there is one.
pub mod Best
use sas_tests.Prelude.{
  if◌then◌else◌, ◌>>=◌, Outcome, attribute_error, type_error, ok, raised, ℕ, String, Bool, false,
  Option, none, some, List, [], ◌∷◌, str_eq,
}
use sas_tests.Json.{
  Json, Dict, Items, null, bool, num, text, arr, obj, nil, cons, get, get_or, truthy,
}
use sas_tests.Prelude.Int.{ℤ, pos, eqb_ℤ}
use sas_tests.Client.{Client, Frames}
use sas_tests.Sync.{equals}
use sas_tests.Fixtures.{ask_in, is_success}
use sas_tests.Constraints.Search.{items_of, constraints_query}

-- A key of a Python `dict`: a number and a truth value that are equal are one key.
pub data Key : Type 0 where
  word : String → Key
  number : ℤ → Key

abbrev pub eqb_key : Key → Key → Bool
eqb_key (word s) (word t) = str_eq s t
eqb_key (number m) (number n) = eqb_ℤ m n
eqb_key (word s) (number n) = false
eqb_key (number m) (word t) = false

-- The map that is returned, in its order.
abbrev pub KeptMap : Type 0
KeptMap = List (Key × Dict)

-- `result[name]`, where there is one.
unfoldable pub kept_at : Key → KeptMap → Option Dict
kept_at k [] = none
kept_at k ((j, c) ∷ m) = if eqb_key j k then some c else kept_at k m

-- `result[name] = c`
unfoldable pub keep_at : Key → Dict → KeptMap → KeptMap
keep_at k c [] = (k, c) ∷ []
keep_at k c ((j, b) ∷ m) = if eqb_key j k then (j, c) ∷ m else (j, b) ∷ keep_at k c m

-- What the loop makes of one constraint with this name.
unfoldable pub merged : String → Key → Dict → KeptMap → KeptMap
unfolding kept_at keep_at equals get
merged preferred k c m = elim (kept_at k m) [
  | none ↦ keep_at k c m
  | some existing ↦
      if equals preferred (get "torqueUnit" existing)
      then m
      else if equals preferred (get "torqueUnit" c)
      then keep_at k c m
      else m
]

-- `c.get("paramName")` as a key: none if it is falsy. A list or a `dict` is no key.
unfoldable pub key_of : Dict → Outcome (Option Key)
unfolding get truthy
key_of c = elim (get "paramName" c) [
  | none ↦ ok none
  | some null ↦ ok none
  | some (bool b) ↦ ok (if b then some (number (pos 1000)) else none)
  | some (num n) ↦ ok (if truthy (num n) then some (number n) else none)
  | some (text s) ↦ ok (if truthy (text s) then some (word s) else none)
  | some (arr xs) ↦ (if truthy (arr xs) then raised type_error else ok none)
  | some (obj d) ↦ (if truthy (obj d) then raised type_error else ok none)
]

-- The loop.
unfoldable pub keep_all : String → Items → KeptMap → Outcome KeptMap
unfolding key_of merged
keep_all preferred nil m = ok m
keep_all preferred (cons (obj c) cs) m = elim (key_of c) [
  | raised e ↦ raised e
  | ok none ↦ keep_all preferred cs m
  | ok (some k) ↦ keep_all preferred cs (merged preferred k c m)
]
keep_all preferred (cons _ cs) m = raised attribute_error

-- From the answer on.
unfoldable pub kept_of : String → Dict → Outcome KeptMap
unfolding is_success get_or keep_all
kept_of preferred resp =
    if is_success resp
    then items_of (get_or "constraints" (arr nil) resp) >>= (λ cs. keep_all preferred cs [])
    else ok []

-- `_get_all_constraints_map`; `n` is how many frames come in the time of the request.
unfoldable pub get_all_constraints_map :
    ℕ → Json → String → Frames → Client → Outcome KeptMap × Client × Frames
unfolding ask_in kept_of
get_all_constraints_map n machine_type_id preferred fs c =
    let (r, c', fs') =
      ask_in n (constraints_query machine_type_id) "machine_type_constraints_response" fs c in
    (r >>= kept_of preferred, c', fs')
