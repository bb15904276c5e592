-- ===== src/Json.antt =====
-- The values that `json.loads` returns and `json.dumps` takes, and Python's operations on `dict`s
-- with text keys: the messages of lib/ws_client.py, lib/event_accumulator.py and lib/helpers.py.
-- A number is held in thousandths, so that 1 and 1.0 are one value, as `==` has it.
pub mod Equality
pub mod Laws
use sas_tests.Prelude.{
  ◌==◌, if◌then◌else◌, ℕ, ◌*◌, String, Bool, true, false, Option, none, some, List, [], ◌∷◌, str_eq,
}
use sas_tests.Prelude.Int.{ℤ, pos}

mutual
  pub data Json : Type 0 where
    null : Json
    bool : Bool → Json
    num : ℤ → Json
    text : String → Json
    arr : Items → Json
    obj : Dict → Json

  pub data Items : Type 0 where
    nil : Items
    cons : Json → Items → Items

  pub data Dict : Type 0 where
    end : Dict
    field : String → Json → Dict → Dict

-- A whole number.
abbrev pub int : ℕ → Json
int n = num (pos (n * 1000))

-- A number given in thousandths.
abbrev pub milli : ℕ → Json
milli n = num (pos n)

abbrev pub from_list : List Json → Items
from_list [] = nil
from_list (x ∷ xs) = cons x (from_list xs)

abbrev pub to_list : Items → List Json
to_list nil = []
to_list (cons x xs) = x ∷ to_list xs

-- A `dict` literal.
abbrev pub dict : List (String × Json) → Dict
dict [] = end
dict ((k, v) ∷ kvs) = field k v (dict kvs)

-- `d.get(k)`, where a missing key is told apart from a stored `None`.
unfoldable pub get : String → Dict → Option Json
get k end = none
get k (field j v d) = if str_eq j k then some v else get k d

-- `d.get(k, default)`
unfoldable pub get_or : String → Json → Dict → Json
get_or k v d = elim (get k d) [ none ↦ v | some w ↦ w ]

-- `k in d`
unfoldable pub contains : String → Dict → Bool
contains k d = elim (get k d) [ none ↦ false | some _ ↦ true ]

-- `d[k] = v`: a new key goes to the end.
unfoldable pub put : String → Json → Dict → Dict
put k v end = field k v end
put k v (field j w d) = if str_eq j k then field j v d else field j w (put k v d)

-- `d.setdefault(k, v)`
unfoldable pub set_default : String → Json → Dict → Dict
set_default k v d = if contains k d then d else put k v d

-- `d.update(e)`
unfoldable pub update : Dict → Dict → Dict
unfolding put
update d end = d
update d (field k v e) = update (put k v d) e

-- `bool(v)`
unfoldable pub truthy : Json → Bool
truthy null = false
truthy (bool b) = b
truthy (num n) = elim n [ ℤ.pos m ↦ (if m == 0 then false else true) | ℤ.negsuc m ↦ true ]
truthy (text s) = if str_eq s "" then false else true
truthy (arr nil) = false
truthy (arr (cons _ _)) = true
truthy (obj end) = false
truthy (obj (field _ _ _)) = true
