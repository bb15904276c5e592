-- ===== src/Json/Equality.antt =====
-- `==` on JSON values as Python has it: the order of a `dict`'s keys does not count.
use sas_tests.Prelude.{◌==◌, ℕ, suc, Bool, true, false, ◌&&◌, none, some, str_eq}
use sas_tests.Prelude.Int.{eqb_ℤ, ℤ, pos}
use sas_tests.Json.{Json, Items, Dict, null, bool, num, text, arr, obj, nil, cons, end, field, get}

-- `True == 1` and `False == 0` hold in Python.
abbrev pub as_number : Bool → ℤ
as_number true = pos 1000
as_number false = pos 0

abbrev pub size : Dict → ℕ
size end = 0
size (field k v d) = suc (size d)

unfoldable mutual
  pub eq : Json → Json → Bool
  eq null null = true
  eq (bool a) (bool b) = eqb_ℤ (as_number a) (as_number b)
  eq (bool a) (num n) = eqb_ℤ (as_number a) n
  eq (num n) (bool a) = eqb_ℤ n (as_number a)
  eq (num m) (num n) = eqb_ℤ m n
  eq (text s) (text t) = str_eq s t
  eq (arr xs) (arr ys) = eq_items xs ys
  eq (obj d) (obj e) = size d == size e && eq_fields d e
  eq _ _ = false

  pub eq_items : Items → Items → Bool
  eq_items nil nil = true
  eq_items (cons x xs) (cons y ys) = eq x y && eq_items xs ys
  eq_items _ _ = false

  -- Each field of the first is in the second, with an equal value.
  pub eq_fields : Dict → Dict → Bool
  eq_fields end e = true
  eq_fields (field k v d) e = elim (get k e) [ none ↦ false | some w ↦ eq v w ] && eq_fields d e
