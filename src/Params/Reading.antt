-- ===== src/Params/Reading.antt =====
-- What the readers of the backend's answers return.
use sas_tests.Prelude.{
  if◌then◌else◌, Outcome, ok, raised, ℕ, String, ◌≡◌, refl, ap, ◌∙◌, Bool, true, false, Option,
  none, some, List, [], ◌∷◌, arith, str_eq,
}
use sas_tests.Prelude.Int.{ℤ, eqb_ℤ}
use sas_tests.Prelude.Text.{codes}
use sas_tests.Pfop.Decimal.{int_of}
use sas_tests.Json.{Json, Dict, null, text, end, field, dict, get, get_or, truthy}
use sas_tests.Client.Methods.{work_mode_message, bool_text}
use sas_tests.Events.{is_text}
use sas_tests.Params.{get_either, extract_system_param_value, to_bool, put_flag, numeric_flags}

-- A backend that answers with the parameters of the message that it was sent.
abbrev pub echo : Dict → Dict
echo message = dict (("data", get_or "params" null message) ∷ [])

-- Reading the parameters that `set_work_mode` sends back from an answer of the same form gives what
-- was set, the numbers and truth values as text; a parameter that it does not send reads as None. The
-- work mode is not the empty text, which would read as None too.
extract_work_mode :
    (work_mode : String) (screw_id module_id : ℕ) (barcode automation : Bool) (user : String)
    → str_eq work_mode "" ≡ false
    → let read =
        extract_system_param_value
          (echo (work_mode_message work_mode screw_id module_id barcode automation user)) in
      (read "WorkMode" ≡ ok (text work_mode))
      × (read "BarcodeEnabled" ≡ ok (text (bool_text barcode)))
      × (read "AutomationMode" ≡ ok (text (bool_text automation)))
      × (read "CurrentMachineType" ≡ ok null)
unfolding extract_system_param_value work_mode_message get get_either is_text truthy
extract_work_mode work_mode screw_id module_id true true user h = (ground arith, refl, refl, refl)
extract_work_mode work_mode screw_id module_id true false user h = (ground arith, refl, refl, refl)
extract_work_mode work_mode screw_id module_id false true user h = (ground arith, refl, refl, refl)
extract_work_mode work_mode screw_id module_id false false user h = (ground arith, refl, refl, refl)

-- The entry of a specification in the compliance map.
abbrev flag_of : ℤ → List (ℤ × Bool) → Option Bool
flag_of k [] = none
flag_of k ((j, v) ∷ m) = if eqb_ℤ j k then some v else flag_of k m

-- The last value of a `dict` whose key reads as the number.
abbrev key_is : ℤ → Outcome ℤ → Bool
key_is k (raised e) = false
key_is k (ok j) = eqb_ℤ j k

abbrev found_or : Bool → Json → Option Json → Option Json
found_or b v (some w) = some w
found_or b v none = if b then some v else none

abbrev last_value : ℤ → Dict → Option Json
last_value k end = none
last_value k (field j v d) = found_or (key_is k (int_of (codes j))) v (last_value k d)

flag_of-put_flag :
    (k j : ℤ) (v : Bool) (m : List (ℤ × Bool))
    → flag_of k (put_flag j v m) ≡ (if eqb_ℤ j k then some v else flag_of k m)
unfolding put_flag
flag_of-put_flag k j v [] = refl
flag_of-put_flag k j v ((i, w) ∷ m) = grind (arith, flag_of-put_flag k j v m)

-- The flag that a found value gives, or else the flag that there was.
abbrev flag_or : Option Bool → Option Json → Option Bool
flag_or b none = b
flag_or b (some v) = some (to_bool v)

flag_or-found :
    (hit : Bool) (v : Json) (b : Option Bool) (found : Option Json)
    → flag_or (if hit then some (to_bool v) else b) found ≡ flag_or b (found_or hit v found)
flag_or-found true v b none = refl
flag_or-found false v b none = refl
flag_or-found hit v b (some w) = refl

-- The flags read from a `dict` hold, for each number, the truth value of the last field whose key
-- reads as that number, and before that the flag that there was.
flag_of-numeric_flags :
    (k : ℤ) (out : List (ℤ × Bool)) (d : Dict)
    → flag_of k (numeric_flags out d) ≡ flag_or (flag_of k out) (last_value k d)
unfolding numeric_flags
flag_of-numeric_flags k out end = refl
flag_of-numeric_flags k out (field j v d) =
    at (int_of (codes j)) (λ out'. flag_of-numeric_flags k out' d)
  where
    at :
        (r : Outcome ℤ)
        → ((out' : List (ℤ × Bool))
            → flag_of k (numeric_flags out' d) ≡ flag_or (flag_of k out') (last_value k d))
        → flag_of k (elim r [
          | raised e ↦ numeric_flags out d
          | ok sid ↦ numeric_flags (put_flag sid (to_bool v) out) d
        ])
          ≡ flag_or (flag_of k out) (found_or (key_is k r) v (last_value k d))
    at (raised e) h = h out ∙ flag_or-found false v (flag_of k out) (last_value k d)
    at (ok i) h =
        h (put_flag i (to_bool v) out)
        ∙ ap (λ b. flag_or b (last_value k d)) (flag_of-put_flag k i (to_bool v) out)
        ∙ flag_or-found (eqb_ℤ i k) v (flag_of k out) (last_value k d)
