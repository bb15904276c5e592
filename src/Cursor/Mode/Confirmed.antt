-- ===== src/Cursor/Mode/Confirmed.antt =====
-- What a switch that returns the expected mode has seen.
use sas_tests.Prelude.{
  Bool-cases, first, ok, raised, ℕ, zero, suc, ◌+◌, ◌<◌, String, ◌≡◌, refl, sym, ap, ◌∙◌, inl, inr,
  Bool, true, false, Option, none, some, List, [], ◌∷◌, ◌++◌, arith, str_eq, eq_refl,
}
use sas_tests.Json.{Json, Dict, null, bool, num, text, arr, obj, get, truthy}
use sas_tests.Events.{is_text}
use sas_tests.Client.{Client, Frames}
use sas_tests.Client.Methods.{set_work_mode}
use sas_tests.Client.Waiting.{Reply}
use sas_tests.Cursor.Mode.{mode_of, or_nothing, is_true, switch_and_wait, after_switch, Keywords}
use sas_tests.Cursor.Mode.Once.{
  decides, newer, latest, told, Told, stumbles, no_mode, as_expected, other_mode, telling,
  is_text_eq,
}
use sas_tests.Cursor.Mode.Status.{HasMode, mode_of-HasMode}
use sas_tests.Cursor.Mode.Loop.{Ends, After, Returned, wait_work_mode_after-Returned}

first-split {ℓ} :
    {A : Type ℓ} (p : A → Bool) (xs : List A) (x : A)
    → first p xs ≡ some x
    → (before after : List A) × ((xs ≡ before ++ x ∷ after) × (p x ≡ true))
first-split p [] x h = ground arith
first-split p (y ∷ xs) x h = elim (Bool-cases (p y)) [
  | inl yes_y ↦
      (let same : y ≡ x = ground arith in ([], xs, (ap (λ z. z ∷ xs) same, rw (sym same) yes_y)))
  | inr no_y ↦
      (let (before, after, (parts, q)) = first-split p xs x (ground arith) in
        (y ∷ before, after, (ap (λ l. y ∷ l) parts, q)))
]

-- An event that ends the wait with the expected mode has that mode.
told_expected :
    (send_ts : ℕ) (expected : String) (ev : Dict)
    → decides send_ts expected ev ≡ true
    → told send_ts expected ev ≡ ok (text expected)
    → mode_of send_ts ev ≡ ok (some (text expected))
unfolding told
told_expected send_ts expected ev d h = by_told (telling send_ts expected ev)
  where
    by_told : Told send_ts expected ev → mode_of send_ts ev ≡ ok (some (text expected))
    by_told (stumbles e m d') = ground (arith, m)
    by_told (no_mode m d') = ground (arith, d, d')
    by_told (as_expected v m t d') = m ∙ ap (λ x. ok (some x)) (is_text_eq expected v t)
    by_told (other_mode v m t d') = ground (arith, d, d')

other_text :
    (expected : String) (v : Json)
    → str_eq "" expected ≡ false
    → is_text expected v ≡ false
    → is_text expected (or_nothing (some v)) ≡ false
unfolding is_text
other_text expected v e h = elim (Bool-cases (truthy v)) [
  | inl yes_v ↦ rw yes_v h
  | inr no_v ↦ rw no_v e
]

-- Without such an event the mode that is remembered is another one.
latest_other :
    (send_ts : ℕ) (expected : String) (evs : List Dict) (l : Option Json)
    → str_eq "" expected ≡ false
    → first (decides send_ts expected) evs ≡ none
    → is_text expected (or_nothing l) ≡ false
    → is_text expected (or_nothing (latest send_ts evs l)) ≡ false
unfolding latest newer
latest_other send_ts expected [] l e h other = other
latest_other send_ts expected (ev ∷ evs) l e h other =
    by_told (λ l'. latest_other send_ts expected evs l' e) (telling send_ts expected ev)
  where
    by_told :
        ((l' : Option Json)
          → first (decides send_ts expected) evs ≡ none
          → is_text expected (or_nothing l') ≡ false
          → is_text expected (or_nothing (latest send_ts evs l')) ≡ false)
        → Told send_ts expected ev
        → is_text expected (or_nothing (latest send_ts evs (newer send_ts l ev))) ≡ false
    by_told ih (stumbles x m d) = ground (arith, d)
    by_told ih (as_expected v m t d) = ground (arith, d)
    by_told ih (no_mode m d) = rw (m, newer) (ih l (ground (arith, d)) other)
    by_told ih (other_mode v m t d) =
        rw (m, newer) (ih (some v) (ground (arith, d)) (other_text expected v e t))

is_true_lem : (o : Option Json) → is_true o ≡ true → o ≡ some (bool true)
is_true_lem none h = cc
is_true_lem (some null) h = cc
is_true_lem (some (bool true)) h = refl
is_true_lem (some (bool false)) h = cc
is_true_lem (some (num n)) h = cc
is_true_lem (some (text t)) h = cc
is_true_lem (some (arr xs)) h = cc
is_true_lem (some (obj d)) h = cc

-- An event behind a log that has the expected mode.
abbrev pub Shown : ℕ → String → List Dict → List Dict → Type 0
Shown send_ts expected before events =
    (passed after : List Dict) × (ev : Dict) × (events ≡ before ++ (passed ++ ev ∷ after))
    × HasMode send_ts (text expected) ev

module _ (late busy : ℕ → ℕ) (arrive : ℕ → Frames) (send_ts : ℕ) (expected : String)
    (named : str_eq "" expected ≡ false) where
  latest_not_expected :
      (seen : List Dict)
      → first (decides send_ts expected) seen ≡ none
      → ok (text expected) ≡ ok (or_nothing (latest send_ts seen none))
      → ⊥
  unfolding is_text
  latest_not_expected seen missed q =
      let other = latest_other send_ts expected seen none named missed named in
      let self : is_text expected (text expected) ≡ true = eq_refl expected in cc

  Ends-Shown :
      (before : List Dict) (deadline : ℕ) (seen : List Dict) (now : ℕ) (c : Client)
      → first (decides send_ts expected) seen ≡ none
      → Ends late busy arrive send_ts expected before deadline seen now c (ok (text expected))
      → Shown send_ts expected before c.log.events
  Ends-Shown before deadline seen now c missed (inl (over, q)) =
      absurd (latest_not_expected seen missed q)
  Ends-Shown before deadline seen now c missed
        (inr (early, (new, inr ((grown, none_new), (over, q))))) =
      absurd (latest_not_expected new none_new q)
  Ends-Shown before deadline seen now c missed (inr (early, (new, inl (ev, (grown, (ended, q)))))) =
      let (passed, after, (parts, d)) = first-split (decides send_ts expected) new ev ended in
      (
        passed,
        after,
        ev,
        grown ∙ ap (λ l. before ++ l) parts,
        mode_of-HasMode send_ts ev (text expected) (told_expected send_ts expected ev d (sym q)),
      )

  After-Shown :
      (k : ℕ) (before : List Dict) (deadline : ℕ) (seen : List Dict) (now : ℕ) (c c' : Client)
      → first (decides send_ts expected) seen ≡ none
      → After late busy arrive send_ts expected k before deadline seen now c (ok (text expected)) c'
      → Shown send_ts expected before c'.log.events
  After-Shown zero before deadline seen now c c' missed (ends, same) =
      rw same (Ends-Shown before deadline seen now c missed ends)
  After-Shown (suc k) before deadline seen now c c' missed (more, (new, (passed, rest))) =
      After-Shown k before deadline new _ _ c' passed.1 rest

  Returned-Shown :
      (before : List Dict) (deadline : ℕ) (now : ℕ) (c c' : Client)
      → Returned late busy arrive send_ts expected before deadline [] now c
          (some (ok (text expected), c'))
      → Shown send_ts expected before c'.log.events
  Returned-Shown before deadline now c c' (k, h) = After-Shown k before deadline [] now c c' refl h

after_switch-Shown :
    (late busy : ℕ → ℕ) (arrive : ℕ → Frames) (send_ts : ℕ) (expected : String) (fuel timeout : ℕ)
    (r : Reply) (c' : Client)
    → timeout < fuel
    → str_eq "" expected ≡ false
    → after_switch late busy arrive send_ts expected fuel timeout r ≡ some (ok (text expected), c')
    → (resp : Dict) × (r.0 ≡ ok resp)
      × (get "success" resp ≡ some (bool true))
      × Shown send_ts expected r.1.log.events c'.log.events
unfolding after_switch
after_switch-Shown late busy arrive send_ts expected fuel timeout (raised x, c, fs) c' h e found =
    cc
after_switch-Shown late busy arrive send_ts expected fuel timeout (ok resp, c, fs) c' h e found =
    elim (Bool-cases (is_true (get "success" resp))) [
      | inr no_success ↦ let f = rw no_success at found in cc
      | inl success ↦ (
        resp,
        refl,
        is_true_lem (get "success" resp) success,
        Returned-Shown late busy arrive send_ts expected e c.log.events (c.now + timeout) c.now c c'
            (rw (rw success at found) at (
              wait_work_mode_after-Returned late busy arrive send_ts expected fuel timeout c.now c
                h)),
      )
    ]

-- With more fuel than milliseconds of waiting: where `_switch_and_wait` returns the mode that is
-- expected, which is not the empty text: the backend has answered `set_work_mode` with `success` true,
-- and among the events that reached the log after that is a status, received after the call began,
-- whose statistics have this mode.
pub switch_and_wait-Shown :
    (late busy : ℕ → ℕ) (arrive : ℕ → Frames) (work_mode : String) (k : Keywords)
    (expected : String) (fuel timeout : ℕ) (fs : Frames) (c c' : Client)
    → timeout < fuel
    → str_eq "" expected ≡ false
    → switch_and_wait late busy arrive work_mode k expected fuel timeout fs c
      ≡ some (ok (text expected), c')
    → let r =
        set_work_mode work_mode k.default_screw_id k.default_module_id k.barcode_enabled
          k.automation_mode k.modify_user fs c in
      (resp : Dict) × (r.0 ≡ ok resp)
      × (get "success" resp ≡ some (bool true))
      × Shown c.now expected r.1.log.events c'.log.events
unfolding switch_and_wait
switch_and_wait-Shown late busy arrive work_mode k expected fuel timeout fs c =
    after_switch-Shown late busy arrive c.now expected fuel timeout (
      set_work_mode work_mode k.default_screw_id k.default_module_id k.barcode_enabled
        k.automation_mode k.modify_user fs c)
