-- ===== src/Cursor/Mode.antt =====
-- work_mode/test_work_mode_switch.py: the wait for a work mode, `_wait_work_mode_after`, and the
-- switch before it, `_switch_and_wait`. It remembers the last mode that it saw.
pub mod Once
pub mod Status
pub mod Loop
pub mod Confirmed
pub mod Decisions
pub mod Told
use sas_tests.Prelude.{
  ltb, if◌then◌else◌, is_some, length, drop, ◌>>=◌, Outcome, assertion_error, attribute_error,
  type_error, ok, raised, ℕ, zero, suc, ◌+◌, ◌-◌, String, Bool, false, Option, none, some, List, [],
  ◌∷◌,
}
use package.text.Mathlib.Text.{find?}
use Prim.Native.Nat.{min}
use sas_tests.Constants
use sas_tests.Json.{Json, Dict, null, bool, num, text, arr, obj, end, get, get_or, truthy}
use sas_tests.Events.{count, get_all, has_type, is_text}
use sas_tests.Client.{Client, Frames, recv_loop}
use sas_tests.Client.Waiting.{Reply}
use sas_tests.Client.Methods.{lists_text, set_work_mode}
use sas_tests.Cursor.{is_stale}

-- `x.get("job_statistics", {})`
unfoldable pub stats_in : Json → Outcome Json
unfolding get_or
stats_in (obj d) = ok (get_or "job_statistics" (obj end) d)
stats_in null = raised attribute_error
stats_in (bool b) = raised attribute_error
stats_in (num n) = raised attribute_error
stats_in (text s) = raised attribute_error
stats_in (arr xs) = raised attribute_error

-- `ev.get("data", {}).get("job_statistics", {})`
unfoldable pub stats_of : Dict → Outcome Json
unfolding get_or stats_in
stats_of ev = stats_in (get_or "data" (obj end) ev)

-- `"work_mode" not in stats`, and else `stats["work_mode"]`
unfoldable pub mode_at : Json → Outcome (Option Json)
unfolding get
mode_at (obj d) = ok (get "work_mode" d)
mode_at (text s) = if is_some (find? s "work_mode") then raised type_error else ok none
mode_at (arr xs) = if lists_text "work_mode" xs then raised type_error else ok none
mode_at null = raised type_error
mode_at (bool b) = raised type_error
mode_at (num n) = raised type_error

-- The mode of an event, if it is a status after `send_ts` that has one.
unfoldable pub mode_of : ℕ → Dict → Outcome (Option Json)
unfolding is_stale stats_of mode_at get
mode_of send_ts ev =
    if has_type Constants.hardware_status_update ev
    then is_stale send_ts (get "_received_at" ev)
      >>= (λ old. if old then ok none else stats_of ev >>= mode_at)
    else ok none

-- The loop over some events: the expected mode, or the last mode so far.
pub data Scanned : Type 0 where
  hit : Json → Scanned
  so_far : Option Json → Scanned

unfoldable pub scan : ℕ → String → List Dict → Option Json → Outcome Scanned
unfolding mode_of
scan send_ts expected [] last_mode = ok (so_far last_mode)
scan send_ts expected (ev ∷ evs) last_mode =
    let passed = scan send_ts expected evs last_mode in
    elim (mode_of send_ts ev) [
      | raised e ↦ raised e
      | ok none ↦ passed
      | ok (some v) ↦ if is_text expected v then ok (hit v) else scan send_ts expected evs (some v)
    ]

-- `last_mode or ""`
abbrev pub or_nothing : Option Json → Json
or_nothing none = text ""
or_nothing (some v) = if truthy v then v else text ""

-- `late` is how much longer a sleep takes than it should, `busy` how long a look takes; `arrive` are
-- the frames of a sleep.
module _ (late busy : ℕ → ℕ) (arrive : ℕ → Frames) (send_ts : ℕ) (expected : String) where
  -- The time after the sleep of `min(0.1, remaining)`.
  abbrev pub slept : ℕ → ℕ → ℕ
  slept deadline now = now + min 100 (deadline - now) + late now

  -- The loop. `none` stands for a run that the fuel cut short.
  unfoldable pub mode_loop : ℕ → ℕ → ℕ → ℕ → Option Json → Client → Option (Outcome Json × Client)
  unfolding get_all scan
  mode_loop zero deadline now next_idx last_mode c = none
  mode_loop (suc fuel) deadline now next_idx last_mode c =
      let events = get_all none c.log in
      let looked = now + busy now in
      if ltb now deadline
      then elim (scan send_ts expected (drop next_idx events) last_mode) [
        | raised e ↦ some (raised e, c)
        | ok (hit v) ↦ some (ok v, c)
        | ok (so_far l) ↦
            (let rest =
                mode_loop fuel deadline (slept deadline looked) (length events) l
                  (recv_loop (arrive looked) c) in
              if ltb looked deadline then rest else some (ok (or_nothing l), c))
      ]
      else some (ok (or_nothing last_mode), c)

  -- `_wait_work_mode_after`
  unfoldable pub wait_work_mode_after : ℕ → ℕ → ℕ → Client → Option (Outcome Json × Client)
  unfolding mode_loop count
  wait_work_mode_after fuel timeout now c = mode_loop fuel (now + timeout) now (count c.log) none c

-- `resp.get("success") is True`
abbrev pub is_true : Option Json → Bool
is_true (some (bool b)) = b
is_true (some null) = false
is_true (some (num n)) = false
is_true (some (text s)) = false
is_true (some (arr xs)) = false
is_true (some (obj d)) = false
is_true none = false

-- What `_switch_and_wait` does with the answer to the switch. The wait begins when the answer is
-- there.
unfoldable pub after_switch :
    (ℕ → ℕ) → (ℕ → ℕ) → (ℕ → Frames) → ℕ → String → ℕ → ℕ → Reply → Option (Outcome Json × Client)
unfolding wait_work_mode_after get
after_switch late busy arrive send_ts expected fuel timeout (r, c, fs) = elim r [
  | raised e ↦ some (raised e, c)
  | ok resp ↦
      if is_true (get "success" resp)
      then wait_work_mode_after late busy arrive send_ts expected fuel timeout c.now c
      else some (raised assertion_error, c)
]

-- The keyword arguments of `set_work_mode`.
pub record Keywords : Type 0 where
  pub default_screw_id : ℕ
  pub default_module_id : ℕ
  pub barcode_enabled : Bool
  pub automation_mode : Bool
  pub modify_user : String

-- `_switch_and_wait`
unfoldable pub switch_and_wait :
    (ℕ → ℕ)
    → (ℕ → ℕ)
    → (ℕ → Frames)
    → String
    → Keywords
    → String
    → ℕ
    → ℕ
    → Frames
    → Client
    → Option (Outcome Json × Client)
unfolding after_switch set_work_mode
switch_and_wait late busy arrive work_mode k expected fuel timeout fs c =
    after_switch late busy arrive c.now expected fuel timeout (
      set_work_mode work_mode k.default_screw_id k.default_module_id k.barcode_enabled
        k.automation_mode k.modify_user fs c)
