-- ===== src/Cursor.antt =====
-- The waits with a cursor of the test modules: `_wait_status_after`
-- (work_mode/test_single_screw_state_machine_plan.py) and `_wait_compliance_event`
-- (machine_type/test_spec_compliance_highlight_plan.py). Each event of the log is looked at once, and
-- only those behind the cursor.
pub mod Scan
pub mod Wait
pub mod Mode
pub mod Query
use sas_tests.Prelude.{
  ltb, if◌then◌else◌, length, drop, ◌>>=◌, Outcome, timeout_error, type_error, ok, raised, ℕ, zero,
  suc, ◌+◌, Bool, true, false, not, ◌||◌, Option, none, some,
}
use sas_tests.Constants
use sas_tests.Prelude.Int.{pos, leb_ℤ}
use sas_tests.Json.{Json, Dict, null, bool, num, text, arr, obj, get}
use sas_tests.Events.{count, get_all, has_type}
use sas_tests.Client.{Client, Frames, recv_loop}
use sas_tests.Client.Polling.{scan}

-- `ev.get("_received_at", 0) <= send_ts`; only numbers and truth values can be compared.
unfoldable pub is_stale : ℕ → Option Json → Outcome Bool
is_stale send_ts none = ok true
is_stale send_ts (some (num t)) = ok (leb_ℤ t (pos send_ts))
is_stale send_ts (some (bool b)) = ok (leb_ℤ (pos (if b then 1000 else 0)) (pos send_ts))
is_stale send_ts (some null) = raised type_error
is_stale send_ts (some (text s)) = raised type_error
is_stale send_ts (some (arr xs)) = raised type_error
is_stale send_ts (some (obj d)) = raised type_error

-- The tests of `_wait_status_after` on one event; the predicate may raise.
unfoldable pub accepts_status : ℕ → Option (Dict → Outcome Bool) → Dict → Outcome Bool
unfolding is_stale
accepts_status send_ts predicate ev =
    if has_type Constants.hardware_status_update ev
    then is_stale send_ts (get "_received_at" ev)
      >>= (λ old. if old then ok false else elim predicate [ none ↦ ok true | some p ↦ p ev ])
    else ok false

-- The tests of `_wait_compliance_event`.
unfoldable pub accepts_compliance : ℕ → Dict → Outcome Bool
unfolding is_stale
accepts_compliance send_ts ev =
    if has_type "spec_compliance_update" ev || has_type "spec_compliance_query_response" ev
    then is_stale send_ts (get "_received_at" ev) >>= (λ old. ok (not old))
    else ok false

-- `late` is how much longer a sleep takes than it should; `arrive` are the frames of a sleep.
module _ (late : ℕ → ℕ) (arrive : ℕ → Frames) (accepts : Dict → Outcome Bool) (pause : ℕ) where
  -- The time after the sleep.
  abbrev pub slept : ℕ → ℕ
  slept now = now + pause + late now

  -- The loop from the cursor `next_idx` on. `none` stands for a run that the fuel cut short.
  unfoldable pub cursor_loop : ℕ → ℕ → ℕ → ℕ → Client → Option (Outcome Dict × Client)
  unfolding get_all scan
  cursor_loop zero deadline now next_idx c = none
  cursor_loop (suc fuel) deadline now next_idx c =
      let events = get_all none c.log in
      let rest = cursor_loop fuel deadline (slept now) (length events) (recv_loop (arrive now) c) in
      if ltb now deadline
      then elim (scan accepts (drop next_idx events)) [
        | raised e ↦ some (raised e, c)
        | ok found ↦ elim found [ some ev ↦ some (ok ev, c) | none ↦ rest ]
      ]
      else some (raised timeout_error, c)

  -- The whole call: the cursor begins at the end of the log.
  unfoldable pub wait_after : ℕ → ℕ → ℕ → Client → Option (Outcome Dict × Client)
  unfolding cursor_loop count
  wait_after fuel timeout now c = cursor_loop fuel (now + timeout) now (count c.log) c

-- `_wait_status_after`; the predicate is the caller's.
unfoldable pub wait_status_after :
    (ℕ → ℕ)
    → (ℕ → Frames)
    → ℕ
    → Option (Dict → Outcome Bool)
    → ℕ
    → ℕ
    → ℕ
    → Client
    → Option (Outcome Dict × Client)
unfolding accepts_status wait_after
wait_status_after late arrive send_ts predicate =
    wait_after late arrive (accepts_status send_ts predicate) 100

-- `_wait_compliance_event`
unfoldable pub wait_compliance_event :
    (ℕ → ℕ) → (ℕ → Frames) → ℕ → ℕ → ℕ → ℕ → Client → Option (Outcome Dict × Client)
unfolding accepts_compliance wait_after
wait_compliance_event late arrive send_ts = wait_after late arrive (accepts_compliance send_ts) 50
