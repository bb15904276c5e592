-- ===== src/Cursor/Wait.antt =====
-- What the waits with a cursor return.
use sas_tests.Prelude.{
  Outcome, timeout_error, ok, raised, ℕ, zero, suc, ◌≤◌, ◌<◌, ◌≡◌, ◌⊎◌, Bool, Option, none, some,
  List, ◌++◌,
}
use sas_tests.Json.{Dict}
use sas_tests.Client.{Client, Frames, recv_loop}
use sas_tests.Cursor.{slept}
use sas_tests.Client.Polling.{scan}

module _ (late : ℕ → ℕ) (arrive : ℕ → Frames) (accepts : Dict → Outcome Bool) (pause : ℕ) where
  -- What the tests make of the events of the log behind `before`.
  abbrev pub Fresh : List Dict → Client → Outcome (Option Dict) → Type 0
  Fresh before c found =
      (new : List Dict) × ((c.log.events ≡ before ++ new) × (scan accepts new ≡ found))

  -- How the round at `now` ends the call: before the deadline with the first accepted event behind
  -- `before`, or with what the tests raise before they accept one; or at the deadline or after it with
  -- a timeout.
  abbrev pub Ends : List Dict → ℕ → ℕ → Client → Outcome Dict → Type 0
  Ends before deadline now c (ok ev) = (now < deadline) × Fresh before c (ok (some ev))
  Ends before deadline now c (raised e) =
      ((deadline ≤ now) × (e ≡ timeout_error)) ⊎ ((now < deadline) × Fresh before c (raised e))

  -- The call ends after `k` sleeps. Before each of them the time was not over, and none of all the
  -- events behind `before` was accepted.
  abbrev pub After : ℕ → List Dict → ℕ → ℕ → Client → Outcome Dict → Client → Type 0
  After zero before deadline now c r c' = Ends before deadline now c r × (c' ≡ c)
  After (suc k) before deadline now c r c' =
      ((now < deadline) × Fresh before c (ok none))
      × After k before deadline (slept late arrive accepts pause now) (recv_loop (arrive now) c) r
          c'

  abbrev pub Waited : List Dict → ℕ → ℕ → Client → Option (Outcome Dict × Client) → Type 0
  Waited before deadline now c none = ⊥
  Waited before deadline now c (some (r, c')) = (k : ℕ) × After k before deadline now c r c'
