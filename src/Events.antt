-- ===== src/Events.antt =====
-- lib/event_accumulator.py: the log of the messages that the backend pushes, and the loop that
-- waits for one. `asyncio` runs one task at a time and the lock is never held across a wait, so a
-- method body between two waits is one step. The clock is in milliseconds.
pub mod Wait
pub mod Queries
use sas_tests.Prelude.{
  ltb, leb, if◌then◌else◌, length, keep, first, Outcome, timeout_error, assertion_error, ok, raised,
  ℕ, String, Bool, true, false, ◌&&◌, Option, none, some, List, [], ◌∷◌, ◌++◌, str_eq,
}
use sas_tests.Json.{Json, Dict, null, bool, num, text, arr, obj, milli, get, put}

-- `EventAccumulator`: `_events`, and whether `_new_event` is set.
pub record Log : Type 0 where
  pub events : List Dict
  pub signalled : Bool

-- `EventAccumulator()`
abbrev pub fresh : Log
fresh = record { events = []; signalled = false }

-- `v == t` for a text `t`
unfoldable pub is_text : String → Json → Bool
is_text t (text s) = str_eq s t
is_text t null = false
is_text t (bool _) = false
is_text t (num _) = false
is_text t (arr _) = false
is_text t (obj _) = false

-- `e.get("type") == t`
unfoldable pub has_type : String → Dict → Bool
unfolding is_text
has_type t e = elim (get "type" e) [ none ↦ false | some v ↦ is_text t v ]

-- `message["_received_at"] = time.monotonic()`
abbrev pub stamp : ℕ → Dict → Dict
stamp now message = put "_received_at" (milli now) message

unfoldable pub push : ℕ → Dict → Log → Log
push now message s = record { events = s.events ++ stamp now message ∷ []; signalled = true }

unfoldable pub clear : Log → Log
clear s = record { events = []; signalled = false }

unfoldable pub get_all : Option String → Log → List Dict
get_all none s = s.events
get_all (some t) s = keep (has_type t) s.events

unfoldable pub count : Log → ℕ
count s = length s.events

unfoldable pub assert_event_occurred : String → Log → Outcome Dict
assert_event_occurred t s = elim (first (has_type t) s.events) [
  | some ev ↦ ok ev
  | none ↦ raised assertion_error
]

unfoldable pub assert_no_event : String → Log → Outcome (Unit {0})
assert_no_event t s = elim (first (has_type t) s.events) [
  | some ev ↦ raised assertion_error
  | none ↦ ok tt
]

-- The test inside the scan of `wait_for_event`.
unfoldable pub matches : String → Option (Dict → Bool) → Dict → Bool
matches t none ev = has_type t ev
matches t (some p) ev = has_type t ev && p ev

-- Messages that arrive while a waiter sleeps, each with its time, and the time at which the waiter
-- could run next.
pub record Wake : Type 0 where
  pub arrived : List (ℕ × Dict)
  pub now : ℕ

unfoldable pub push_all : List (ℕ × Dict) → Log → Log
unfolding push
push_all [] s = s
push_all ((now, message) ∷ ms) s = push_all ms (push now message s)

-- `_new_event.clear()`
abbrev pub lower : Log → Log
lower s = record s { signalled = false }

-- A look at the log at a time, and what follows where nothing fits.
unfoldable pub looked :
    String → Option (Dict → Bool) → ℕ → ℕ → Log → Outcome Dict × Log → Outcome Dict × Log
unfolding matches
looked t p deadline now s sleep = elim (first (matches t p) s.events) [
  | some ev ↦ (ok ev, s)
  | none ↦ if leb deadline now then (raised timeout_error, s) else sleep
]

-- `await asyncio.wait_for(self._new_event.wait(), ...)` and the rounds after it: the waiter sleeps on
-- while `_new_event` is not set, and looks again when it is.
unfoldable pub asleep : String → Option (Dict → Bool) → ℕ → List Wake → Log → Outcome Dict × Log
unfolding push_all looked
asleep t p deadline [] s = (raised timeout_error, s)
asleep t p deadline (w ∷ ws) s =
    let s' = push_all w.arrived s in
    let rest = asleep t p deadline ws (if s'.signalled then lower s' else s') in
    if ltb deadline w.now
    then (raised timeout_error, s)
    else if s'.signalled
    then looked t p deadline w.now s' rest
    else rest

-- `wait_for_event`
unfoldable pub wait_for_event :
    String → Option (Dict → Bool) → ℕ → ℕ → List Wake → Log → Outcome Dict × Log
unfolding looked asleep
wait_for_event t p deadline now ws s = looked t p deadline now s (asleep t p deadline ws (lower s))
