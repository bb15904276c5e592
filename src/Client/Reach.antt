-- ===== src/Client/Reach.antt =====
-- The states that a client can come to, by any calls in any order, from `WSClient()` on.
pub mod Queues
pub mod Sound
pub mod AnyOf
pub mod Calls
pub mod Types
use sas_tests.Prelude.{Outcome, ok, ℕ, String, ◌≡◌, Bool, some, List}
use sas_tests.Json.{Dict}
use sas_tests.Events.{clear}
use sas_tests.Client.{Client, Frame, Frames, Sent, fresh, connect, disconnect, deliver}
use sas_tests.Client.Waiting.{send, request, request_any, wait_for, burst_same_response}
use sas_tests.Client.Polling.{wait_for_condition}

-- A step is a method of the client, a frame that its receive task handles, or a `clear` of its log.
-- The convenience methods are calls of these.
pub data Step : Client → Client → Type 0 where
  connects : (c : Client) → Step c (connect c)
  disconnects : (c : Client) → Step c (disconnect c).1
  receives : (f : ℕ × Frame) (c : Client) → Step c (deliver f c)
  clears : (c : Client) → Step c (record c { log = clear c.log })
  sends : (m : Sent) (c c' : Client) → send m c ≡ ok c' → Step c c'
  requests : (m : Dict) (t : String) (fs : Frames) (c : Client) → Step c (request m t fs c).1
  requests_any :
      (choice : ℕ) (m : Dict) (ts : List String) (fs : Frames) (c : Client)
      → Step c (request_any choice m ts fs c).1
  waits : (t : String) (fs : Frames) (c : Client) → Step c (wait_for t fs c).1
  bursts :
      (ms : List Dict) (t : String) (fs : Frames) (c : Client)
      → Step c (burst_same_response ms t fs c).1
  polls :
      (late : ℕ → ℕ) (arrive : ℕ → Frames) (fuel : ℕ) (p : Dict → Outcome Bool) (deadline now : ℕ)
      (c c' : Client) (r : Outcome Dict)
      → wait_for_condition late arrive fuel p deadline now c ≡ some (r, c')
      → Step c c'

pub data Reachable : Client → Type 0 where
  new : Reachable fresh
  next : {c c' : Client} → Reachable c → Step c c' → Reachable c'
