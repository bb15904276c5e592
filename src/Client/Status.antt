-- ===== src/Client/Status.antt =====
-- lib/ws_client.py: what the client shows of itself, and the read past its receive task.
use sas_tests.Prelude.{
  if◌then◌else◌, Outcome, assertion_error, value_error, connection_error, ok, raised, ℕ, Bool, true,
  false, not, Option, none, some,
}
use sas_tests.Json.{Json}
use sas_tests.Events.{Log}
use sas_tests.Client.{Client, Frame, garbage, closed, value}

-- The attributes of a socket of the websockets package, each of which its version may lack; of
-- `state`, whether it is `OPEN`.
pub record Socket : Type 0 where
  pub is_open : Option Bool
  pub state : Option Bool
  pub closed : Option Bool

-- `connected`
unfoldable pub is_connected : Option Socket → Bool
is_connected none = false
is_connected (some ws) = elim ws.is_open [
  | some b ↦ b
  | none ↦ elim ws.state [ some b ↦ b | none ↦ elim ws.closed [ some b ↦ not b | none ↦ true ] ]
]

-- `last_elapsed_ms`
abbrev pub last_elapsed_ms : Client → ℕ
last_elapsed_ms c = c.last_elapsed

-- `events`
abbrev pub events : Client → Log
events c = c.log

-- `recv`, given how the socket's `recv` ends in the time.
unfoldable pub recv : Outcome Frame → Client → Outcome Json
recv got c =
    if c.connected
    then elim got [
      | raised e ↦ raised e
      | ok frame ↦ elim frame [
        | garbage ↦ raised value_error
        | closed ↦ raised connection_error
        | value v ↦ ok v
      ]
    ]
    else raised assertion_error
