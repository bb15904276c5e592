-- ===== src/Client.antt =====
-- lib/ws_client.py: the client's state, and the background task that receives and distributes. The
-- transport is the list of the frames that arrive, each with its time in milliseconds, and the list of
-- what was sent. `json.loads` is in the type of a frame: it is text that does not parse, or the value
-- that it parses to. One more frame stands for the end of the connection that the peer makes.
pub mod Waiting
pub mod Routing
pub mod Routed
pub mod Stream
pub mod Requests
pub mod Polling
pub mod AnyOf
pub mod Methods
pub mod Messages
pub mod Session
pub mod Mailbox
pub mod Reach
pub mod Status
pub mod Closing
use sas_tests.Prelude.{
  if◌then◌else◌, Error, Outcome, attribute_error, type_error, ok, raised, ℕ, String, Bool, true,
  false, ◌||◌, Option, none, some, List, [], ◌∷◌, ◌++◌, str_eq,
}
use sas_tests.Json.{Json, Dict, null, bool, num, text, arr, obj, get}
use sas_tests.Events.{Log, push}
use sas_tests.Events

pub data Frame : Type 0 where
  garbage : Frame
  closed : Frame
  value : Json → Frame

abbrev pub Frames : Type 0
Frames = List (ℕ × Frame)

-- What went out: a `dict` through `json.dumps`, or a text as it is.
pub data Sent : Type 0 where
  json : Dict → Sent
  raw : String → Sent

-- `_pending_responses`: a queue for each type that somebody has waited for.
abbrev pub Queues : Type 0
Queues = List (String × List Dict)

pub record Client : Type 0 where
  -- `_ws is not None`
  pub connected : Bool
  -- whether that socket is still open
  pub is_open : Bool
  -- `_recv_task`: it runs, or an exception has ended it
  pub receiving : Bool
  pub failure : Option Error
  pub log : Log
  pub pending : Queues
  pub last_elapsed : ℕ
  pub now : ℕ
  pub sent : List Sent

-- `WSClient()`
abbrev pub fresh : Client
fresh = record {
  connected = false;
  is_open = false;
  receiving = false;
  failure = none;
  log = Events.fresh;
  pending = [];
  last_elapsed = 0;
  now = 0;
  sent = [];
}

-- `connect`: the new task starts to receive.
unfoldable pub connect : Client → Client
connect c = record c { connected = true; is_open = true; receiving = true; failure = none }

-- `disconnect`: it cancels the task and drops the socket; an exception that had ended the task
-- before comes out of the `await` here, and then the socket is not closed.
unfoldable pub disconnect : Client → Outcome (Unit {0}) × Client
disconnect c = elim c.failure [
  | some e ↦ (raised e, c)
  | none ↦ (ok tt, record c { connected = false; is_open = false; receiving = false })
]

unfoldable pub queue_of : String → Queues → Option (List Dict)
queue_of t [] = none
queue_of t ((k, q) ∷ qs) = if str_eq k t then some q else queue_of t qs

-- `_ensure_queue`
unfoldable pub ensure : String → Queues → Queues
ensure t [] = (t, []) ∷ []
ensure t ((k, q) ∷ qs) = if str_eq k t then (k, q) ∷ qs else (k, q) ∷ ensure t qs

-- `self._pending_responses[t].put(m)`
unfoldable pub enqueue : String → Dict → Queues → Queues
enqueue t m [] = []
enqueue t m ((k, q) ∷ qs) = if str_eq k t then (k, q ++ m ∷ []) ∷ qs else (k, q) ∷ enqueue t m qs

-- `get_nowait` of the queue of a type; `none` where it is empty.
unfoldable pub dequeue : String → Queues → Option (Dict × Queues)
dequeue t [] = none
dequeue t ((k, []) ∷ qs) =
    let rest = dequeue t qs in
    if str_eq k t then none else elim rest [ none ↦ none | some (m, qs') ↦ some (m, (k, []) ∷ qs') ]
dequeue t ((k, x ∷ q) ∷ qs) =
    let rest = dequeue t qs in
    if str_eq k t
    then some (x, (k, q) ∷ qs)
    else elim rest [ none ↦ none | some (m, qs') ↦ some (m, (k, x ∷ q) ∷ qs') ]

-- `msg_type in _IGNORED_TYPES`
unfoldable pub is_ignored : String → Bool
is_ignored t = str_eq t "ping" || str_eq t "pong"

-- Where the loop's tests send a message.
pub data Route : Type 0 where
  crash : Error → Route
  drop : Route
  typed : String → Dict → Route
  untyped : Dict → Route

-- The tests on `msg_type`. A list or `dict` cannot be looked up in a set; a number, a truth value or
-- the empty text is never a key that somebody waits for.
unfoldable pub route_type : Dict → Option Json → Route
unfolding is_ignored
route_type d none = untyped d
route_type d (some null) = untyped d
route_type d (some (bool b)) = untyped d
route_type d (some (num n)) = untyped d
route_type d (some (text t)) =
    if is_ignored t then drop else if str_eq t "" then untyped d else typed t d
route_type d (some (arr xs)) = crash type_error
route_type d (some (obj e)) = crash type_error

-- `msg.get("type")` exists only on a `dict`.
unfoldable pub route : Json → Route
unfolding route_type
route (obj d) = route_type d (get "type" d)
route null = crash attribute_error
route (bool b) = crash attribute_error
route (num n) = crash attribute_error
route (text s) = crash attribute_error
route (arr xs) = crash attribute_error

abbrev pub to_log : ℕ → Dict → Client → Client
to_log now d c = record c { log = push now d c.log; now = now }

abbrev pub to_queue : ℕ → String → Dict → Client → Client
to_queue now t d c = record c { pending = enqueue t d c.pending; now = now }

-- The rest of the loop's body.
unfoldable pub dispatch : ℕ → Route → Client → Client
dispatch now (crash e) c = record c { receiving = false; failure = some e; now = now }
dispatch now drop c = record c { now = now }
dispatch now (untyped d) c = to_log now d c
dispatch now (typed t d) c = elim (queue_of t c.pending) [
  | none ↦ to_log now d c
  | some q ↦ to_queue now t d c
]

-- One round of `_recv_loop`; nothing is handled once the task has ended. The end of the connection
-- ends the loop without an exception.
unfoldable pub deliver : ℕ × Frame → Client → Client
unfolding route dispatch
deliver (now, garbage) c = record c { now = now }
deliver (now, closed) c = record c { is_open = false; receiving = false; now = now }
deliver (now, value m) c = if c.receiving then dispatch now (route m) c else record c { now = now }

-- `_recv_loop` over the frames of a while.
unfoldable pub recv_loop : Frames → Client → Client
unfolding deliver
recv_loop [] c = c
recv_loop (f ∷ fs) c = recv_loop fs (deliver f c)
