-- ===== src/Client/Waiting.antt =====
-- lib/ws_client.py: sending, and the calls that wait for a message. The frames that a call is given
-- are those that arrive before its time is up; a call hands on those that it did not wait for.
use sas_tests.Prelude.{
  if◌then◌else◌, ◌>>=◌, Outcome, timeout_error, assertion_error, connection_error, ok, raised, ℕ,
  zero, suc, ◌-◌, String, none, some, List, [], ◌∷◌, ◌++◌,
}
use sas_tests.Json.{Dict}
use sas_tests.Client.{Client, Sent, json, Frames, Queues, ensure, dequeue, deliver}

-- `send` and `send_raw`; the socket's `send` raises `ConnectionClosed` once the connection has ended.
unfoldable pub send : Sent → Client → Outcome Client
send m c =
    if c.connected
    then if c.is_open then ok (record c { sent = c.sent ++ m ∷ [] }) else raised connection_error
    else raised assertion_error

-- `self._ensure_queue(t)`
abbrev pub with_queue : String → Client → Client
with_queue t c = record c { pending = ensure t c.pending }

abbrev pub Reply : Type 0
Reply = Outcome Dict × Client × Frames

-- `asyncio.wait_for(queue.get(), timeout)`
unfoldable pub await_get : String → Frames → Client → Reply
await_get t [] c = elim (dequeue t c.pending) [
  | some (m, qs) ↦ (ok m, record c { pending = qs }, [])
  | none ↦ (raised timeout_error, c, [])
]
await_get t (f ∷ fs) c =
    let rest = await_get t fs (deliver f c) in
    elim (dequeue t c.pending) [
      | some (m, qs) ↦ (ok m, record c { pending = qs }, f ∷ fs)
      | none ↦ rest
    ]

-- `self._last_elapsed_ms = (time.monotonic() - t0) * 1000`, only where a response came
abbrev pub timed : ℕ → Reply → Reply
timed t0 (ok m, c, fs) = (ok m, record c { last_elapsed = c.now - t0 }, fs)
timed t0 (raised e, c, fs) = (raised e, c, fs)

unfoldable pub request : Dict → String → Frames → Client → Reply
unfolding send await_get
request message t fs c = elim (send (json message) (with_queue t c)) [
  | raised e ↦ (raised e, with_queue t c, fs)
  | ok c' ↦ timed c.now (await_get t fs c')
]

unfoldable pub wait_for : String → Frames → Client → Reply
unfolding await_get
wait_for t fs c = await_get t fs (with_queue t c)

-- `queues = [self._ensure_queue(t) for t in response_types]`
unfoldable pub ensure_all : List String → Queues → Queues
unfolding ensure
ensure_all [] qs = qs
ensure_all (t ∷ ts) qs = ensure_all ts (ensure t qs)

-- Each of the tasks `q.get()` takes a message, if its queue has one: what they took.
unfoldable pub take_each : List String → Queues → List Dict × Queues
unfolding dequeue
take_each [] qs = ([], qs)
take_each (t ∷ ts) qs = elim (dequeue t qs) [
  | none ↦ take_each ts qs
  | some (m, qs') ↦ (let (ms, qs'') = take_each ts qs' in (m ∷ ms, qs''))
]

-- `next(iter(done))`: the order of a set of tasks is not specified, so `choice` stands for it.
unfoldable pub pick : ℕ → Dict → List Dict → Dict
pick zero m ms = m
pick (suc n) m [] = m
pick (suc n) m (m' ∷ ms) = pick n m' ms

-- `asyncio.wait(get_tasks, timeout, FIRST_COMPLETED)` and what follows it
unfoldable pub await_any : ℕ → List String → Frames → Client → Reply
unfolding take_each pick
await_any choice ts [] c =
    let (ms, qs) = take_each ts c.pending in
    elim ms [
      | [] ↦ (raised timeout_error, c, [])
      | m ∷ rest ↦ (ok (pick choice m rest), record c { pending = qs }, [])
    ]
await_any choice ts (f ∷ fs) c =
    let later = await_any choice ts fs (deliver f c) in
    let (ms, qs) = take_each ts c.pending in
    elim ms [ [] ↦ later | m ∷ rest ↦ (ok (pick choice m rest), record c { pending = qs }, f ∷ fs) ]

unfoldable pub request_any : ℕ → Dict → List String → Frames → Client → Reply
unfolding send ensure_all await_any
request_any choice message ts fs c =
    let c0 = record c { pending = ensure_all ts c.pending } in
    elim (send (json message) c0) [
      | raised e ↦ (raised e, c0, fs)
      | ok c' ↦ timed c.now (await_any choice ts fs c')
    ]

-- `for m in messages: await self.send(m)`
unfoldable pub send_all : List Dict → Client → Outcome Client
unfolding send
send_all [] c = ok c
send_all (m ∷ ms) c = do c' ← send (json m) c; send_all ms c'

-- `for _ in messages: out.append(await asyncio.wait_for(q.get(), timeout_each))`, with the list of
-- what is still to come in front of each round.
unfoldable pub collect :
    List Dict → String → Frames → Client → Outcome (List Dict) × Client × Frames
unfolding await_get
collect [] t fs c = (ok [], c, fs)
collect (_ ∷ ms) t fs c =
    let (r, c', fs') = await_get t fs c in
    let (rs, c'', fs'') = collect ms t fs' c' in
    elim r [
      | raised e ↦ (raised e, c', fs')
      | ok m ↦ (elim rs [ raised e ↦ raised e | ok out ↦ ok (m ∷ out) ], c'', fs'')
    ]

abbrev pub timed_all :
    ℕ → Outcome (List Dict) × Client × Frames → Outcome (List Dict) × Client × Frames
timed_all t0 (ok ms, c, fs) = (ok ms, record c { last_elapsed = c.now - t0 }, fs)
timed_all t0 (raised e, c, fs) = (raised e, c, fs)

unfoldable pub burst_same_response :
    List Dict → String → Frames → Client → Outcome (List Dict) × Client × Frames
unfolding send_all collect
burst_same_response messages t fs c = elim (send_all messages (with_queue t c)) [
  | raised e ↦ (raised e, with_queue t c, fs)
  | ok c' ↦ timed_all c.now (collect messages t fs c')
]
