-- ===== src/Client/Reach/Calls.antt =====
-- What holds of every reachable client.
use sas_tests.Prelude.{
  ◌>>=◌, Error, Outcome, ok, raised, ℕ, zero, suc, String, ◌≡◌, refl, Bool, false, Option, none,
  some, List, [], ◌∷◌, arith,
}
use mathlib.Core.Path.{subst}
use sas_tests.Json.{Dict}
use sas_tests.Client.{Client, Frames, json, connect, disconnect, recv_loop}
use sas_tests.Client.Waiting.{
  send, with_queue, await_get, wait_for, send_all, collect, timed_all, burst_same_response,
}
use sas_tests.Client.Polling.{wait_for_condition, slept}
use sas_tests.Client.Reach.{
  Step, connects, disconnects, receives, clears, sends, requests, requests_any, waits, bursts,
  polls, Reachable, new, next,
}
use sas_tests.Client.Reach.Sound.{
  Returned, send-Returned, IsSound, with_queue-IsSound, deliver-IsSound, recv_loop-IsSound,
  await_get-IsFit, request-IsFit,
}
use sas_tests.Client.Reach.AnyOf.{request_any-IsSound}

Returned-then :
    (o : Outcome Client) (f : Client → Outcome Client)
    → Returned o
    → ((c : Client) → IsSound c → Returned (f c))
    → Returned (o >>= f)
Returned-then (raised e) f h k = tt
Returned-then (ok c) f h k = k c h

pub send_all-Returned : (ms : List Dict) (c : Client) → IsSound c → Returned (send_all ms c)
unfolding send_all
send_all-Returned [] c s = s
send_all-Returned (m ∷ ms) c s =
    Returned-then (send (json m) c) (send_all ms) (send-Returned (json m) c s)
      (send_all-Returned ms)

collected-IsSound :
    (r : Outcome Dict) (rs : Outcome (List Dict)) (c c' : Client) (fs fs' : Frames)
    → IsSound c
    → IsSound c'
    → IsSound
        (elim r as (λ r. Outcome (List Dict) × Client × Frames) [
          | raised e ↦ (raised e, c, fs)
          | ok m ↦ (elim rs [ raised e ↦ raised e | ok out ↦ ok (m ∷ out) ], c', fs')
        ]).1
collected-IsSound (raised e) rs c c' fs fs' s s' = s
collected-IsSound (ok m) rs c c' fs fs' s s' = s'

collect-IsSound :
    (ms : List Dict) (t : String) (fs : Frames) (c : Client)
    → IsSound c
    → IsSound (collect ms t fs c).1
unfolding collect
collect-IsSound [] t fs c s = s
collect-IsSound (x ∷ ms) t fs c s =
    let (r, c', fs') = await_get t fs c in
    let s' = (await_get-IsFit t fs c s).1 in
    let (rs, c'', fs'') = collect ms t fs' c' in
    collected-IsSound r rs c' c'' fs' fs'' s' (collect-IsSound ms t fs' c' s')

timed_all-IsSound :
    (t0 : ℕ) (r : Outcome (List Dict) × Client × Frames) → IsSound r.1 → IsSound (timed_all t0 r).1
timed_all-IsSound t0 (ok ms, c, fs) s = record { queues = s.queues; phase = s.phase }
timed_all-IsSound t0 (raised e, c, fs) s = s

burst-IsSound :
    (ms : List Dict) (t : String) (fs : Frames) (c : Client)
    → IsSound c
    → IsSound (burst_same_response ms t fs c).1
unfolding burst_same_response
burst-IsSound ms t fs c s =
    by_sent (send_all ms (with_queue t c))
      (send_all-Returned ms (with_queue t c) (with_queue-IsSound t s))
  where
    by_sent :
        (o : Outcome Client)
        → Returned o
        → IsSound
            (elim o as (λ o. Outcome (List Dict) × Client × Frames) [
              | raised e ↦ (raised e, with_queue t c, fs)
              | ok c' ↦ timed_all c.now (collect ms t fs c')
            ]).1
    by_sent (raised e) h = with_queue-IsSound t s
    by_sent (ok c') h = timed_all-IsSound c.now (collect ms t fs c') (collect-IsSound ms t fs c' h)

abbrev Polled : Option (Outcome Dict × Client) → Type 0
Polled none = Unit {0}
Polled (some (r, c)) = IsSound c

wait_for_condition-Polled :
    (late : ℕ → ℕ) (arrive : ℕ → Frames) (fuel : ℕ) (p : Dict → Outcome Bool) (deadline now : ℕ)
    (c : Client)
    → IsSound c
    → Polled (wait_for_condition late arrive fuel p deadline now c)
unfolding wait_for_condition
wait_for_condition-Polled late arrive zero p deadline now c s = tt
wait_for_condition-Polled late arrive (suc fuel) p deadline now c s = ground (
  arith,
  wait_for_condition-Polled late arrive fuel p deadline (slept late arrive deadline now)
      (recv_loop (arrive now) c) (recv_loop-IsSound (arrive now) c s),
)

disconnect-IsSound : (c : Client) → IsSound c → IsSound (disconnect c).1
unfolding disconnect
disconnect-IsSound c s = by_failure c.failure refl
  where
    by_failure :
        (o : Option Error)
        → c.failure ≡ o
        → IsSound
            (elim o as (λ o. Outcome (Unit {0}) × Client) [
              | some e ↦ (raised e, c)
              | none ↦ (ok tt, record c { connected = false; is_open = false; receiving = false })
            ]).1
    by_failure (some e) h = s
    by_failure none h = record { queues = s.queues; phase = rw h tt }

Step-IsSound : {c c' : Client} → Step c c' → IsSound c → IsSound c'
unfolding connect wait_for
Step-IsSound (connects c) s = record { queues = s.queues; phase = tt }
Step-IsSound (disconnects c) s = disconnect-IsSound c s
Step-IsSound (receives f c) s = deliver-IsSound f c s
Step-IsSound (clears c) s = record { queues = s.queues; phase = s.phase }
Step-IsSound (sends m c c' e) s = subst Returned e (send-Returned m c s)
Step-IsSound (requests m t fs c) s = (request-IsFit m t fs c s).1
Step-IsSound (requests_any choice m ts fs c) s = request_any-IsSound choice m ts fs c s
Step-IsSound (waits t fs c) s = (await_get-IsFit t fs (with_queue t c) (with_queue-IsSound t s)).1
Step-IsSound (bursts ms t fs c) s = burst-IsSound ms t fs c s
Step-IsSound (polls late arrive fuel p deadline now c c' r e) s =
    subst Polled e (wait_for_condition-Polled late arrive fuel p deadline now c s)

-- Every client that calls can lead to from `WSClient()` has at most one queue for a type, only
-- messages of the type in it, and is in one of four phases: not connected, with no exception kept;
-- connected, with the connection open, receiving and with no exception; connected with a connection
-- and a task that have ended, with none; or connected with a task that the kept exception ended.
pub Reachable-IsSound : {c : Client} → Reachable c → IsSound c
Reachable-IsSound new = record { queues = tt; phase = tt }
Reachable-IsSound (next r st) = Step-IsSound st (Reachable-IsSound r)
