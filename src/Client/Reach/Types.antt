-- ===== src/Client/Reach/Types.antt =====
-- What the calls return to a caller that asked for a type.
use sas_tests.Prelude.{All, Outcome, ok, raised, ℕ, String, List, [], ◌∷◌}
use sas_tests.Json.{Dict}
use sas_tests.Client.{Client, Frames}
use sas_tests.Client.Waiting.{
  with_queue, await_get, request, wait_for, send_all, collect, timed_all, burst_same_response,
}
use sas_tests.Client.Reach.{Reachable}
use sas_tests.Client.Reach.Queues.{HasType}
use sas_tests.Client.Reach.Sound.{
  Returned, IsSound, Fits, with_queue-IsSound, await_get-IsFit, request-IsFit,
}
use sas_tests.Client.Reach.Calls.{send_all-Returned, Reachable-IsSound}

abbrev pub FitsAll : String → Outcome (List Dict) → Type 0
FitsAll t (raised e) = Unit {0}
FitsAll t (ok ms) = All (HasType t) ms

-- The rounds of `collect`.
joined-FitsAll :
    (t : String) (r : Outcome Dict) (rs : Outcome (List Dict)) (c c' : Client) (fs fs' : Frames)
    → Fits t r
    → FitsAll t rs
    → FitsAll t
        (elim r as (λ r. Outcome (List Dict) × Client × Frames) [
          | raised e ↦ (raised e, c, fs)
          | ok m ↦ (elim rs [ raised e ↦ raised e | ok out ↦ ok (m ∷ out) ], c', fs')
        ]).0
joined-FitsAll t (raised e) rs c c' fs fs' h hs = tt
joined-FitsAll t (ok m) (raised e) c c' fs fs' h hs = tt
joined-FitsAll t (ok m) (ok out) c c' fs fs' h hs = (h, hs)

collect-FitsAll :
    (ms : List Dict) (t : String) (fs : Frames) (c : Client)
    → IsSound c
    → FitsAll t (collect ms t fs c).0
unfolding collect
collect-FitsAll [] t fs c s = tt
collect-FitsAll (x ∷ ms) t fs c s =
    let (r, c', fs') = await_get t fs c in
    let fit = await_get-IsFit t fs c s in
    let (rs, c'', fs'') = collect ms t fs' c' in
    joined-FitsAll t r rs c' c'' fs' fs'' fit.0 (collect-FitsAll ms t fs' c' fit.1)

timed_all-FitsAll :
    (t : String) (t0 : ℕ) (r : Outcome (List Dict) × Client × Frames)
    → FitsAll t r.0
    → FitsAll t (timed_all t0 r).0
timed_all-FitsAll t t0 (ok ms, c, fs) h = h
timed_all-FitsAll t t0 (raised e, c, fs) h = h

burst-FitsAll :
    (ms : List Dict) (t : String) (fs : Frames) (c : Client)
    → IsSound c
    → FitsAll t (burst_same_response ms t fs c).0
unfolding burst_same_response
burst-FitsAll ms t fs c s =
    by_sent (send_all ms (with_queue t c))
      (send_all-Returned ms (with_queue t c) (with_queue-IsSound t s))
  where
    by_sent :
        (o : Outcome Client)
        → Returned o
        → FitsAll t
            (elim o as (λ o. Outcome (List Dict) × Client × Frames) [
              | raised e ↦ (raised e, with_queue t c, fs)
              | ok c' ↦ timed_all c.now (collect ms t fs c')
            ]).0
    by_sent (raised e) h = tt
    by_sent (ok c') h =
        timed_all-FitsAll t c.now (collect ms t fs c') (collect-FitsAll ms t fs c' h)

-- On a client that calls can lead to from `WSClient()`, and whatever arrives: a message that `request`
-- or `wait_for` returns has the type that was asked for, and so has each message that
-- `burst_same_response` returns.
pub answers_lem :
    {c : Client}
    → Reachable c
    → (t : String) (message : Dict) (messages : List Dict) (fs : Frames)
    → Fits t (request message t fs c).0
      × (Fits t (wait_for t fs c).0 × FitsAll t (burst_same_response messages t fs c).0)
unfolding wait_for
answers_lem {c} r t message messages fs =
    let s = Reachable-IsSound r in
    (
      (request-IsFit message t fs c s).0,
      (
        (await_get-IsFit t fs (with_queue t c) (with_queue-IsSound t s)).0,
        burst-FitsAll messages t fs c s,
      ),
    )
