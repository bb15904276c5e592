-- ===== src/Client/Reach/AnyOf.antt =====
-- What a request for several types keeps.
use sas_tests.Prelude.{
  Option-cases, Outcome, timeout_error, ok, raised, ℕ, String, inl, inr, List, [], ◌∷◌,
}
use sas_tests.Json.{Dict}
use sas_tests.Client.{Client, Frames, Queues, json, ensure, dequeue, deliver}
use sas_tests.Client.Waiting.{
  send, Reply, timed, ensure_all, take_each, pick, await_any, request_any,
}
use sas_tests.Client.Reach.Queues.{Good, ensure-Good, dequeue-Good}
use sas_tests.Client.Reach.Sound.{IsSound, Returned, send-Returned, deliver-IsSound}

ensure_all-Good : (ts : List String) (qs : Queues) → Good qs → Good (ensure_all ts qs)
unfolding ensure_all
ensure_all-Good [] qs g = g
ensure_all-Good (t ∷ ts) qs g = ensure_all-Good ts (ensure t qs) (ensure-Good t qs g)

take_each-Good : (ts : List String) (qs : Queues) → Good qs → Good (take_each ts qs).1
unfolding take_each
take_each-Good [] qs g = g
take_each-Good (t ∷ ts) qs g = elim (Option-cases (dequeue t qs)) [
  | inl e ↦ rw (e, take_each) (take_each-Good ts qs g)
  | inr ((m, qs'), e) ↦ rw (e, take_each) (take_each-Good ts qs' (dequeue-Good t qs qs' m e g).1)
]

await_any-IsSound :
    (choice : ℕ) (ts : List String) (fs : Frames) (c : Client)
    → IsSound c
    → IsSound (await_any choice ts fs c).1
unfolding await_any
await_any-IsSound choice ts [] c s = by_taken (take_each ts c.pending).0
  where
    by_taken :
        (ms : List Dict)
        → IsSound
            (elim ms as (λ ms. Reply) [
              | [] ↦ (raised timeout_error, c, [])
              | m ∷ rest ↦
                  (ok (pick choice m rest), record c { pending = (take_each ts c.pending).1 }, [])
            ]).1
    by_taken [] = s
    by_taken (m ∷ rest) = record { queues = take_each-Good ts c.pending s.queues; phase = s.phase }
await_any-IsSound choice ts (f ∷ fs) c s =
    by_taken (await_any-IsSound choice ts fs (deliver f c) (deliver-IsSound f c s))
      (take_each ts c.pending).0
  where
    by_taken :
        IsSound (await_any choice ts fs (deliver f c)).1
        → (ms : List Dict)
        → IsSound
            (elim ms as (λ ms. Reply) [
              | [] ↦ await_any choice ts fs (deliver f c)
              | m ∷ rest ↦ (
                ok (pick choice m rest),
                record c { pending = (take_each ts c.pending).1 },
                f ∷ fs,
              )
            ]).1
    by_taken later [] = later
    by_taken later (m ∷ rest) = record {
      queues = take_each-Good ts c.pending s.queues;
      phase = s.phase;
    }

-- The state under a reply that `timed` has stamped.
timed-IsSound : (t0 : ℕ) (r : Reply) → IsSound r.1 → IsSound (timed t0 r).1
timed-IsSound t0 (ok m, c, fs) s = record { queues = s.queues; phase = s.phase }
timed-IsSound t0 (raised e, c, fs) s = s

abbrev ready : List String → Client → Client
ready ts c = record c { pending = ensure_all ts c.pending }

ready-IsSound : {c : Client} (ts : List String) → IsSound c → IsSound (ready ts c)
ready-IsSound {c} ts s = record { queues = ensure_all-Good ts c.pending s.queues; phase = s.phase }

-- What `request_any` does, by the outcome of its `send`.
awaited :
    (choice : ℕ) (m : Dict) (ts : List String) (fs : Frames) (c : Client) (o : Outcome Client)
    → IsSound c
    → Returned o
    → IsSound
        (elim o as (λ o. Reply) [
          | raised e ↦ (raised e, ready ts c, fs)
          | ok c' ↦ timed c.now (await_any choice ts fs c')
        ]).1
awaited choice m ts fs c (raised e) s h = ready-IsSound ts s
awaited choice m ts fs c (ok c') s h =
    timed-IsSound c.now (await_any choice ts fs c') (await_any-IsSound choice ts fs c' h)

pub request_any-IsSound :
    (choice : ℕ) (m : Dict) (ts : List String) (fs : Frames) (c : Client)
    → IsSound c
    → IsSound (request_any choice m ts fs c).1
unfolding request_any
request_any-IsSound choice m ts fs c s =
    awaited choice m ts fs c (send (json m) (ready ts c)) s
      (send-Returned (json m) (ready ts c) (ready-IsSound ts s))
