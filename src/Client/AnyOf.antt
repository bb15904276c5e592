-- ===== src/Client/AnyOf.antt =====
-- `request_any` of lib/ws_client.py: waiting for the first response of several types.
use sas_tests.Prelude.{
  ok, ℕ, String, ◌≡◌, ◌∙◌, true, false, some, List, [], ◌∷◌, ◌++◌, arith, str_eq, eq_iff,
}
use sas_tests.Json.{Dict}
use sas_tests.Client.{Client, json, Frames, Queues, queue_of, ensure}
use sas_tests.Client.Routing.{queue_of-ensure}
use sas_tests.Client.Stream.{dequeue_lem}
use sas_tests.Client.Waiting.{take_each, pick, await_any, request_any}

-- A queue that is there is left as it is.
ensure-waiting :
    (t k : String) {q : List Dict} (qs : Queues)
    → queue_of k qs ≡ some q
    → queue_of k (ensure t qs) ≡ some q
ensure-waiting t k qs h = ground (arith, queue_of-ensure t k qs)

await_any_ready :
    (choice : ℕ) (ts : List String) (m : Dict) (rest : List Dict) (qs : Queues) (fs : Frames)
    (c : Client)
    → take_each ts c.pending ≡ (m ∷ rest, qs)
    → await_any choice ts fs c ≡ (ok (pick choice m rest), record c { pending = qs }, fs)
unfolding await_any
await_any_ready choice ts m rest qs [] c h = ground arith
await_any_ready choice ts m rest qs (f ∷ fs) c h = ground arith

-- On an open connection, where messages of both types already wait, `request_any` takes one out of
-- each queue and returns one of the two: the other is lost.
pub request_any_loses :
    (choice : ℕ) (message a b : Dict) (p q : List Dict) (t k : String) (fs : Frames) (c : Client)
    → c.connected ≡ true
    → c.is_open ≡ true
    → str_eq t k ≡ false
    → queue_of t c.pending ≡ some (a ∷ p)
    → queue_of k c.pending ≡ some (b ∷ q)
    → let r = request_any choice message (t ∷ k ∷ []) fs c in
      (r.0 ≡ ok (pick choice a (b ∷ [])))
      × (queue_of t r.1.pending ≡ some p)
      × (queue_of k r.1.pending ≡ some q)
unfolding request_any
request_any_loses choice message a b p q t k fs c conn up ne ht hk =
    let qs = ensure k (ensure t c.pending) in
    let u =
      dequeue_lem t qs a p
        (ensure-waiting k t (ensure t c.pending) (ensure-waiting t t c.pending ht)) in
    let hk' = ensure-waiting k k (ensure t c.pending) (ensure-waiting t k c.pending hk) in
    let v = dequeue_lem k u.left b q (u.other k ne ∙ hk') in
    let c' = record c { pending = qs; sent = c.sent ++ json message ∷ [] } in
    ground (
      arith,
      await_any_ready choice (t ∷ k ∷ []) a (b ∷ []) v.left fs c'
          (unfold take_each in ground (arith, u.popped, v.popped)),
      v.other t (ground (arith, eq_iff t k, eq_iff k t)),
      v.own,
      u.own,
    )
