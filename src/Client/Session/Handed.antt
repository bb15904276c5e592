-- ===== src/Client/Session/Handed.antt =====
-- What a single wait or request does with the messages of any type.
use sas_tests.Prelude.{
  if◌then◌else◌, Bool-cases, Option-cases, or_nil, Error, Outcome, assertion_error,
  connection_error, ok, raised, ℕ, String, ◌≡◌, refl, ap, ◌∙◌, inl, inr, Bool, true, false, Option,
  none, some, List, [], ◌∷◌, ◌++◌, arith, str_eq, eq_iff,
}
use sas_tests.Json.{Dict}
use sas_tests.Client.{Client, Frames, Queues, json, queue_of, dequeue, deliver}
use sas_tests.Client.Routing.{of_type}
use sas_tests.Client.Waiting.{send, with_queue, Reply, await_get, timed, request, wait_for}
use sas_tests.Client.Stream.{Popped, dequeue_lem, dequeue_empty, Upcoming, Upcoming-deliver}
use sas_tests.Client.Session.{refusal}
use sas_tests.Client.Session.Windows.{Upcoming-with_queue}

-- The two states of a queue for one that takes from it.
pub data Holding (t : String) (qs : Queues) : Type 0 where
  nothing : or_nil (queue_of t qs) ≡ [] → dequeue t qs ≡ none → Holding t qs
  something :
      (m : Dict) (q : List Dict) → queue_of t qs ≡ some (m ∷ q) → Popped t m q qs → Holding t qs

dequeue-none : (t : String) (qs : Queues) → queue_of t qs ≡ none → dequeue t qs ≡ none
unfolding queue_of dequeue
dequeue-none t [] h = refl
dequeue-none t ((k, []) ∷ qs) h = ground (arith, dequeue-none t qs)
dequeue-none t ((k, x ∷ q) ∷ qs) h = ground (arith, dequeue-none t qs)

pub holding : (t : String) (qs : Queues) → Holding t qs
holding t qs = by_queue (queue_of t qs) refl
  where
    by_queue : (o : Option (List Dict)) → queue_of t qs ≡ o → Holding t qs
    by_queue none e = nothing (ap or_nil e) (dequeue-none t qs e)
    by_queue (some []) e = nothing (ap or_nil e) (dequeue_empty t qs e)
    by_queue (some (m ∷ q)) e = something m q e (dequeue_lem t qs m q e)

-- What a call for one type handed out of another.
abbrev pub handed : String → String → Outcome Dict → List Dict
handed s t (raised e) = []
handed s t (ok m) = if str_eq t s then m ∷ [] else []

-- A call has handed out the beginning of the stream, and the rest is to come.
abbrev pub Handed : String → List Dict → String → Reply → Type 0
Handed s ms t (r, c, fs) = (rest : List Dict) × ((handed s t r ++ rest ≡ ms) × Upcoming s rest c fs)

take-Handed :
    (s t : String) (ms : List Dict) (fs : Frames) (c : Client) (m : Dict) (q : List Dict)
    → queue_of t c.pending ≡ some (m ∷ q)
    → (p : Popped t m q c.pending) → Upcoming s ms c fs
    → Handed s ms t (ok m, record c { pending = p.left }, fs)
take-Handed s t ms fs c m q e p u = elim (Bool-cases (str_eq t s)) [
  | inl same ↦ (
    q ++ of_type s fs,
    (
      ground (arith, eq_iff t s, u.queued, u.stream),
      record {
        receiving = u.receiving;
        harmless = u.harmless;
        queue = q;
        queued = ground (arith, eq_iff t s, p.own);
        stream = refl;
      },
    ),
  )
  | inr other ↦ (
    ms,
    (
      ground (arith, other),
      record {
        receiving = u.receiving;
        harmless = u.harmless;
        queue = u.queue;
        queued = p.other s other ∙ u.queued;
        stream = u.stream;
      },
    ),
  )
]

await_get-Handed :
    (s t : String) (ms : List Dict) (fs : Frames) (c : Client)
    → Upcoming s ms c fs
    → Handed s ms t (await_get t fs c)
unfolding await_get
await_get-Handed s t ms [] c u = by_holding (holding t c.pending)
  where
    by_holding : Holding t c.pending → Handed s ms t (await_get t [] c)
    by_holding (nothing empty e) = rw (e, await_get) (ms, (refl, u))
    by_holding (something m q e p) = rw (p.popped, await_get) (take-Handed s t ms [] c m q e p u)
await_get-Handed s t ms (f ∷ fs) c u =
    by_holding (await_get-Handed s t ms fs (deliver f c) (Upcoming-deliver u)) (holding t c.pending)
  where
    by_holding :
        Handed s ms t (await_get t fs (deliver f c))
        → Holding t c.pending
        → Handed s ms t (await_get t (f ∷ fs) c)
    by_holding later (nothing empty e) = rw (e, await_get) later
    by_holding later (something m q e p) =
        rw (p.popped, await_get) (take-Handed s t ms (f ∷ fs) c m q e p u)

Handed-timed :
    (s : String) (ms : List Dict) (t : String) (t0 : ℕ) (r : Reply)
    → Handed s ms t r
    → Handed s ms t (timed t0 r)
Handed-timed s ms t t0 (raised e, c, fs) h = h
Handed-timed s ms t t0 (ok m, c, fs) (rest, (e, u)) = (
  rest,
  (
    e,
    record {
      receiving = u.receiving;
      harmless = u.harmless;
      queue = u.queue;
      queued = u.queued;
      stream = u.stream;
    },
  ),
)

pub wait_for-Handed :
    (s t : String) (ms : List Dict) (fs : Frames) (c : Client)
    → Upcoming s ms c fs
    → Handed s ms t (wait_for t fs c)
unfolding wait_for
wait_for-Handed s t ms fs c u =
    await_get-Handed s t ms fs (with_queue t c) (Upcoming-with_queue t u)

-- The client that has sent a request and waits for its response.
abbrev pub asked : Dict → String → Client → Client
asked message t c = record (with_queue t c) { sent = c.sent ++ json message ∷ [] }

pub request_on :
    (message : Dict) (t : String) (fs : Frames) (c : Client)
    → refusal c.connected c.is_open ≡ none
    → request message t fs c ≡ timed c.now (await_get t fs (asked message t c))
unfolding request send
request_on message t fs c h = by_link c.connected c.is_open h
  where
    by_link :
        (n o : Bool)
        → refusal n o ≡ none
        → elim (if n
              then if o then ok (asked message t c) else raised connection_error
              else raised assertion_error)
            as (λ r. Reply) [
              | raised e ↦ (raised e, with_queue t c, fs)
              | ok c' ↦ timed c.now (await_get t fs c')
            ]
          ≡ timed c.now (await_get t fs (asked message t c))
    by_link true true h = refl
    by_link true false h = cc
    by_link false o h = cc

pub request_off :
    (message : Dict) (t : String) (fs : Frames) (x : Error) (c : Client)
    → refusal c.connected c.is_open ≡ some x
    → request message t fs c ≡ (raised x, with_queue t c, fs)
unfolding request send
request_off message t fs x c h = by_link c.connected c.is_open h
  where
    by_link :
        (n o : Bool)
        → refusal n o ≡ some x
        → elim (if n
              then if o then ok (asked message t c) else raised connection_error
              else raised assertion_error)
            as (λ r. Reply) [
              | raised e ↦ (raised e, with_queue t c, fs)
              | ok c' ↦ timed c.now (await_get t fs c')
            ]
          ≡ (raised x, with_queue t c, fs)
    by_link true true h = cc
    by_link true false h = ground arith
    by_link false o h = ground arith

pub request-Handed :
    (s t : String) (message : Dict) (ms : List Dict) (fs : Frames) (c : Client)
    → Upcoming s ms c fs
    → Handed s ms t (request message t fs c)
request-Handed s t message ms fs c u = elim (Option-cases (refusal c.connected c.is_open)) [
  | inl none_yet ↦ rw (request_on message t fs c none_yet) (
      Handed-timed s ms t c.now _ (
        await_get-Handed s t ms fs (asked message t c) (record {
          receiving = u.receiving;
          harmless = u.harmless;
          queue = (Upcoming-with_queue t u).queue;
          queued = (Upcoming-with_queue t u).queued;
          stream = (Upcoming-with_queue t u).stream;
        })))
  | inr (x, off) ↦ rw (request_off message t fs x c off) (ms, (refl, Upcoming-with_queue t u))
]
