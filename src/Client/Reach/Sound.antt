-- ===== src/Client/Reach/Sound.antt =====
-- What the receive task and a wait or request for one type keep.
use sas_tests.Prelude.{
  if◌then◌else◌, Option-cases, Error, Outcome, assertion_error, connection_error, ok, raised, ℕ,
  String, ◌≡◌, refl, inl, inr, Bool, true, false, Option, none, some, [], ◌∷◌, ◌++◌,
}
use sas_tests.Json.{Dict}
use sas_tests.Client.{
  Sent, Client, Frame, garbage, closed, value, Frames, Queues, queue_of, dequeue, Route, crash,
  drop, typed, untyped, route, dispatch, deliver, recv_loop,
}
use sas_tests.Client.Waiting.{send, with_queue, Reply, await_get, timed, request}
use sas_tests.Client.Session.{refusal}
use sas_tests.Client.Session.Handed.{asked, request_on, request_off}
use sas_tests.Client.Reach.Queues.{
  HasType, Good, ensure-Good, enqueue-Good, dequeue-Good, route-HasType,
}

-- The connection and the receive task are in one of four states: no connection, a task that runs on an
-- open one, one that ended with the connection, or one that an exception has ended.
abbrev pub Phase : Bool → Bool → Bool → Option Error → Type 0
Phase false false false none = Unit {0}
Phase true true true none = Unit {0}
Phase true false false none = Unit {0}
Phase true is_open false (some e) = Unit {0}
Phase _ _ _ _ = ⊥

pub record IsSound (c : Client) : Type 0 where
  pub queues : Good c.pending
  pub phase : Phase c.connected c.is_open c.receiving c.failure

pub with_queue-IsSound : {c : Client} (t : String) → IsSound c → IsSound (with_queue t c)
with_queue-IsSound {c} t s = record { queues = ensure-Good t c.pending s.queues; phase = s.phase }

crashed-Phase :
    (n o r : Bool) (f : Option Error) (e : Error)
    → r ≡ true
    → Phase n o r f
    → Phase n o false (some e)
crashed-Phase true true r f e on h = tt
crashed-Phase true false r f e on h = tt
crashed-Phase false true true f e on h = absurd h
crashed-Phase false false true f e on h = absurd h
crashed-Phase false o false f e on h = cc

ended-Phase : (n o r : Bool) (f : Option Error) → Phase n o r f → Phase n false false f
ended-Phase true o r none h = tt
ended-Phase true o r (some e) h = tt
ended-Phase false false false none h = tt
ended-Phase false false false (some e) h = absurd h
ended-Phase false false true f h = absurd h
ended-Phase false true r f h = absurd h

dispatch-IsSound :
    (now : ℕ) (r : Route) (c : Client)
    → c.receiving ≡ true
    → ((t : String) (d : Dict) → r ≡ typed t d → HasType t d)
    → IsSound c
    → IsSound (dispatch now r c)
unfolding dispatch
dispatch-IsSound now (crash e) c on h s = record {
  queues = s.queues;
  phase = crashed-Phase c.connected c.is_open c.receiving c.failure e on s.phase;
}
dispatch-IsSound now drop c on h s = record { queues = s.queues; phase = s.phase }
dispatch-IsSound now (untyped d) c on h s = record { queues = s.queues; phase = s.phase }
dispatch-IsSound now (typed t d) c on h s = elim (Option-cases (queue_of t c.pending)) [
  | inl no' ↦ rw (no', dispatch) (record { queues = s.queues; phase = s.phase })
  | inr (q, yes') ↦
      rw (yes', dispatch)
        (record { queues = enqueue-Good t d c.pending (h t d refl) s.queues; phase = s.phase })
]

either-IsSound :
    {x y : Client} (b : Bool) → (b ≡ true → IsSound x) → IsSound y → IsSound (if b then x else y)
either-IsSound true h s = h refl
either-IsSound false h s = s

pub deliver-IsSound : (f : ℕ × Frame) (c : Client) → IsSound c → IsSound (deliver f c)
unfolding deliver
deliver-IsSound (now, garbage) c s = record { queues = s.queues; phase = s.phase }
deliver-IsSound (now, closed) c s = record {
  queues = s.queues;
  phase = ended-Phase c.connected c.is_open c.receiving c.failure s.phase;
}
deliver-IsSound (now, value v) c s =
    either-IsSound c.receiving (λ on. dispatch-IsSound now (route v) c on (route-HasType v) s)
      (record { queues = s.queues; phase = s.phase })

pub recv_loop-IsSound : (fs : Frames) (c : Client) → IsSound c → IsSound (recv_loop fs c)
unfolding recv_loop
recv_loop-IsSound [] c s = s
recv_loop-IsSound (f ∷ fs) c s = recv_loop-IsSound fs (deliver f c) (deliver-IsSound f c s)

-- A wait leaves a sound client, and what it returns has the type.
abbrev pub Fits : String → Outcome Dict → Type 0
Fits t (raised e) = Unit {0}
Fits t (ok m) = HasType t m

abbrev pub IsFit : String → Reply → Type 0
IsFit t (r, c, fs) = Fits t r × IsSound c

taken-IsFit :
    (t : String) (c : Client) (m : Dict) (qs : Queues) (fs : Frames)
    → dequeue t c.pending ≡ some (m, qs)
    → IsSound c
    → IsFit t (ok m, record c { pending = qs }, fs)
taken-IsFit t c m qs fs e s =
    let (h, g) = dequeue-Good t c.pending qs m e s.queues in
    (h, record { queues = g; phase = s.phase })

pub await_get-IsFit :
    (t : String) (fs : Frames) (c : Client) → IsSound c → IsFit t (await_get t fs c)
unfolding await_get
await_get-IsFit t [] c s = elim (Option-cases (dequeue t c.pending)) [
  | inl e ↦ rw (e, await_get) (tt, s)
  | inr ((m, qs), e) ↦ rw (e, await_get) (taken-IsFit t c m qs [] e s)
]
await_get-IsFit t (f ∷ fs) c s =
    let later = await_get-IsFit t fs (deliver f c) (deliver-IsSound f c s) in
    elim (Option-cases (dequeue t c.pending)) [
      | inl e ↦ rw (e, await_get) later
      | inr ((m, qs), e) ↦ rw (e, await_get) (taken-IsFit t c m qs (f ∷ fs) e s)
    ]

timed-IsFit : (t : String) (t0 : ℕ) (r : Reply) → IsFit t r → IsFit t (timed t0 r)
timed-IsFit t t0 (ok m, c, fs) (h, s) = (h, record { queues = s.queues; phase = s.phase })
timed-IsFit t t0 (raised e, c, fs) h = h

pub asked-IsSound : {c : Client} (m : Dict) (t : String) → IsSound c → IsSound (asked m t c)
asked-IsSound m t s =
    let s' = with_queue-IsSound t s in record { queues = s'.queues; phase = s'.phase }

pub request-IsFit :
    (m : Dict) (t : String) (fs : Frames) (c : Client) → IsSound c → IsFit t (request m t fs c)
request-IsFit m t fs c s = elim (Option-cases (refusal c.connected c.is_open)) [
  | inl on ↦
      rw (request_on m t fs c on)
        (timed-IsFit t c.now _ (await_get-IsFit t fs (asked m t c) (asked-IsSound m t s)))
  | inr (x, off) ↦ rw (request_off m t fs x c off) (tt, with_queue-IsSound t s)
]

-- A sound client, where one is returned.
abbrev pub Returned : Outcome Client → Type 0
Returned (raised e) = Unit {0}
Returned (ok c) = IsSound c

pub send-Returned : (m : Sent) (c : Client) → IsSound c → Returned (send m c)
unfolding send
send-Returned m c s = by_link c.connected c.is_open
  where
    by_link :
        (n o : Bool)
        → Returned (
            if n
            then if o then ok (record c { sent = c.sent ++ m ∷ [] }) else raised connection_error
            else raised assertion_error)
    by_link true true = record { queues = s.queues; phase = s.phase }
    by_link true false = tt
    by_link false o = tt
