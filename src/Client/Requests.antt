-- ===== src/Client/Requests.antt =====
-- What the requests of lib/ws_client.py return and send.
use sas_tests.Prelude.{
  if◌then◌else◌, length, All, Outcome, timeout_error, ok, raised, ℕ, String, ◌≡◌, refl, ◌∙◌, true,
  none, some, List, [], ◌∷◌, ◌++◌, map, append-nil, append_assoc, arith, eq_refl,
}
use sas_tests.Json.{Dict}
use sas_tests.Client.{
  Client, json, Frame, garbage, closed, value, Frames, queue_of, Route, crash, drop, typed, untyped,
  route, dispatch, deliver,
}
use sas_tests.Client.Routing.{is_harmless, of_type, queue_of-ensure}
use sas_tests.Client.Stream.{Upcoming, Took, await_get_lem}
use sas_tests.Client.Waiting.{
  send, with_queue, Reply, await_get, timed, request, send_all, collect, burst_same_response,
}

-- What is in the queue of a type, none where there is no queue.
abbrev pub waiting : String → Client → List Dict
waiting t c = elim (queue_of t c.pending) [ none ↦ [] | some q ↦ q ]

pub with_queue-Upcoming :
    (t : String) (fs : Frames) (c : Client)
    → c.receiving ≡ true
    → All (λ f. is_harmless f ≡ true) fs
    → Upcoming t (waiting t c ++ of_type t fs) (with_queue t c) fs
with_queue-Upcoming t fs c on hs = record {
  receiving = on;
  harmless = hs;
  queue = waiting t c;
  queued = ground (arith, queue_of-ensure t t c.pending, eq_refl t);
  stream = refl;
}

-- `sent` and `connected` are the callers' alone.
pub sent-deliver :
    (f : ℕ × Frame) (c : Client)
    → ((deliver f c).sent ≡ c.sent) × ((deliver f c).connected ≡ c.connected)
unfolding deliver dispatch
sent-deliver (now, garbage) c = (refl, refl)
sent-deliver (now, closed) c = (refl, refl)
sent-deliver (now, value m) c = by_route (route m)
  where
    by_route :
        (r : Route)
        → let c' = if c.receiving then dispatch now r c else record c { now = now } in
          (c'.sent ≡ c.sent) × (c'.connected ≡ c.connected)
    by_route (crash e) = ground arith
    by_route drop = ground arith
    by_route (untyped d) = ground arith
    by_route (typed k d) = ground arith

pub sent-await_get : (t : String) (fs : Frames) (c : Client) → (await_get t fs c).1.sent ≡ c.sent
unfolding await_get
sent-await_get t [] c = ground arith
sent-await_get t (f ∷ fs) c = ground (arith, sent-await_get t fs (deliver f c), sent-deliver f c)

-- The first of some messages, or a timeout.
abbrev pub oldest : List Dict → Outcome Dict
oldest [] = raised timeout_error
oldest (m ∷ ms) = ok m

pub Took-oldest : (t : String) (ms : List Dict) (r : Reply) → Took t ms r → r.0 ≡ oldest ms
Took-oldest t [] r h = h
Took-oldest t (m ∷ ms) r h = h.0

pub timed-result : (t0 : ℕ) (r : Reply) → ((timed t0 r).0 ≡ r.0) × ((timed t0 r).1.sent ≡ r.1.sent)
timed-result t0 (ok m, c, fs) = (refl, refl)
timed-result t0 (raised e, c, fs) = (refl, refl)

-- On a client with an open connection whose receive task runs and is not ended by the frames to come,
-- `request` sends the message once and returns the oldest message of the response type, counting first
-- what already stood in the queue and then what arrives in time; it raises TimeoutError exactly where
-- there is none. So a response that an earlier call gave up on answers the next request.
pub request_lem :
    (message : Dict) (t : String) (fs : Frames) (c : Client)
    → c.connected ≡ true
    → c.is_open ≡ true
    → c.receiving ≡ true
    → All (λ f. is_harmless f ≡ true) fs
    → let r = request message t fs c in
      (r.0 ≡ oldest (waiting t c ++ of_type t fs)) × (r.1.sent ≡ c.sent ++ json message ∷ [])
unfolding request send
request_lem message t fs c conn up on hs =
    let c' = record (with_queue t c) { sent = c.sent ++ json message ∷ [] } in
    let u = with_queue-Upcoming t fs c on hs in
    let u' : Upcoming t (waiting t c ++ of_type t fs) c' fs = record {
      receiving = on;
      harmless = hs;
      queue = u.queue;
      queued = u.queued;
      stream = u.stream;
    } in
    ground (
      arith,
      timed-result c.now (await_get t fs c'),
      Took-oldest t (waiting t c ++ of_type t fs) (await_get t fs c')
          (await_get_lem t (waiting t c ++ of_type t fs) fs c' u'),
      sent-await_get t fs c',
    )

-- `collect` reads one message of the stream for each request, in the order of arrival.
collect_lem :
    (messages ms later : List Dict) (t : String) (fs : Frames) (c : Client)
    → length messages ≡ length ms
    → Upcoming t (ms ++ later) c fs
    → let (r, c', fs') = collect messages t fs c in (r ≡ ok ms) × Upcoming t later c' fs'
unfolding collect
collect_lem [] [] later t fs c n u = (refl, u)
collect_lem [] (m ∷ ms) later t fs c n u = absurd (omega arith)
collect_lem (_ ∷ messages) [] later t fs c n u = absurd (omega arith)
collect_lem (x ∷ messages) (m ∷ ms) later t fs c n u =
    let (r, c', fs') = await_get t fs c in
    let got : Took t (m ∷ (ms ++ later)) (await_get t fs c) =
      await_get_lem t (m ∷ (ms ++ later)) fs c u in
    let rest = collect_lem messages ms later t fs' c' (omega arith) got.1 in
    ground (arith, got.0, rest.0)

send_all_lem :
    (ms : List Dict) (c : Client)
    → c.connected ≡ true
    → c.is_open ≡ true
    → send_all ms c ≡ ok (record c { sent = c.sent ++ map json ms })
unfolding send_all
send_all_lem [] c conn up = ground (arith, append-nil c.sent)
send_all_lem (m ∷ ms) c conn up = ground (
  arith,
  send_all_lem ms (record c { sent = c.sent ++ json m ∷ [] }),
  append_assoc c.sent (json m ∷ []) (map json ms),
)

sent-collect :
    (messages : List Dict) (t : String) (fs : Frames) (c : Client)
    → (collect messages t fs c).1.sent ≡ c.sent
unfolding collect
sent-collect [] t fs c = refl
sent-collect (x ∷ messages) t fs c =
    let (r, c', fs') = await_get t fs c in
    ground (arith, sent-collect messages t fs' c', sent-await_get t fs c)

-- On a client with an open connection whose receive task runs and is not ended by the frames to come,
-- and where at least as many messages of the type stand in the queue or arrive in time as are sent,
-- `burst_same_response` sends every message, in order, before it reads, and returns as many responses
-- as it sent messages: the first ones of the type, in the order of arrival, those that stood in the
-- queue before the burst included.
pub burst_lem :
    (messages ms later : List Dict) (t : String) (fs : Frames) (c : Client)
    → c.connected ≡ true
    → c.is_open ≡ true
    → c.receiving ≡ true
    → All (λ f. is_harmless f ≡ true) fs
    → length messages ≡ length ms
    → waiting t c ++ of_type t fs ≡ ms ++ later
    → let r = burst_same_response messages t fs c in
      (r.0 ≡ ok ms) × (r.1.sent ≡ c.sent ++ map json messages)
unfolding burst_same_response
burst_lem messages ms later t fs c conn up on hs n e =
    let c' = record (with_queue t c) { sent = c.sent ++ map json messages } in
    let u = with_queue-Upcoming t fs c on hs in
    let u' : Upcoming t (ms ++ later) c' fs = record {
      receiving = on;
      harmless = hs;
      queue = u.queue;
      queued = u.queued;
      stream = u.stream ∙ e;
    } in
    ground (
      arith,
      send_all_lem messages (with_queue t c) conn up,
      collect_lem messages ms later t fs c' n u',
      sent-collect messages t fs c',
    )
