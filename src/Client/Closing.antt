-- ===== src/Client/Closing.antt =====
-- What a client does once the peer has closed its connection.
use sas_tests.Prelude.{
  All, or_nil, connection_error, ok, raised, ℕ, String, ◌≡◌, refl, sym, ap, ◌∙◌, true, false, none,
  some, List, [], ◌∷◌, ◌++◌, append-nil, arith, eq_refl,
}
use mathlib.Core.Path.{ap₂}
use sas_tests.Json.{Dict}
use sas_tests.Client.{
  Client, Frame, garbage, closed, value, Frames, Queues, queue_of, ensure, deliver, recv_loop,
  disconnect,
}
use sas_tests.Client.Routing.{is_harmless, of_type, queue_of-ensure, recv_loop_ended}
use sas_tests.Client.Stream.{Upcoming, Upcoming-deliver}
use sas_tests.Client.Waiting.{with_queue, await_get, request, wait_for}
use sas_tests.Client.Requests.{waiting, oldest, timed-result, with_queue-Upcoming}
use sas_tests.Client.Session.{refusal}
use sas_tests.Client.Session.Handed.{
  asked, request_on, request_off, Holding, nothing, something, holding,
}

deliver_ended :
    (f : ℕ × Frame) (c : Client)
    → c.receiving ≡ false
    → ((deliver f c).receiving ≡ false) × ((deliver f c).pending ≡ c.pending)
unfolding deliver
deliver_ended (now, garbage) c off = (off, refl)
deliver_ended (now, closed) c off = (refl, refl)
deliver_ended (now, value m) c off = ground arith

-- A wait on a client whose task has ended: what the queue holds, and nothing that arrives.
ended_lem :
    (t : String) (fs : Frames) (c : Client)
    → c.receiving ≡ false
    → (await_get t fs c).0 ≡ oldest (or_nil (queue_of t c.pending))
unfolding await_get
ended_lem t [] c off = by_holding (holding t c.pending)
  where
    by_holding : Holding t c.pending → (await_get t [] c).0 ≡ oldest (or_nil (queue_of t c.pending))
    by_holding (nothing empty e) = rw (e, await_get) (sym (ap oldest empty))
    by_holding (something m q e p) = rw (p.popped, await_get) (sym (ap (λ o. oldest (or_nil o)) e))
ended_lem t (f ∷ fs) c off =
    let (off', same) = deliver_ended f c off in
    by_holding (ended_lem t fs (deliver f c) off' ∙ ap (λ qs. oldest (or_nil (queue_of t qs))) same)
      (holding t c.pending)
  where
    by_holding :
        (await_get t fs (deliver f c)).0 ≡ oldest (or_nil (queue_of t c.pending))
        → Holding t c.pending
        → (await_get t (f ∷ fs) c).0 ≡ oldest (or_nil (queue_of t c.pending))
    by_holding later (nothing empty e) = rw (e, await_get) later
    by_holding later (something m q e p) =
        rw (p.popped, await_get) (sym (ap (λ o. oldest (or_nil o)) e))

front_lem :
    (t : String) (ms : List Dict) (c : Client) (fs : Frames) (m : Dict) (q : List Dict)
    → Upcoming t ms c fs
    → queue_of t c.pending ≡ some (m ∷ q)
    → ok m ≡ oldest ms
front_lem t ms c fs m q u e = ground (arith, u.queued, u.stream)

empty_lem :
    (t : String) (ms : List Dict) (c : Client)
    → Upcoming t ms c []
    → oldest (or_nil (queue_of t c.pending)) ≡ oldest ms
empty_lem t ms c u =
    ap (λ o. oldest (or_nil o)) u.queued ∙ ap oldest (sym (append-nil u.queue) ∙ u.stream)

-- The end of the connection is no answer: the wait goes on to its timeout.
closed_lem :
    (t : String) (ms : List Dict) (before : Frames) (now : ℕ) (after : Frames) (c : Client)
    → Upcoming t ms c before
    → (await_get t (before ++ (now, closed) ∷ after) c).0 ≡ oldest ms
unfolding await_get
closed_lem t ms [] now after c u = by_holding (holding t c.pending)
  where
    by_holding : Holding t c.pending → (await_get t ((now, closed) ∷ after) c).0 ≡ oldest ms
    by_holding (nothing empty e) =
        rw (e, await_get)
          (unfold deliver in
            (ended_lem t after (deliver (now, closed) c) refl ∙ empty_lem t ms c u))
    by_holding (something m q e p) = rw (p.popped, await_get) (front_lem t ms c [] m q u e)
closed_lem t ms (f ∷ before) now after c u =
    by_holding (closed_lem t ms before now after (deliver f c) (Upcoming-deliver u))
      (holding t c.pending)
  where
    by_holding :
        (await_get t (before ++ (now, closed) ∷ after) (deliver f c)).0 ≡ oldest ms
        → Holding t c.pending
        → (await_get t (f ∷ before ++ (now, closed) ∷ after) c).0 ≡ oldest ms
    by_holding later (nothing empty e) = rw (e, await_get) later
    by_holding later (something m q e p) =
        rw (p.popped, await_get) (front_lem t ms c (f ∷ before) m q u e)

-- On a client with an open connection whose receive task runs: where the peer closes the connection
-- while `request` waits, and no frame before that ends the receive task, `request` returns the oldest
-- message of its type that was there or came before; without one it is not told of the end, and raises
-- TimeoutError.
pub request-closed :
    (message : Dict) (t : String) (before : Frames) (now : ℕ) (after : Frames) (c : Client)
    → c.connected ≡ true
    → c.is_open ≡ true
    → c.receiving ≡ true
    → All (λ f. is_harmless f ≡ true) before
    → (request message t (before ++ (now, closed) ∷ after) c).0
      ≡ oldest (waiting t c ++ of_type t before)
request-closed message t before now after c conn up on hs =
    let u = with_queue-Upcoming t before c on hs in
    let fs = before ++ (now, closed) ∷ after in
    rw (request_on message t fs c (ap₂ refusal conn up)) (
      (timed-result c.now (await_get t fs (asked message t c))).0
      ∙ closed_lem t _ before now after (asked message t c) (record {
        receiving = on;
        harmless = hs;
        queue = u.queue;
        queued = u.queued;
        stream = u.stream;
      }))

-- The link of a client after the end of its connection, whatever comes.
closed_link :
    (fs : Frames) (c : Client)
    → c.is_open ≡ false
    → c.receiving ≡ false
    → let c' = recv_loop fs c in
      (c'.connected ≡ c.connected) × ((c'.is_open ≡ false) × (c'.receiving ≡ false))
unfolding recv_loop deliver
closed_link [] c down off = (refl, (down, off))
closed_link ((now, garbage) ∷ fs) c down off = closed_link fs (record c { now = now }) down off
closed_link ((now, closed) ∷ fs) c down off =
    closed_link fs (record c { is_open = false; receiving = false; now = now }) refl refl
closed_link ((now, value m) ∷ fs) c down off =
    ground (arith, closed_link fs (record c { now = now }) down off)

left_waiting :
    (t : String) (qs : Queues) → or_nil (queue_of t (ensure t qs)) ≡ or_nil (queue_of t qs)
left_waiting t qs = ground (arith, queue_of-ensure t t qs, eq_refl t)

calm_disconnect :
    (c : Client)
    → c.failure ≡ none
    → ((disconnect c).0 ≡ ok tt) × ((disconnect c).1.connected ≡ false)
unfolding disconnect
calm_disconnect c e = ground (arith, e)

-- Once the peer has closed the connection, whatever comes: no queue and no log gets another message,
-- `request` raises the socket's exception, `wait_for` hands out what is left in the queue of its type
-- and else times out, and `disconnect` returns and leaves the client disconnected.
pub recv_loop-closed :
    (now : ℕ) (after : Frames) (c : Client)
    → c.connected ≡ true
    → c.failure ≡ none
    → (message : Dict) (t : String) (fs : Frames)
    → let c' = recv_loop ((now, closed) ∷ after) c in
      (c'.pending ≡ c.pending)
      × ((c'.log ≡ c.log)
          × (((request message t fs c').0 ≡ raised connection_error)
              × (((wait_for t fs c').0 ≡ oldest (waiting t c))
                  × (((disconnect c').0 ≡ ok tt) × ((disconnect c').1.connected ≡ false)))))
unfolding recv_loop deliver wait_for
recv_loop-closed now after c conn fine message t fs =
    let c0 = deliver (now, closed) c in
    let c' = recv_loop after c0 in
    let (same, log, failure) = recv_loop_ended after c0 refl in
    let (link, (down, off)) = closed_link after c0 refl refl in
    (
      same,
      (
        log,
        (
          ap (λ r. r.0)
              (request_off message t fs connection_error c' (ap₂ refusal (link ∙ conn) down)),
          (
            ended_lem t fs (with_queue t c') off
                ∙ ap oldest (left_waiting t c'.pending ∙ ap (λ qs. or_nil (queue_of t qs)) same),
            calm_disconnect c' (failure ∙ fine),
          ),
        ),
      ),
    )
