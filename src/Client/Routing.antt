-- ===== src/Client/Routing.antt =====
-- What the receive task does with a run of frames: the queues and the log, as functions of the
-- frames alone.
mod Arrivals
use sas_tests.Prelude.{
  All, Error, raised, ℕ, String, ◌≡◌, refl, sym, ap, true, false, Option, none, some, List, [], ◌∷◌,
  ◌++◌, append-nil, append_assoc, arith, eq_iff,
}
pub use Arrivals.*
use mathlib.Core.Option
use sas_tests.Json.{Json, Dict}
use sas_tests.Events.{push}
use sas_tests.Events.Wait.{stamped}
use sas_tests.Client.{
  Client, Frame, garbage, closed, value, Frames, Queues, queue_of, Route, crash, drop, typed,
  untyped, route, dispatch, deliver, recv_loop, disconnect,
}

-- What a harmless frame leaves behind.
abbrev pub appended : Option (List Dict) → List Dict → Option (List Dict)
appended none ms = none
appended (some q) ms = some (q ++ ms)

appended-nil : (o : Option (List Dict)) → appended o [] ≡ o
appended-nil none = refl
appended-nil (some q) = ap {B = Option (List Dict)} some (append-nil q)

dispatch_lem :
    (t : String) (now : ℕ) (r : Route) (c : Client)
    → c.receiving ≡ true
    → survives r ≡ true
    → let c' = dispatch now r c in
      (c'.receiving ≡ true)
      × (queue_of t c'.pending ≡ appended (queue_of t c.pending) (of_route t r []))
      × (c'.log.events ≡ c.log.events ++ stamped (others_route c.pending now r []))
unfolding dispatch push
dispatch_lem t now (crash e) c on h = cc
dispatch_lem t now drop c on h =
    (on, sym (appended-nil (queue_of t c.pending)), sym (append-nil c.log.events))
dispatch_lem t now (untyped d) c on h = (on, sym (appended-nil (queue_of t c.pending)), refl)
dispatch_lem t now (typed k d) c on h = ground (
  arith,
  queue_of-enqueue k t d c.pending,
  appended-nil (queue_of t c.pending),
  append-nil c.log.events,
  eq_iff k t,
)

pub deliver_lem :
    (t : String) (f : ℕ × Frame) (c : Client)
    → c.receiving ≡ true
    → is_harmless f ≡ true
    → ((deliver f c).receiving ≡ true)
      × (queue_of t (deliver f c).pending ≡ appended (queue_of t c.pending) (of_type t (f ∷ [])))
      × ((deliver f c).log.events ≡ c.log.events ++ stamped (others c.pending (f ∷ [])))
unfolding deliver
deliver_lem t (now, closed) c on h = cc
deliver_lem t (now, garbage) c on h =
    (on, sym (appended-nil (queue_of t c.pending)), sym (append-nil c.log.events))
deliver_lem t (now, value m) c on h = ground (arith, dispatch_lem t now (route m) c)

pub of_type-cons :
    (t : String) (f : ℕ × Frame) (fs : Frames)
    → of_type t (f ∷ fs) ≡ of_type t (f ∷ []) ++ of_type t fs
of_type-cons t (now, garbage) fs = refl
of_type-cons t (now, closed) fs = refl
of_type-cons t (now, value m) fs = split (route m)
  where
    split : (r : Route) → of_route t r (of_type t fs) ≡ of_route t r [] ++ of_type t fs
    split (crash e) = refl
    split drop = refl
    split (untyped d) = refl
    split (typed k d) = ground arith

others-cons :
    (qs : Queues) (f : ℕ × Frame) (fs : Frames)
    → stamped (others qs (f ∷ fs)) ≡ stamped (others qs (f ∷ [])) ++ stamped (others qs fs)
others-cons qs (now, garbage) fs = refl
others-cons qs (now, closed) fs = refl
others-cons qs (now, value m) fs = split (route m)
  where
    split :
        (r : Route)
        → stamped (others_route qs now r (others qs fs))
          ≡ stamped (others_route qs now r []) ++ stamped (others qs fs)
    split (crash e) = refl
    split drop = refl
    split (untyped d) = refl
    split (typed k d) = ground arith

appended-append :
    (o : Option (List Dict)) (ms ns : List Dict)
    → appended (appended o ms) ns ≡ appended o (ms ++ ns)
appended-append none ms ns = refl
appended-append (some q) ms ns = ap {B = Option (List Dict)} some (append_assoc q ms ns)

-- What a run of frames leaves behind, by their routes.
pub recv_loop_by_route :
    (t : String) (fs : Frames) (c : Client)
    → c.receiving ≡ true
    → All (λ f. is_harmless f ≡ true) fs
    → ((recv_loop fs c).receiving ≡ true)
      × (queue_of t (recv_loop fs c).pending ≡ appended (queue_of t c.pending) (of_type t fs))
      × ((recv_loop fs c).log.events ≡ c.log.events ++ stamped (others c.pending fs))
unfolding recv_loop
recv_loop_by_route t [] c on h =
    (on, sym (appended-nil (queue_of t c.pending)), sym (append-nil c.log.events))
recv_loop_by_route t (f ∷ fs) c on h =
    let one = deliver_lem t f c on h.0 in
    let rest = recv_loop_by_route t fs (deliver f c) one.0 h.1 in
    let same = others-ext (deliver f c).pending c.pending fs (λ k. has_queue-deliver k f c) in
    (
      rest.0,
      cc (
        rest.1,
        one.1,
        of_type-cons t f fs,
        appended-append (queue_of t c.pending) (of_type t (f ∷ [])) (of_type t fs),
      ),
      cc (
        rest.2,
        one.2,
        same,
        others-cons c.pending f fs,
        append_assoc c.log.events (stamped (others c.pending (f ∷ [])))
            (stamped (others c.pending fs)),
      ),
    )

-- After the task has ended nothing is received.
pub recv_loop_ended :
    (fs : Frames) (c : Client)
    → c.receiving ≡ false
    → let c' = recv_loop fs c in
      (c'.pending ≡ c.pending) × (c'.log ≡ c.log) × (c'.failure ≡ c.failure)
unfolding recv_loop
recv_loop_ended [] c off = (refl, refl, refl)
recv_loop_ended ((now, garbage) ∷ fs) c off = recv_loop_ended fs (record c { now = now }) off
recv_loop_ended ((now, closed) ∷ fs) c off =
    recv_loop_ended fs (record c { is_open = false; receiving = false; now = now }) refl
recv_loop_ended ((now, value m) ∷ fs) c off =
    ground (arith, recv_loop_ended fs (record c { now = now }) off)

-- A JSON value on which the loop's tests raise, such as one that is no object, ends the receive
-- task: whatever comes after it, no queue and no log gets another message, and `disconnect` raises
-- the exception and leaves the client connected.
pub recv_loop_dies :
    (now : ℕ) (m : Json) (e : Error) (fs : Frames) (c : Client)
    → c.receiving ≡ true
    → route m ≡ crash e
    → let c' = recv_loop ((now, value m) ∷ fs) c in
      (c'.pending ≡ c.pending) × (c'.log ≡ c.log) × (disconnect c' ≡ (raised e, c'))
unfolding recv_loop disconnect
recv_loop_dies now m e fs c on h =
    let ended = record c { receiving = false; failure = some e; now = now } in
    ground (arith, recv_loop_ended fs ended)
