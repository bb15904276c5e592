-- ===== src/Client/Routing/Arrivals.antt =====
-- What the frames that arrive hold for each type, and the queues after a put.
use sas_tests.Prelude.{
  if◌then◌else◌, is_some, ℕ, String, ◌≡◌, refl, ap, Bool, true, false, none, some, List, [], ◌∷◌,
  ◌++◌, arith, str_eq, eq_iff,
}
use mathlib.Core.Option
use sas_tests.Json.{Dict}
use sas_tests.Client.{
  Client, Frame, garbage, closed, value, Frames, Queues, queue_of, ensure, enqueue, Route, crash,
  drop, typed, untyped, route, dispatch, deliver,
}

-- The queues after a put, read by type.
pub queue_of-enqueue :
    (t k : String) (m : Dict) (qs : Queues)
    → queue_of k (enqueue t m qs)
      ≡ (if str_eq t k then Option.map (λ q. q ++ m ∷ []) (queue_of k qs) else queue_of k qs)
unfolding queue_of enqueue
queue_of-enqueue t k m [] = ground arith
queue_of-enqueue t k m ((j, q) ∷ qs) =
    ground (arith, eq_iff j t, eq_iff j k, eq_iff t k, queue_of-enqueue t k m qs)

pub queue_of-ensure :
    (t k : String) (qs : Queues)
    → queue_of k (ensure t qs) ≡ (
        if str_eq t k
        then elim (queue_of k qs) [ none ↦ some [] | some q ↦ some q ]
        else queue_of k qs)
unfolding queue_of ensure
queue_of-ensure t k [] = ground arith
queue_of-ensure t k ((j, q) ∷ qs) =
    ground (arith, eq_iff j t, eq_iff j k, eq_iff t k, queue_of-ensure t k qs)

-- A frame that does not end the receive task: text that is no JSON, or an object whose type is not
-- itself a list or an object.
abbrev pub survives : Route → Bool
survives (crash e) = false
survives drop = true
survives (typed t d) = true
survives (untyped d) = true

abbrev pub is_harmless : ℕ × Frame → Bool
is_harmless (now, garbage) = true
is_harmless (now, closed) = false
is_harmless (now, value m) = survives (route m)

-- The messages of a type among the frames, in the order of arrival.
abbrev pub of_route : String → Route → List Dict → List Dict
of_route t (crash e) rest = rest
of_route t drop rest = rest
of_route t (untyped d) rest = rest
of_route t (typed k d) rest = if str_eq k t then d ∷ rest else rest

abbrev pub of_type : String → Frames → List Dict
of_type t [] = []
of_type t ((now, garbage) ∷ fs) = of_type t fs
of_type t ((now, closed) ∷ fs) = of_type t fs
of_type t ((now, value m) ∷ fs) = of_route t (route m) (of_type t fs)

-- The messages that nobody has registered for, each with its time.
abbrev pub others_route : Queues → ℕ → Route → List (ℕ × Dict) → List (ℕ × Dict)
others_route qs now (crash e) rest = rest
others_route qs now drop rest = rest
others_route qs now (untyped d) rest = (now, d) ∷ rest
others_route qs now (typed k d) rest = elim (queue_of k qs) [
  | none ↦ (now, d) ∷ rest
  | some q ↦ rest
]

abbrev pub others : Queues → Frames → List (ℕ × Dict)
others qs [] = []
others qs ((now, garbage) ∷ fs) = others qs fs
others qs ((now, closed) ∷ fs) = others qs fs
others qs ((now, value m) ∷ fs) = others_route qs now (route m) (others qs fs)

-- Which types have a queue.
abbrev pub has_queue : String → Queues → Bool
has_queue t qs = is_some (queue_of t qs)

-- `deliver` neither makes a queue nor removes one.
pub has_queue-deliver :
    (t : String) (f : ℕ × Frame) (c : Client)
    → has_queue t (deliver f c).pending ≡ has_queue t c.pending
unfolding deliver dispatch
has_queue-deliver t (now, garbage) c = refl
has_queue-deliver t (now, closed) c = refl
has_queue-deliver t (now, value m) c = by_route (route m)
  where
    by_route :
        (r : Route)
        → has_queue t (if c.receiving then dispatch now r c else record c { now = now }).pending
          ≡ has_queue t c.pending
    by_route (crash e) = ground arith
    by_route drop = ground arith
    by_route (untyped d) = ground arith
    by_route (typed k d) = ground (arith, queue_of-enqueue k t d c.pending)

others_route-ext :
    (ps qs : Queues) (now : ℕ) (r : Route) {l m : List (ℕ × Dict)}
    → ((t : String) → has_queue t ps ≡ has_queue t qs)
    → l ≡ m
    → others_route ps now r l ≡ others_route qs now r m
others_route-ext ps qs now (crash e) same rest = rest
others_route-ext ps qs now drop same rest = rest
others_route-ext ps qs now (untyped d) same rest = ap (λ l. (now, d) ∷ l) rest
others_route-ext ps qs now (typed k d) same rest = ground (arith, same k)

pub others-ext :
    (ps qs : Queues) (fs : Frames)
    → ((t : String) → has_queue t ps ≡ has_queue t qs)
    → others ps fs ≡ others qs fs
others-ext ps qs [] same = refl
others-ext ps qs ((now, garbage) ∷ fs) same = others-ext ps qs fs same
others-ext ps qs ((now, closed) ∷ fs) same = others-ext ps qs fs same
others-ext ps qs ((now, value m) ∷ fs) same =
    others_route-ext ps qs now (route m) same (others-ext ps qs fs same)
