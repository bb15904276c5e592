-- ===== src/Client/Routed.antt =====
-- What the receive task does with a run of frames, told by the "type" field of the messages alone.
use sas_tests.Prelude.{
  if◌then◌else◌, is_some, All, ℕ, String, ◌≡◌, refl, ap, ◌∙◌, Bool, true, false, not, ◌&&◌, ◌||◌,
  Option, none, some, List, [], ◌∷◌, ◌++◌, arith, str_eq, eq_iff,
}
use sas_tests.Json.{Json, Dict, null, bool, num, text, arr, obj, get}
use sas_tests.Events.Wait.{stamped}
use sas_tests.Client.{
  Client, Frame, garbage, closed, value, Frames, Queues, queue_of, route, route_type, is_ignored,
  recv_loop,
}
use sas_tests.Client.Routing.{
  of_type, of_route, others, others_route, is_harmless, survives, appended, recv_loop_by_route,
}

-- Whether a "type" field is a certain text.
abbrev pub type_is : String → Option Json → Bool
type_is t none = false
type_is t (some (text s)) = str_eq s t
type_is t (some null) = false
type_is t (some (bool b)) = false
type_is t (some (num n)) = false
type_is t (some (arr xs)) = false
type_is t (some (obj d)) = false

-- Whether a "type" field can be looked up in a set.
abbrev pub is_hashable : Option Json → Bool
is_hashable none = true
is_hashable (some (text s)) = true
is_hashable (some null) = true
is_hashable (some (bool b)) = true
is_hashable (some (num n)) = true
is_hashable (some (arr xs)) = false
is_hashable (some (obj d)) = false

abbrev pub is_beat : Option Json → Bool
is_beat o = type_is "ping" o || type_is "pong" o

-- Whether a "type" field is that of a response of type `t`.
abbrev pub is_response : String → Option Json → Bool
is_response t o = type_is t o && not (is_beat o || type_is "" o)

-- Whether one of the queues is registered for a "type" field.
abbrev pub is_awaited : Queues → Option Json → Bool
is_awaited [] o = false
is_awaited ((k, q) ∷ qs) o = (type_is k o && not (type_is "" o)) || is_awaited qs o

-- The object that a frame holds.
abbrev pub object_in : Frame → Option Dict
object_in garbage = none
object_in closed = none
object_in (value (obj d)) = some d
object_in (value null) = none
object_in (value (bool b)) = none
object_in (value (num n)) = none
object_in (value (text s)) = none
object_in (value (arr xs)) = none

-- A frame that the task survives: text that is no JSON, or an object with a "type" that can be looked
-- up.
abbrev pub is_benign : Frame → Bool
is_benign garbage = true
is_benign closed = false
is_benign (value (obj d)) = is_hashable (get "type" d)
is_benign (value null) = false
is_benign (value (bool b)) = false
is_benign (value (num n)) = false
is_benign (value (text s)) = false
is_benign (value (arr xs)) = false

-- The responses of type `t`, in their order.
abbrev pub responses : String → Frames → List Dict
responses t [] = []
responses t ((now, f) ∷ fs) = elim (object_in f) [
  | none ↦ responses t fs
  | some d ↦ if is_response t (get "type" d) then d ∷ responses t fs else responses t fs
]

-- The messages that are neither ping nor pong and that no queue is registered for, with their times.
abbrev pub pushed : Queues → Frames → List (ℕ × Dict)
pushed qs [] = []
pushed qs ((now, f) ∷ fs) = elim (object_in f) [
  | none ↦ pushed qs fs
  | some d ↦
      if is_beat (get "type" d) || is_awaited qs (get "type" d)
      then pushed qs fs
      else (now, d) ∷ pushed qs fs
]

of_route_lem :
    (t : String) (d : Dict) (o : Option Json) (rest : List Dict)
    → of_route t (route_type d o) rest ≡ (if is_response t o then d ∷ rest else rest)
unfolding route_type is_ignored
of_route_lem t d (some (text s)) rest = ground arith
of_route_lem t d none rest = refl
of_route_lem t d (some null) rest = refl
of_route_lem t d (some (bool b)) rest = refl
of_route_lem t d (some (num n)) rest = refl
of_route_lem t d (some (arr xs)) rest = refl
of_route_lem t d (some (obj e)) rest = refl

is_awaited_text :
    (qs : Queues) (s : String)
    → is_awaited qs (some (text s)) ≡ (if str_eq s "" then false else is_some (queue_of s qs))
unfolding queue_of
is_awaited_text [] s = ground arith
is_awaited_text ((k, q) ∷ qs) s = ground (arith, is_awaited_text qs s, eq_iff k s, eq_iff s k)

is_awaited_other :
    (qs : Queues) (o : Option Json) → ((t : String) → type_is t o ≡ false) → is_awaited qs o ≡ false
is_awaited_other [] o h = refl
is_awaited_other ((k, q) ∷ qs) o h = ground (arith, h k, is_awaited_other qs o h)

others_route_lem :
    (qs : Queues) (now : ℕ) (d : Dict) (o : Option Json) (rest : List (ℕ × Dict))
    → is_hashable o ≡ true
    → others_route qs now (route_type d o) rest
      ≡ (if is_beat o || is_awaited qs o then rest else (now, d) ∷ rest)
unfolding route_type is_ignored
others_route_lem qs now d (some (text s)) rest h = ground (arith, is_awaited_text qs s)
others_route_lem qs now d none rest h = ground (arith, is_awaited_other qs none (λ t. refl))
others_route_lem qs now d (some null) rest h =
    ground (arith, is_awaited_other qs (some null) (λ t. refl))
others_route_lem qs now d (some (bool b)) rest h =
    ground (arith, is_awaited_other qs (some (bool b)) (λ t. refl))
others_route_lem qs now d (some (num n)) rest h =
    ground (arith, is_awaited_other qs (some (num n)) (λ t. refl))
others_route_lem qs now d (some (arr xs)) rest h = cc
others_route_lem qs now d (some (obj e)) rest h = cc

survives_lem :
    (d : Dict) (o : Option Json) → is_hashable o ≡ true → survives (route_type d o) ≡ true
unfolding route_type is_ignored
survives_lem d (some (text s)) h = ground arith
survives_lem d none h = refl
survives_lem d (some null) h = refl
survives_lem d (some (bool b)) h = refl
survives_lem d (some (num n)) h = refl
survives_lem d (some (arr xs)) h = cc
survives_lem d (some (obj e)) h = cc

is_benign_lem : (now : ℕ) (f : Frame) → is_benign f ≡ true → is_harmless (now, f) ≡ true
unfolding route
is_benign_lem now garbage h = refl
is_benign_lem now closed h = cc
is_benign_lem now (value (obj d)) h = survives_lem d (get "type" d) h
is_benign_lem now (value null) h = cc
is_benign_lem now (value (bool b)) h = cc
is_benign_lem now (value (num n)) h = cc
is_benign_lem now (value (text s)) h = cc
is_benign_lem now (value (arr xs)) h = cc

abbrev AllBenign : Frames → Type 0
AllBenign = All (λ f. is_benign f.1 ≡ true)

of_type-responses : (t : String) (fs : Frames) → AllBenign fs → of_type t fs ≡ responses t fs
unfolding route
of_type-responses t [] h = refl
of_type-responses t ((now, garbage) ∷ fs) h = of_type-responses t fs h.1
of_type-responses t ((now, closed) ∷ fs) h = of_type-responses t fs h.1
of_type-responses t ((now, value (obj d)) ∷ fs) h =
    of_route_lem t d (get "type" d) (of_type t fs)
    ∙ ap (λ l. if is_response t (get "type" d) then d ∷ l else l) (of_type-responses t fs h.1)
of_type-responses t ((now, value null) ∷ fs) h = of_type-responses t fs h.1
of_type-responses t ((now, value (bool b)) ∷ fs) h = of_type-responses t fs h.1
of_type-responses t ((now, value (num n)) ∷ fs) h = of_type-responses t fs h.1
of_type-responses t ((now, value (text s)) ∷ fs) h = of_type-responses t fs h.1
of_type-responses t ((now, value (arr xs)) ∷ fs) h = of_type-responses t fs h.1

others-pushed : (qs : Queues) (fs : Frames) → AllBenign fs → others qs fs ≡ pushed qs fs
unfolding route
others-pushed qs [] h = refl
others-pushed qs ((now, garbage) ∷ fs) h = others-pushed qs fs h.1
others-pushed qs ((now, closed) ∷ fs) h = others-pushed qs fs h.1
others-pushed qs ((now, value (obj d)) ∷ fs) h =
    others_route_lem qs now d (get "type" d) (others qs fs) h.0
    ∙ ap (λ l. if is_beat (get "type" d) || is_awaited qs (get "type" d) then l else (now, d) ∷ l)
        (others-pushed qs fs h.1)
others-pushed qs ((now, value null) ∷ fs) h = others-pushed qs fs h.1
others-pushed qs ((now, value (bool b)) ∷ fs) h = others-pushed qs fs h.1
others-pushed qs ((now, value (num n)) ∷ fs) h = others-pushed qs fs h.1
others-pushed qs ((now, value (text s)) ∷ fs) h = others-pushed qs fs h.1
others-pushed qs ((now, value (arr xs)) ∷ fs) h = others-pushed qs fs h.1

all_harmless : (fs : Frames) → AllBenign fs → All (λ f. is_harmless f ≡ true) fs
all_harmless [] h = tt
all_harmless ((now, f) ∷ fs) h = (is_benign_lem now f h.0, all_harmless fs h.1)

-- While the task receives, over any run of frames each of which is text that is no JSON, or an object
-- whose "type" is no list and no object: the queue of each registered type grows by exactly the
-- messages of that type, in the order of arrival, where the type is not "ping", "pong" or the empty
-- text; a type that is not registered gets no queue; the event log grows by exactly the messages
-- that are neither ping nor pong and of no registered type, in their order and with their times; and
-- the task still receives.
pub recv_loop_routes :
    (t : String) (fs : Frames) (c : Client)
    → c.receiving ≡ true
    → All (λ f. is_benign f.1 ≡ true) fs
    → ((recv_loop fs c).receiving ≡ true)
      × (queue_of t (recv_loop fs c).pending ≡ appended (queue_of t c.pending) (responses t fs))
      × ((recv_loop fs c).log.events ≡ c.log.events ++ stamped (pushed c.pending fs))
recv_loop_routes t fs c on h =
    let (going, queued, logged) = recv_loop_by_route t fs c on (all_harmless fs h) in
    (
      going,
      queued ∙ ap (appended (queue_of t c.pending)) (of_type-responses t fs h),
      logged ∙ ap (λ ms. c.log.events ++ stamped ms) (others-pushed c.pending fs h),
    )
