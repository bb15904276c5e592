-- ===== src/Client/Reach/Queues.antt =====
-- The queues of a client: each type has one at most, and what is in it has the type.
use sas_tests.Prelude.{
  Bool-cases, All, All-append, String, ◌≡◌, refl, inl, inr, Option, none, some, List, [], ◌∷◌,
  arith, str_eq, eq_iff,
}
use sas_tests.Json.{Dict, text, get, null, bool, num, arr, obj, Json}
use sas_tests.Client.{Queues, queue_of, ensure, enqueue, dequeue, typed, route, route_type}
use sas_tests.Client.Routing.{queue_of-ensure, queue_of-enqueue}

abbrev pub HasType : String → Dict → Type 0
HasType t m = get "type" m ≡ some (text t)

abbrev pub Good : Queues → Type 0
Good [] = Unit {0}
Good ((k, q) ∷ qs) = (queue_of k qs ≡ none) × (All (HasType k) q × Good qs)

pub ensure-Good : (t : String) (qs : Queues) → Good qs → Good (ensure t qs)
unfolding ensure queue_of
ensure-Good t [] g = (refl, (tt, tt))
ensure-Good t ((k, q) ∷ qs) (new, (typed', g)) = elim (Bool-cases (str_eq k t)) [
  | inl same ↦ simp same (new, (typed', g))
  | inr other ↦
      simp other (
        ground (arith, queue_of-ensure t k qs, eq_iff t k, eq_iff k t),
        (typed', ensure-Good t qs g),
      )
]

pub enqueue-Good :
    (t : String) (m : Dict) (qs : Queues) → HasType t m → Good qs → Good (enqueue t m qs)
unfolding enqueue
enqueue-Good t m [] h g = tt
enqueue-Good t m ((k, q) ∷ qs) h (new, (typed', g)) = elim (Bool-cases (str_eq k t)) [
  | inl same ↦
      simp same
        (new, (All-append (HasType k) q (m ∷ []) typed' (ground (arith, eq_iff k t), tt), g))
  | inr other ↦
      simp other (ground (arith, queue_of-enqueue t k m qs), (typed', enqueue-Good t m qs h g))
]

-- Taking a message out makes no queue.
dequeue_keeps :
    (t k : String) (qs left : Queues) (m : Dict)
    → dequeue t qs ≡ some (m, left)
    → queue_of k qs ≡ none
    → queue_of k left ≡ none
unfolding dequeue queue_of
dequeue_keeps t k [] left m e h = cc
dequeue_keeps t k ((j, []) ∷ qs) left m e h = grind (arith, dequeue_keeps t k qs)
dequeue_keeps t k ((j, x ∷ q) ∷ qs) left m e h = grind (arith, dequeue_keeps t k qs)

-- A queue that another was taken from, back in front of the rest.
abbrev front : String → List Dict → Option (Dict × Queues) → Option (Dict × Queues)
front k q none = none
front k q (some (m, qs)) = some (m, (k, q) ∷ qs)

front-Good :
    (t k : String) (q : List Dict) (qs left : Queues) (m : Dict) (o : Option (Dict × Queues))
    → dequeue t qs ≡ o
    → ((l : Queues) (d : Dict) → dequeue t qs ≡ some (d, l) → HasType t d × Good l)
    → (queue_of k qs ≡ none) × (All (HasType k) q × Good qs)
    → front k q o ≡ some (m, left)
    → HasType t m × Good left
front-Good t k q qs left m none e ih g h = cc
front-Good t k q qs left m (some (d, l)) e ih g h = ground (arith, ih l d, dequeue_keeps t k qs l d)

pub dequeue-Good :
    (t : String) (qs left : Queues) (m : Dict)
    → dequeue t qs ≡ some (m, left)
    → Good qs
    → HasType t m × Good left
unfolding dequeue
dequeue-Good t [] left m e g = cc
dequeue-Good t ((k, []) ∷ qs) left m e g = elim (Bool-cases (str_eq k t)) [
  | inl same ↦ absurd (ground arith)
  | inr other ↦
      front-Good t k [] qs left m (dequeue t qs) refl (λ l d h. dequeue-Good t qs l d h g.1.1) g
        (ground arith)
]
dequeue-Good t ((k, x ∷ q) ∷ qs) left m e g = elim (Bool-cases (str_eq k t)) [
  | inl same ↦ ground (arith, eq_iff k t)
  | inr other ↦
      front-Good t k (x ∷ q) qs left m (dequeue t qs) refl (λ l d h. dequeue-Good t qs l d h g.1.1)
        g (ground arith)
]

pub route-HasType : (v : Json) (t : String) (d : Dict) → route v ≡ typed t d → HasType t d
unfolding route route_type
route-HasType (obj d') t d e = by_type (get "type" d') refl e
  where
    by_type : (o : Option Json) → get "type" d' ≡ o → route_type d' o ≡ typed t d → HasType t d
    by_type none eq h = ground arith
    by_type (some null) eq h = ground arith
    by_type (some (bool b)) eq h = ground arith
    by_type (some (num n)) eq h = ground arith
    by_type (some (text k)) eq h = ground arith
    by_type (some (arr xs)) eq h = ground arith
    by_type (some (obj x)) eq h = ground arith
route-HasType null t d e = cc
route-HasType (bool b) t d e = cc
route-HasType (num n) t d e = cc
route-HasType (text s) t d e = cc
route-HasType (arr xs) t d e = cc
