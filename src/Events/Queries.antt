-- ===== src/Events/Queries.antt =====
-- The queries of the event log agree with one another, and `push` with them.
use sas_tests.Prelude.{
  if◌then◌else◌, get_elem?, keep, first, length-append, keep-append, assertion_error, ok, raised, ℕ,
  ◌+◌, String, ◌≡◌, refl, ◌⊎◌, inl, inr, Bool, none, some, List, [], ◌∷◌, ◌++◌, arith,
}
use sas_tests.Json.{Dict, milli}
use sas_tests.Json.Laws.{get-put}
use sas_tests.Events.{
  Log, push, stamp, has_type, get_all, count, assert_event_occurred, assert_no_event,
}

first-keep {ℓ} : {A : Type ℓ} (p : A → Bool) (xs : List A) → first p xs ≡ get_elem? (keep p xs) 0
first-keep p [] = refl
first-keep p (x ∷ xs) = ground (arith, first-keep p xs)

-- Exactly one of `assert_event_occurred` and `assert_no_event` raises, an AssertionError; the first
-- returns the oldest event that `get_all` lists for the type, and the second passes exactly when
-- `get_all` lists none.
asserts_lem :
    (t : String) (s : Log)
    → ((get_all (some t) s ≡ [])
        × (assert_event_occurred t s ≡ raised assertion_error)
        × (assert_no_event t s ≡ ok tt))
      ⊎ ((ev : Dict) × (get_elem? (get_all (some t) s) 0 ≡ some ev)
          × (assert_event_occurred t s ≡ ok ev)
          × (assert_no_event t s ≡ raised assertion_error))
unfolding assert_event_occurred assert_no_event get_all
asserts_lem t s = by_list (keep (has_type t) s.events) refl
  where
    by_list :
        (xs : List Dict)
        → keep (has_type t) s.events ≡ xs
        → ((get_all (some t) s ≡ [])
            × (assert_event_occurred t s ≡ raised assertion_error)
            × (assert_no_event t s ≡ ok tt))
          ⊎ ((ev : Dict) × (get_elem? (get_all (some t) s) 0 ≡ some ev)
              × (assert_event_occurred t s ≡ ok ev)
              × (assert_no_event t s ≡ raised assertion_error))
    by_list [] e = inl (ground (arith, first-keep (has_type t) s.events))
    by_list (ev ∷ xs) e = inr (
      ev,
      ground (arith, first-keep (has_type t) s.events),
      ground (arith, first-keep (has_type t) s.events),
      ground (arith, first-keep (has_type t) s.events),
    )

-- The time stamp does not touch the type.
has_type-stamp :
    (t : String) (now : ℕ) (message : Dict) → has_type t (stamp now message) ≡ has_type t message
unfolding has_type
has_type-stamp t now message = ground (arith, get-put "_received_at" "type" (milli now) message)

-- After `push`, `get_all` for a type lists what it listed before, and at the end the stamped message
-- exactly if it has that type; the unfiltered list and `count` grow by the one message.
get_all-push :
    (t : String) (now : ℕ) (message : Dict) (s : Log)
    → (get_all (some t) (push now message s)
        ≡ get_all (some t) s ++ (if has_type t message then stamp now message ∷ [] else []))
      × (get_all none (push now message s) ≡ get_all none s ++ stamp now message ∷ [])
      × (count (push now message s) ≡ count s + 1)
unfolding get_all push count
get_all-push t now message s = (
  rw (keep-append (has_type t) s.events (stamp now message ∷ []))
      (ground (arith, has_type-stamp t now message)),
  refl,
  omega (arith, length-append {0} s.events (stamp now message ∷ [])),
)
