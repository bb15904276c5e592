-- ===== src/Events/Wait.antt =====
-- When `wait_for_event` returns, and what; when it times out.
use sas_tests.Prelude.{
  ltb, leb, Bool-cases, Option-cases, first, All, Outcome, timeout_error, ok, raised, ℕ, ◌≤◌, ◌<◌,
  String, ◌≡◌, refl, sym, ap, ◌∙◌, inl, inr, Bool, true, false, Option, none, some, List, [], ◌∷◌,
  ◌++◌, append-nil, append_assoc, arith,
}
use sas_tests.Json.{Dict}
use sas_tests.Events.{
  Log, Wake, push, push_all, stamp, lower, matches, looked, asleep, wait_for_event,
}

abbrev pub stamped : List (ℕ × Dict) → List Dict
stamped [] = []
stamped ((now, message) ∷ ms) = stamp now message ∷ stamped ms

events-push_all : (ms : List (ℕ × Dict)) (s : Log) → (push_all ms s).events ≡ s.events ++ stamped ms
unfolding push_all
events-push_all [] s = sym (append-nil s.events)
events-push_all ((now, message) ∷ ms) s =
    events-push_all ms (push now message s)
    ∙ append_assoc s.events (stamp now message ∷ []) (stamped ms)

first-append_some {ℓ} :
    {A : Type ℓ} (p : A → Bool) (xs ys : List A) (a : A)
    → first p xs ≡ some a
    → first p (xs ++ ys) ≡ some a
first-append_some p [] ys a h = cc
first-append_some p (x ∷ xs) ys a h = ground (arith, first-append_some p xs ys a)

-- Where `_new_event` is not set after some pushes, there were none.
pushed_signalled :
    (ms : List (ℕ × Dict)) (s : Log) → s.signalled ≡ true → (push_all ms s).signalled ≡ true
unfolding push_all push
pushed_signalled [] s h = h
pushed_signalled ((now, message) ∷ ms) s h = pushed_signalled ms (push now message s) refl

quiet_lem : (ms : List (ℕ × Dict)) (s : Log) → (push_all ms s).signalled ≡ false → push_all ms s ≡ s
unfolding push_all push
quiet_lem [] s h = refl
quiet_lem ((now, message) ∷ ms) s h = let on = pushed_signalled ms (push now message s) refl in cc

-- What a finished wait has shown: the event that it returns is the oldest of the log that fits, and
-- a timeout is raised over a log in which none fits.
abbrev pub Answers : String → Option (Dict → Bool) → Outcome Dict × Log → Type 0
Answers t p (ok ev, s) = first (matches t p) s.events ≡ some ev
Answers t p (raised e, s) = (e ≡ timeout_error) × (first (matches t p) s.events ≡ none)

looked-Answers :
    (t : String) (p : Option (Dict → Bool)) (deadline now : ℕ) (s : Log)
    (sleep : Outcome Dict × Log)
    → (first (matches t p) s.events ≡ none → Answers t p sleep)
    → Answers t p (looked t p deadline now s sleep)
unfolding looked
looked-Answers t p deadline now s sleep h = elim (Option-cases (first (matches t p) s.events)) [
  | inr (ev, e) ↦ rw (e, looked) e
  | inl e ↦
      rw (e, looked)
        (elim (Bool-cases (leb deadline now)) [
          | inl over ↦ rw over (refl, e)
          | inr more ↦ rw more (h e)
        ])
]

asleep-Answers :
    (t : String) (p : Option (Dict → Bool)) (deadline : ℕ) (ws : List Wake) (s : Log)
    → first (matches t p) s.events ≡ none
    → Answers t p (asleep t p deadline ws s)
unfolding asleep
asleep-Answers t p deadline [] s missed = (refl, missed)
asleep-Answers t p deadline (w ∷ ws) s missed =
    let s' = push_all w.arrived s in
    elim (Bool-cases (ltb deadline w.now)) [
      | inl over ↦ rw over (refl, missed)
      | inr more ↦ rw more (elim (Bool-cases s'.signalled) [
        | inl on ↦ rw on (
            looked-Answers t p deadline w.now s' _
              (λ none_yet. asleep-Answers t p deadline ws (lower s') none_yet))
        | inr off ↦ rw off (
            asleep-Answers t p deadline ws s'
              (ap (λ (l : Log). first (matches t p) l.events) (quiet_lem w.arrived s off) ∙ missed))
      ])
    ]

-- However the messages arrive, `wait_for_event` returns the oldest event of the log that it leaves
-- which has the type and passes the predicate, or raises TimeoutError, and then no event of that
-- log fits.
pub wait_for_event-Answers :
    (t : String) (p : Option (Dict → Bool)) (deadline now : ℕ) (ws : List Wake) (s : Log)
    → Answers t p (wait_for_event t p deadline now ws s)
unfolding wait_for_event
wait_for_event-Answers t p deadline now ws s =
    looked-Answers t p deadline now s (asleep t p deadline ws (lower s))
      (asleep-Answers t p deadline ws (lower s))

-- The events that some messages add to the log.
abbrev pub added : List Wake → List Dict
added [] = []
added (w ∷ ws) = stamped w.arrived ++ added ws

looked_finds :
    (t : String) (p : Option (Dict → Bool)) (deadline now : ℕ) (s : Log) (later : List Dict)
    (ev : Dict) (sleep : Outcome Dict × Log)
    → now < deadline
    → first (matches t p) (s.events ++ later) ≡ some ev
    → (first (matches t p) s.events ≡ none → sleep.0 ≡ ok ev)
    → (looked t p deadline now s sleep).0 ≡ ok ev
unfolding looked
looked_finds t p deadline now s later ev sleep early found h =
    elim (Option-cases (first (matches t p) s.events)) [
      | inr (ev', e) ↦
          (let same = first-append_some (matches t p) s.events later ev' e in
            rw (e, looked) (ground (arith, same)))
      | inl e ↦ ground (arith, h e)
    ]

-- The waiter that `w` could wake at the deadline at the latest.
last_wake :
    (t : String) (p : Option (Dict → Bool)) (deadline : ℕ) (w : Wake) (later : List Wake) (s : Log)
    (ev : Dict)
    → w.now ≤ deadline
    → first (matches t p) s.events ≡ none
    → first (matches t p) (s.events ++ stamped w.arrived) ≡ some ev
    → (asleep t p deadline (w ∷ later) s).0 ≡ ok ev
unfolding asleep looked
last_wake t p deadline w later s ev hw missed found =
    let s' = push_all w.arrived s in
    let grown = ap (first (matches t p)) (events-push_all w.arrived s) ∙ found in
    let more : ltb deadline w.now ≡ false = ground arith in
    elim (Bool-cases s'.signalled) [
      | inl on ↦ rw (more, on) (rw (grown, looked) refl)
      | inr off ↦
          (let same = ap (λ (l : Log). first (matches t p) l.events) (quiet_lem w.arrived s off) in
            absurd (ground (arith, same, grown, missed)))
    ]

asleep_finds :
    (t : String) (p : Option (Dict → Bool)) (deadline : ℕ) (ws : List Wake) (w : Wake)
    (later : List Wake) (s : Log) (ev : Dict)
    → All (λ v. v.now < deadline) ws
    → w.now ≤ deadline
    → first (matches t p) s.events ≡ none
    → first (matches t p) (s.events ++ added (ws ++ w ∷ [])) ≡ some ev
    → (asleep t p deadline (ws ++ w ∷ later) s).0 ≡ ok ev
unfolding asleep
asleep_finds t p deadline [] w later s ev hs hw missed found =
    last_wake t p deadline w later s ev hw missed
      (ap (λ l. first (matches t p) (s.events ++ l)) (sym (append-nil (stamped w.arrived))) ∙ found)
asleep_finds t p deadline (u ∷ ws) w later s ev hs hw missed found =
    let s' = push_all u.arrived s in
    let rest = added (ws ++ w ∷ []) in
    let here : s'.events ++ rest ≡ s.events ++ (stamped u.arrived ++ rest) =
      ap (λ l. l ++ rest) (events-push_all u.arrived s)
      ∙ append_assoc s.events (stamped u.arrived) rest in
    let found' = ap (first (matches t p)) here ∙ found in
    let more : ltb deadline u.now ≡ false = ground (arith, hs.0) in
    elim (Bool-cases s'.signalled) [
      | inl on ↦
          rw (more, on)
            (looked_finds t p deadline u.now s' rest ev _ hs.0 found' (λ none_yet.
              asleep_finds t p deadline ws w later (lower s') ev hs.1 hw none_yet found'))
      | inr off ↦
          rw (more, off)
            (asleep_finds t p deadline ws w later s' ev hs.1 hw
              (ap (λ (l : Log). first (matches t p) l.events) (quiet_lem u.arrived s off) ∙ missed)
              found')
    ]

-- No wake-up is lost: where the waiter starts before its deadline, the messages in `ws` arrive before
-- the deadline and those in `w` not after it, and an event of the log fits, or of what these messages
-- add to it, the waiter returns the oldest such event, whatever comes later.
pub wait_for_event_finds :
    (t : String) (p : Option (Dict → Bool)) (deadline now : ℕ) (ws : List Wake) (w : Wake)
    (later : List Wake) (s : Log) (ev : Dict)
    → now < deadline
    → All (λ v. v.now < deadline) ws
    → w.now ≤ deadline
    → first (matches t p) (s.events ++ added (ws ++ w ∷ [])) ≡ some ev
    → (wait_for_event t p deadline now (ws ++ w ∷ later) s).0 ≡ ok ev
unfolding wait_for_event
wait_for_event_finds t p deadline now ws w later s ev h hs hw found =
    looked_finds t p deadline now s (added (ws ++ w ∷ [])) ev
      (asleep t p deadline (ws ++ w ∷ later) (lower s)) h found
      (λ missed. asleep_finds t p deadline ws w later (lower s) ev hs hw missed found)
