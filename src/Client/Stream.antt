-- ===== src/Client/Stream.antt =====
-- The messages of one type as a stream: those in its queue and those that arrive, and how the wait
-- for a queue consumes it.
use sas_tests.Prelude.{
  Bool-cases, All, timeout_error, ok, raised, ℕ, String, ◌≡◌, refl, sym, ap, ◌∙◌, inl, inr, true,
  false, none, some, List, [], ◌∷◌, ◌++◌, append_assoc, arith, str_eq, eq_iff,
}
use mathlib.Core.Path.{subst}
use sas_tests.Json.{Dict}
use sas_tests.Client.{Client, Frame, Frames, Queues, queue_of, dequeue, deliver}
use sas_tests.Client.Routing.{is_harmless, of_type, of_type-cons, deliver_lem, appended}
use sas_tests.Client.Waiting.{Reply, await_get}

-- An empty queue, or one that nobody has made, gives nothing.
pub dequeue_empty : (t : String) (qs : Queues) → queue_of t qs ≡ some [] → dequeue t qs ≡ none
unfolding queue_of dequeue
dequeue_empty t [] h = refl
dequeue_empty t ((k, []) ∷ qs) h = ground (arith, dequeue_empty t qs)
dequeue_empty t ((k, x ∷ q) ∷ qs) h = ground (arith, dequeue_empty t qs)

-- A queue gives its oldest message; the other queues stay.
pub record Popped (t : String) (m : Dict) (q : List Dict) (qs : Queues) : Type 0 where
  pub left : Queues
  pub popped : dequeue t qs ≡ some (m, left)
  pub own : queue_of t left ≡ some q
  pub other : (k : String) → str_eq t k ≡ false → queue_of k left ≡ queue_of k qs

pub dequeue_lem :
    (t : String) (qs : Queues) (m : Dict) (q : List Dict)
    → queue_of t qs ≡ some (m ∷ q)
    → Popped t m q qs
unfolding queue_of dequeue
dequeue_lem t [] m q h = cc
dequeue_lem t ((k, []) ∷ qs) m q h = elim (Bool-cases (str_eq k t)) [
  | inl hit ↦ absurd (ground arith)
  | inr miss ↦
      (let rest = dequeue_lem t qs m q (ground arith) in
        record {
          left = (k, []) ∷ rest.left;
          popped = ground (arith, rest.popped);
          own = ground (arith, rest.own);
          other = λ j ne. ground (arith, rest.other j ne);
        })
]
dequeue_lem t ((k, x ∷ xs) ∷ qs) m q h = elim (Bool-cases (str_eq k t)) [
  | inl hit ↦ record {
    left = (k, q) ∷ qs;
    popped = ground arith;
    own = ground arith;
    other = λ j ne. ground (arith, eq_iff k t, eq_iff k j, eq_iff t j);
  }
  | inr miss ↦
      (let rest = dequeue_lem t qs m q (ground arith) in
        record {
          left = (k, x ∷ xs) ∷ rest.left;
          popped = ground (arith, rest.popped);
          own = ground (arith, rest.own);
          other = λ j ne. ground (arith, rest.other j ne);
        })
]

-- From this state and with these frames to come, the messages of the type are `ms`.
pub record Upcoming (t : String) (ms : List Dict) (c : Client) (fs : Frames) : Type 0 where
  pub receiving : c.receiving ≡ true
  pub harmless : All (λ f. is_harmless f ≡ true) fs
  pub queue : List Dict
  pub queued : queue_of t c.pending ≡ some queue
  pub stream : queue ++ of_type t fs ≡ ms

pub Upcoming-deliver :
    {t : String} {ms : List Dict} {c : Client} {f : ℕ × Frame} {fs : Frames}
    → Upcoming t ms c (f ∷ fs)
    → Upcoming t ms (deliver f c) fs
Upcoming-deliver {t} {ms} {c} {f} {fs} u =
    let one = deliver_lem t f c u.receiving u.harmless.0 in
    record {
      receiving = one.0;
      harmless = u.harmless.1;
      queue = u.queue ++ of_type t (f ∷ []);
      queued = one.1 ∙ ap (λ o. appended o (of_type t (f ∷ []))) u.queued;
      stream =
          append_assoc u.queue (of_type t (f ∷ [])) (of_type t fs)
          ∙ sym (ap (λ l. u.queue ++ l) (of_type-cons t f fs))
          ∙ u.stream;
    }

-- A message that waits in the queue is returned, and no frame is waited for.
await_get_queued :
    (t : String) (m : Dict) (q : List Dict) (fs : Frames) (c : Client)
    → (p : Popped t m q c.pending) → await_get t fs c ≡ (ok m, record c { pending = p.left }, fs)
unfolding await_get
await_get_queued t m q [] c p = ground (arith, p.popped)
await_get_queued t m q (f ∷ fs) c p = ground (arith, p.popped)

await_get_empty :
    (t : String) (f : ℕ × Frame) (fs : Frames) (c : Client)
    → queue_of t c.pending ≡ some []
    → await_get t (f ∷ fs) c ≡ await_get t fs (deliver f c)
unfolding await_get
await_get_empty t f fs c h = ground (arith, dequeue_empty t c.pending h)

-- What `await_get` did with the stream of its type.
abbrev pub Took : String → List Dict → Reply → Type 0
Took t [] (r, c, fs) = r ≡ raised timeout_error
Took t (m ∷ ms) (r, c, fs) = (r ≡ ok m) × Upcoming t ms c fs

await_get_from :
    (t : String) (ms q : List Dict) (fs : Frames) (c : Client)
    → c.receiving ≡ true
    → All (λ f. is_harmless f ≡ true) fs
    → queue_of t c.pending ≡ some q
    → q ++ of_type t fs ≡ ms
    → Took t ms (await_get t fs c)
await_get_from t ms (m ∷ q) fs c on hs h e =
    let p = dequeue_lem t c.pending m q h in
    subst (λ l. Took t l (await_get t fs c)) e
      (rw (await_get_queued t m q fs c p)
        (refl, record { receiving = on; harmless = hs; queue = q; queued = p.own; stream = refl }))
await_get_from t ms [] [] c on hs h e =
    subst (λ l. Took t l (await_get t [] c)) e
      (unfold await_get in ground (arith, dequeue_empty t c.pending h))
await_get_from t ms [] (f ∷ fs) c on hs h e =
    let u =
      Upcoming-deliver {t = t} {ms = ms}
        (record { receiving = on; harmless = hs; queue = []; queued = h; stream = e }) in
    rw (await_get_empty t f fs c h)
      (await_get_from t ms u.queue fs (deliver f c) u.receiving u.harmless u.queued u.stream)

-- The wait returns the next message of the stream and leaves the rest to come, in order; it times
-- out exactly where the stream is empty.
pub await_get_lem :
    (t : String) (ms : List Dict) (fs : Frames) (c : Client)
    → Upcoming t ms c fs
    → Took t ms (await_get t fs c)
await_get_lem t ms fs c u =
    await_get_from t ms u.queue fs c u.receiving u.harmless u.queued u.stream
