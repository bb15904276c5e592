-- ===== src/Client/Mailbox/Refined.antt =====
-- The client refines its mailbox.
use sas_tests.Prelude.{
  Bool-cases, take, Error, Outcome, ok, raised, ℕ, String, ◌≡◌, refl, sym, ap, ◌∙◌, inl, inr,
  Option, none, some, List, [], ◌∷◌, ◌++◌, arith, str_eq, eq_iff,
}
use mathlib.Core.Path.{ap₂, subst}
use sas_tests.Json.{Dict}
use sas_tests.Client.{Client, Frames, deliver}
use sas_tests.Client.Stream.{Popped}
use sas_tests.Client.Waiting.{Reply, await_get, timed, request, wait_for}
use sas_tests.Client.Session.{refusal, Call, asks, waits, idles, Answers, behind, do_call, session}
use sas_tests.Client.Session.Handed.{
  Holding, nothing, something, holding, asked, request_on, request_off,
}
use sas_tests.Client.Mailbox.{
  ask, Mailbox, or_nil, replaced, register, accept, await, answer, answer_all,
}
use sas_tests.Client.Mailbox.Agreement.{
  Agrees, mailbox_of, register-Agrees, accept-Agrees, accept_all-Agrees,
}

-- The same answer, the same frames left, and states that agree.
abbrev Same {ℓ} : {A : Type ℓ} → A × Client × Frames → A × Mailbox × Frames → Type ℓ
Same (r, c, fs) (r', m, fs') = (r ≡ r') × ((fs ≡ fs') × Agrees c m)

taken-Agrees :
    {c : Client} {m : Mailbox} (t : String) (d : Dict) (q : List Dict)
    → Agrees c m
    → (p : Popped t d q c.pending)
    → Agrees (record c { pending = p.left }) (record m { queue = replaced t (some q) m.queue })
taken-Agrees {c} {m} t d q a p = record {
  queues = λ k. elim (Bool-cases (str_eq t k)) [
    | inl same ↦ ground (arith, eq_iff t k, p.own)
    | inr other ↦ ground (arith, p.other k, a.queues k)
  ];
  events = a.events;
  connected = a.connected;
  is_open = a.is_open;
  listening = a.listening;
}

await-Same :
    (t : String) (fs : Frames) {c : Client} {m : Mailbox}
    → Agrees c m
    → Same (await_get t fs c) (await t fs m)
unfolding await_get await
await-Same t [] {c} {m} a = by_holding (holding t c.pending)
  where
    by_holding : Holding t c.pending → Same (await_get t [] c) (await t [] m)
    by_holding (nothing empty e) =
        rw (e, sym (ap or_nil (a.queues t)) ∙ empty, await_get, await) (refl, (refl, a))
    by_holding (something d q e p) =
        rw (p.popped, sym (a.queues t) ∙ e, await_get, await) (refl, (refl, taken-Agrees t d q a p))
await-Same t (f ∷ fs) {c} {m} a =
    by_holding (await-Same t fs {c = deliver f c} {m = accept f m} (accept-Agrees f a))
      (holding t c.pending)
  where
    by_holding :
        Same (await_get t fs (deliver f c)) (await t fs (accept f m))
        → Holding t c.pending
        → Same (await_get t (f ∷ fs) c) (await t (f ∷ fs) m)
    by_holding later (nothing empty e) =
        rw (e, sym (ap or_nil (a.queues t)) ∙ empty, await_get, await) later
    by_holding later (something d q e p) =
        rw (p.popped, sym (a.queues t) ∙ e, await_get, await) (refl, (refl, taken-Agrees t d q a p))

timed-Same :
    {m : Outcome Dict × Mailbox × Frames} (t0 : ℕ) (r : Reply) → Same r m → Same (timed t0 r) m
timed-Same t0 (ok d, c, fs) (e, (left, a)) = (
  e,
  (
    left,
    record {
      queues = a.queues;
      events = a.events;
      connected = a.connected;
      is_open = a.is_open;
      listening = a.listening;
    },
  ),
)
timed-Same t0 (raised x, c, fs) h = h

-- A call's answer under its type, and the frames of its window that it left before the others.
windowed-Same :
    (t : String) (n : ℕ) (fs : Frames) (r : Reply) (m : Outcome Dict × Mailbox × Frames)
    → Same r m
    → Same {A = Answers}
        ((t, r.0) ∷ [], r.1, r.2 ++ behind n fs)
        ((t, m.0) ∷ [], m.1, m.2 ++ behind n fs)
windowed-Same t n fs (r, c, fs') (r', m, gs) (e, (left, a)) =
    (ap (λ x. (t, x) ∷ []) e, (ap (λ l. l ++ behind n fs) left, a))

asked-Agrees :
    {c : Client} {m : Mailbox} (message : Dict) (t : String)
    → Agrees c m
    → Agrees (asked message t c) (register t m)
asked-Agrees message t a =
    let a' = register-Agrees t a in
    record {
      queues = a'.queues;
      events = a'.events;
      connected = a'.connected;
      is_open = a'.is_open;
      listening = a'.listening;
    }

request-Same :
    {c : Client} {m : Mailbox} (message : Dict) (t : String) (fs : Frames)
    → Agrees c m
    → Same (request message t fs c) (ask t fs m)
unfolding ask
request-Same {c} {m} message t fs a =
    by_refusal (refusal m.connected m.is_open) (ap₂ refusal a.connected a.is_open)
  where
    by_refusal :
        (o : Option Error)
        → refusal c.connected c.is_open ≡ o
        → Same (request message t fs c) (elim o as (λ o. Outcome Dict × Mailbox × Frames) [
          | none ↦ await t fs (register t m)
          | some e ↦ (raised e, register t m, fs)
        ])
    by_refusal none e =
        rw (request_on message t fs c e)
          (timed-Same c.now _ (await-Same t fs (asked-Agrees message t a)))
    by_refusal (some x) e = rw (request_off message t fs x c e) (refl, (refl, register-Agrees t a))

do_call-Same :
    (call : Call) (fs : Frames) {c : Client} {m : Mailbox}
    → Agrees c m
    → Same (do_call call fs c) (answer call fs m)
unfolding do_call answer wait_for
do_call-Same (asks message t n) fs {c} {m} a =
    windowed-Same t n fs _ _ (request-Same message t (take n fs) a)
do_call-Same (waits t n) fs {c} {m} a =
    windowed-Same t n fs _ _ (await-Same t (take n fs) (register-Agrees t a))
do_call-Same (idles n) fs a = (refl, (refl, accept_all-Agrees (take n fs) a))

session-Same :
    (calls : List Call) (fs : Frames) {c : Client} {m : Mailbox}
    → Agrees c m
    → Same (session calls fs c) (answer_all calls fs m)
unfolding session answer_all
session-Same [] fs a = (refl, (refl, a))
session-Same (call ∷ calls) fs {c} {m} a =
    let (e, (left, a')) = do_call-Same call fs a in
    let (r, c', fs') = do_call call fs c in
    let (r', m', gs) = answer call fs m in
    let (e', (left', a'')) : Same (session calls fs' c') (answer_all calls gs m') =
      subst (λ l. Same (session calls fs' c') (answer_all calls l m')) left
        (session-Same calls fs' {c = c'} {m = m'} a') in
    (ap₂ ◌++◌ e e', (left', a''))

-- The client is its mailbox: over any session of requests, waits and idle times, whatever the frames,
-- one that ends the receive task included, connected or not, with the connection open or ended, the
-- calls return and raise what the mailbox's do and leave the same frames, and the client's queues, log
-- and flags stay those of the mailbox. So how the queues are stored is seen by no call.
pub session_refines :
    (calls : List Call) (fs : Frames) (c : Client)
    → let (answers, c', fs') = session calls fs c in
      let (answers', m, gs) = answer_all calls fs (mailbox_of c) in
      (answers ≡ answers') × ((fs' ≡ gs) × Agrees c' m)
session_refines calls fs c = session-Same calls fs (record {
  queues = λ t. refl;
  events = refl;
  connected = refl;
  is_open = refl;
  listening = refl;
})
