-- ===== src/Client/Mailbox/Agreement.antt =====
-- When a client stands for a mailbox, and what its receive task keeps of that.
use sas_tests.Prelude.{
  if◌then◌else◌, ℕ, String, ◌≡◌, refl, ap, Bool, true, false, Option, none, some, List, [], ◌∷◌,
  ◌++◌, arith, eq_iff,
}
use sas_tests.Json.{Dict}
use sas_tests.Events.{push, stamp}
use sas_tests.Client.{
  Client, Frame, Frames, garbage, closed, value, queue_of, Route, crash, drop, typed, untyped,
  route, dispatch, deliver, recv_loop,
}
use sas_tests.Client.Routing.{queue_of-ensure, queue_of-enqueue}
use sas_tests.Client.Waiting.{with_queue}
use sas_tests.Client.Mailbox.{Mailbox, register, file_under, deposit, accept, accept_all}

-- The client stands for the mailbox: its association list, read by type, is the mailbox's function.
pub record Agrees (c : Client) (m : Mailbox) : Type 0 where
  pub queues : (t : String) → queue_of t c.pending ≡ m.queue t
  pub events : c.log.events ≡ m.events
  pub connected : c.connected ≡ m.connected
  pub is_open : c.is_open ≡ m.is_open
  pub listening : c.receiving ≡ m.listening

abbrev pub mailbox_of : Client → Mailbox
mailbox_of c = record {
  queue = λ t. queue_of t c.pending;
  events = c.log.events;
  connected = c.connected;
  is_open = c.is_open;
  listening = c.receiving;
}

pub register-Agrees :
    {c : Client} {m : Mailbox} (t : String) → Agrees c m → Agrees (with_queue t c) (register t m)
unfolding register
register-Agrees {c} {m} t a = record {
  queues = λ k. ground (arith, eq_iff t k, a.queues t, a.queues k, queue_of-ensure t k c.pending);
  events = a.events;
  connected = a.connected;
  is_open = a.is_open;
  listening = a.listening;
}

deposit-Agrees :
    {c : Client} {m : Mailbox} (now : ℕ) (r : Route)
    → Agrees c m
    → Agrees (dispatch now r c) (deposit now r m)
unfolding dispatch deposit
deposit-Agrees now (crash e) a = record {
  queues = a.queues;
  events = a.events;
  connected = a.connected;
  is_open = a.is_open;
  listening = refl;
}
deposit-Agrees now drop a = record {
  queues = a.queues;
  events = a.events;
  connected = a.connected;
  is_open = a.is_open;
  listening = a.listening;
}
deposit-Agrees now (untyped d) a = record {
  queues = a.queues;
  events = unfold push in ap (λ l. l ++ stamp now d ∷ []) a.events;
  connected = a.connected;
  is_open = a.is_open;
  listening = a.listening;
}
deposit-Agrees {c} {m} now (typed t d) a = by_queue (m.queue t) (a.queues t)
  where
    by_queue :
        (o : Option (List Dict))
        → queue_of t c.pending ≡ o
        → Agrees (dispatch now (typed t d) c) (file_under now t d o m)
    by_queue none e =
        rw (e, dispatch)
          (record {
            queues = a.queues;
            events = unfold push in ap (λ l. l ++ stamp now d ∷ []) a.events;
            connected = a.connected;
            is_open = a.is_open;
            listening = a.listening;
          })
    by_queue (some q) e =
        rw (e, dispatch)
          (record {
            queues =
                λ k. ground (arith, eq_iff t k, e, a.queues k, queue_of-enqueue t k d c.pending);
            events = a.events;
            connected = a.connected;
            is_open = a.is_open;
            listening = a.listening;
          })

either-Agrees :
    {c c' : Client} {m m' : Mailbox} (b b' : Bool)
    → b ≡ b'
    → Agrees c m
    → Agrees c' m'
    → Agrees (if b then c else c') (if b' then m else m')
either-Agrees true true e a a' = a
either-Agrees true false e a a' = cc
either-Agrees false true e a a' = cc
either-Agrees false false e a a' = a'

-- The clock and what the client has sent are not the mailbox's.
at-Agrees : {c : Client} {m : Mailbox} (now : ℕ) → Agrees c m → Agrees (record c { now = now }) m
at-Agrees now a = record {
  queues = a.queues;
  events = a.events;
  connected = a.connected;
  is_open = a.is_open;
  listening = a.listening;
}

pub accept-Agrees :
    {c : Client} {m : Mailbox} (f : ℕ × Frame) → Agrees c m → Agrees (deliver f c) (accept f m)
unfolding deliver accept
accept-Agrees (now, garbage) a = at-Agrees now a
accept-Agrees (now, closed) a = record {
  queues = a.queues;
  events = a.events;
  connected = a.connected;
  is_open = refl;
  listening = refl;
}
accept-Agrees {c} {m} (now, value v) a =
    either-Agrees c.receiving m.listening a.listening (deposit-Agrees now (route v) a)
      (at-Agrees now a)

pub accept_all-Agrees :
    (fs : Frames) {c : Client} {m : Mailbox}
    → Agrees c m
    → Agrees (recv_loop fs c) (accept_all fs m)
unfolding recv_loop accept_all
accept_all-Agrees [] {c} {m} a = a
accept_all-Agrees (f ∷ fs) {c} {m} a =
    accept_all-Agrees fs {c = deliver f c} {m = accept f m} (accept-Agrees f a)
