-- ===== src/Fixtures/Fine.antt =====
-- A client that is connected and receives, through requests and pauses.
use sas_tests.Prelude.{
  take, All-append, timeout_error, ok, raised, ℕ, String, ◌≡◌, ap, ◌∙◌, true, Option, none, some,
  List, [], ◌∷◌, ◌++◌,
}
use sas_tests.Json.{Dict}
use sas_tests.Client.{Client, Frame, Frames, Queues, Sent, json, dequeue, deliver, recv_loop}
use sas_tests.Client.Routing.{is_harmless, deliver_lem}
use sas_tests.Client.Waiting.{Reply, await_get, timed, request}
use sas_tests.Client.Requests.{sent-deliver}
use sas_tests.Client.Session.{behind, refusal}
use mathlib.Core.Path.{ap₂}
use sas_tests.Client.Session.Handed.{asked, request_on}
use sas_tests.Client.Session.Windows.{Harmless, Harmless-split}
use sas_tests.Client.Reach.Sound.{IsSound, deliver-IsSound}
use sas_tests.Fixtures.{ask_in}
use sas_tests.Fixtures.Login.{IsRunning, calm, request-Asked}

-- A wait hands on frames that it was given.
rest-await_get :
    (t : String) (fs : Frames) (c : Client) → Harmless fs → Harmless (await_get t fs c).2
unfolding await_get
rest-await_get t [] c hs = by_taken (dequeue t c.pending)
  where
    by_taken :
        (o : Option (Dict × Queues))
        → Harmless
            (elim o as (λ o. Reply) [
              | some (m, qs) ↦ (ok m, record c { pending = qs }, [])
              | none ↦ (raised timeout_error, c, [])
            ]).2
    by_taken none = tt
    by_taken (some (m, qs)) = tt
rest-await_get t (f ∷ fs) c hs =
    by_taken (rest-await_get t fs (deliver f c) hs.1) (dequeue t c.pending)
  where
    by_taken :
        Harmless (await_get t fs (deliver f c)).2
        → (o : Option (Dict × Queues))
        → Harmless
            (elim o as (λ o. Reply) [
              | some (m, qs) ↦ (ok m, record c { pending = qs }, f ∷ fs)
              | none ↦ await_get t fs (deliver f c)
            ]).2
    by_taken later none = later
    by_taken later (some (m, qs)) = hs

rest-timed : (t0 : ℕ) (r : Reply) → Harmless r.2 → Harmless (timed t0 r).2
rest-timed t0 (ok m, c, fs) hs = hs
rest-timed t0 (raised e, c, fs) hs = hs

-- A client that can go on, with frames to come that do not end its receive task.
pub record IsFine (out : List Sent) (c : Client) (fs : Frames) : Type 0 where
  pub sent : c.sent ≡ out
  pub running : IsRunning c
  pub sound : IsSound c
  pub harmless : Harmless fs

pub ask_in-IsFine :
    {out : List Sent} (n : ℕ) (message : Dict) (t : String) (fs : Frames) (c : Client)
    → IsFine out c fs
    → let (r, c', fs') = ask_in n message t fs c in IsFine (out ++ json message ∷ []) c' fs'
unfolding ask_in
ask_in-IsFine {out} n message t fs c fine =
    let (now', later) = Harmless-split n fs fine.harmless in
    let a = request-Asked message t (take n fs) c fine.running fine.sound now' in
    record {
      sent = a.sent ∙ ap (λ l. l ++ json message ∷ []) fine.sent;
      running = a.running;
      sound = a.sound;
      harmless =
          All-append (λ f. is_harmless f ≡ true) (request message t (take n fs) c).2 (behind n fs)
            (rw
              (request_on message t (take n fs) c
                (ap₂ refusal fine.running.connected fine.running.is_open))
              (rest-timed c.now _ (rest-await_get t (take n fs) (asked message t c) now')))
            later;
    }

deliver-IsRunning :
    (f : ℕ × Frame) (c : Client)
    → is_harmless f ≡ true
    → IsSound (deliver f c)
    → IsRunning c
    → IsRunning (deliver f c)
deliver-IsRunning f c h s run =
    let on = (deliver_lem "" f c run.receiving h).0 in
    let still =
      calm (deliver f c).connected (deliver f c).is_open (deliver f c).receiving
        (deliver f c).failure on s.phase in
    record {
      connected = (sent-deliver f c).1 ∙ run.connected;
      is_open = still.1;
      receiving = on;
      failure = still.0;
    }

recv_loop-IsFine :
    {out : List Sent} (fs gs : Frames) (c : Client)
    → Harmless fs
    → IsFine out c gs
    → IsFine out (recv_loop fs c) gs
unfolding recv_loop
recv_loop-IsFine [] gs c hs fine = fine
recv_loop-IsFine (f ∷ fs) gs c hs fine =
    let s = deliver-IsSound f c fine.sound in
    recv_loop-IsFine fs gs (deliver f c) hs.1 (record {
      sent = (sent-deliver f c).0 ∙ fine.sent;
      running = deliver-IsRunning f c hs.0 s fine.running;
      sound = s;
      harmless = fine.harmless;
    })

-- A pause.
pub idle-IsFine :
    {out : List Sent} (n : ℕ) (fs : Frames) (c : Client)
    → IsFine out c fs
    → IsFine out (recv_loop (take n fs) c) (behind n fs)
idle-IsFine n fs c fine =
    let (now', later) = Harmless-split n fs fine.harmless in
    recv_loop-IsFine (take n fs) (behind n fs) c now'
      (record { sent = fine.sent; running = fine.running; sound = fine.sound; harmless = later })
