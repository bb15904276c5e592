-- ===== src/Fixtures/Login.antt =====
-- How a login ends, and what it leaves behind.
use sas_tests.Prelude.{
  if◌then◌else◌, Bool-cases, take, All, Error, Outcome, timeout_error, ok, raised, ℕ, String, ◌≡◌,
  refl, ◌∙◌, inl, inr, Bool, true, false, Option, none, some, List, [], ◌∷◌, ◌++◌, arith,
}
use sas_tests.Json.{Dict}
use sas_tests.Client.{Client, Frames, json, fresh, connect, disconnect, queue_of, deliver}
use sas_tests.Client.Routing.{is_harmless, of_type, deliver_lem}
use sas_tests.Client.Stream.{Upcoming, await_get_lem}
use sas_tests.Client.Waiting.{Reply, await_get, timed, request}
use sas_tests.Client.Requests.{
  sent-deliver, sent-await_get, waiting, with_queue-Upcoming, oldest, Took-oldest,
}
use sas_tests.Client.Session.{behind, refusal}
use mathlib.Core.Path.{ap₂}
use sas_tests.Client.Session.Handed.{asked, request_on}
use sas_tests.Client.Reach.Sound.{IsSound, Phase, asked-IsSound, await_get-IsFit}
use sas_tests.Fixtures.{
  Setup, ready, skipped, failed, ask_in, is_success, login_message, give_up, login,
}

connected-await_get :
    (t : String) (fs : Frames) (c : Client) → (await_get t fs c).1.connected ≡ c.connected
unfolding await_get
connected-await_get t [] c = ground arith
connected-await_get t (f ∷ fs) c =
    ground (arith, connected-await_get t fs (deliver f c), sent-deliver f c)

receiving-await_get :
    (t : String) (fs : Frames) (c : Client)
    → c.receiving ≡ true
    → All (λ f. is_harmless f ≡ true) fs
    → (await_get t fs c).1.receiving ≡ true
unfolding await_get
receiving-await_get t [] c on hs = ground arith
receiving-await_get t (f ∷ fs) c on hs =
    ground (arith, receiving-await_get t fs (deliver f c) (deliver_lem t f c on hs.0).0 hs.1, on)

-- How a login ends, by the login responses that arrive in its time.
abbrev pub verdict : List Dict → Setup (Unit {0})
verdict [] = failed timeout_error
verdict (resp ∷ ms) = if is_success resp then ready tt else skipped

-- Whether the client is still connected then.
abbrev pub is_left_open : Setup (Unit {0}) → Bool
is_left_open (ready u) = true
is_left_open skipped = false
is_left_open (failed e) = true

-- A client that is connected and whose receive task runs.
pub record IsRunning (c : Client) : Type 0 where
  pub connected : c.connected ≡ true
  pub is_open : c.is_open ≡ true
  pub receiving : c.receiving ≡ true
  pub failure : c.failure ≡ none

pub calm : (n o r : Bool) (f : Option Error) → r ≡ true → Phase n o r f → (f ≡ none) × (o ≡ true)
calm true true true none on h = (refl, refl)
calm true true true (some e) on h = absurd h
calm true false true none on h = absurd h
calm true false true (some e) on h = absurd h
calm true o false f on h = cc
calm false true r f on h = absurd h
calm false false true f on h = absurd h
calm false false false f on h = cc

-- A request on a running client: what it returns, what it sends, and that the client runs on.
pub record Asked (message : Dict) (ms : List Dict) (c : Client) (r : Reply) : Type 0 where
  pub result : r.0 ≡ oldest ms
  pub sent : r.1.sent ≡ c.sent ++ json message ∷ []
  pub running : IsRunning r.1
  pub sound : IsSound r.1

timed-Asked :
    (message : Dict) (ms : List Dict) (c : Client) (t0 : ℕ) (r : Reply)
    → Asked message ms c r
    → Asked message ms c (timed t0 r)
timed-Asked message ms c t0 (raised e, c', fs) a = a
timed-Asked message ms c t0 (ok m, c', fs) a = record {
  result = a.result;
  sent = a.sent;
  running = record {
    connected = a.running.connected;
    is_open = a.running.is_open;
    receiving = a.running.receiving;
    failure = a.running.failure;
  };
  sound = record { queues = a.sound.queues; phase = a.sound.phase };
}

pub request-Asked :
    (message : Dict) (t : String) (fs : Frames) (c : Client)
    → IsRunning c
    → IsSound c
    → All (λ f. is_harmless f ≡ true) fs
    → Asked message (waiting t c ++ of_type t fs) c (request message t fs c)
request-Asked message t fs c run s hs =
    let ms = waiting t c ++ of_type t fs in
    let c' = asked message t c in
    let r = await_get t fs c' in
    let u = with_queue-Upcoming t fs c run.receiving hs in
    let u' : Upcoming t ms c' fs = record {
      receiving = run.receiving;
      harmless = hs;
      queue = u.queue;
      queued = u.queued;
      stream = u.stream;
    } in
    let fit = await_get-IsFit t fs c' (asked-IsSound message t s) in
    let on = receiving-await_get t fs c' run.receiving hs in
    let still = calm r.1.connected r.1.is_open r.1.receiving r.1.failure on fit.1.phase in
    rw (request_on message t fs c (ap₂ refusal run.connected run.is_open)) (
      timed-Asked message ms c c.now r (record {
        result = Took-oldest t ms r (await_get_lem t ms fs c' u');
        sent = sent-await_get t fs c';
        running = record {
          connected = connected-await_get t fs c' ∙ run.connected;
          is_open = still.1;
          receiving = on;
          failure = still.0;
        };
        sound = fit.1;
      }))

pub connected-IsRunning : IsRunning (connect fresh)
unfolding connect
connected-IsRunning = record { connected = refl; is_open = refl; receiving = refl; failure = refl }

pub connected-IsSound : IsSound (connect fresh)
unfolding connect
connected-IsSound = record { queues = tt; phase = tt }

-- What `give_up` leaves.
give_up_lem {ℓ} :
    {A : Type ℓ} (c : Client) (fs : Frames)
    → c.failure ≡ none
    → let (s, c', fs') = give_up {A = A} c fs in
      (s ≡ skipped) × ((c'.connected ≡ false) × (c'.sent ≡ c.sent))
unfolding give_up disconnect
give_up_lem c fs e = ground (arith, e)

pub give_up_on {ℓ} :
    {A : Type ℓ} (c : Client) (fs : Frames)
    → c.failure ≡ none
    → give_up {A = A} c fs
      ≡ (skipped, record c { connected = false; is_open = false; receiving = false }, fs)
unfolding give_up disconnect
give_up_on c fs e = ground (arith, e)

-- What a login leaves, by what its request returned.
after_login :
    (ms : List Dict) (o : Outcome Dict) (c : Client) (fs : Frames)
    → o ≡ oldest ms
    → IsRunning c
    → let (s, c', fs') = elim o as (λ o. Setup (Unit {0}) × Client × Frames) [
      | raised e ↦ (failed e, c, fs)
      | ok resp ↦ if is_success resp then (ready tt, c, fs) else give_up c fs
    ] in
      (s ≡ verdict ms) × ((c'.connected ≡ is_left_open (verdict ms)) × (c'.sent ≡ c.sent))
after_login [] (ok m) c fs e run = cc
after_login [] (raised x) c fs e run = (ground (arith, e), (run.connected, refl))
after_login (m ∷ ms) (raised x) c fs e run = cc
after_login (m ∷ ms) (ok resp) c fs e run = elim (Bool-cases (is_success resp)) [
  | inl yes' ↦ ground (arith, e, run.connected)
  | inr no' ↦ ground (arith, e, give_up_lem {A = Unit {0}} c fs run.failure)
]

-- With frames that do not end the receive task in the time of its response, `_login` sends the login
-- message once and nothing else, and goes by the oldest login response among them: the test is given
-- the client if that reports success, and is skipped if it does not, and without one TimeoutError is
-- raised. A skipped test leaves the client disconnected, but one that timed out leaves it connected.
pub login_lem :
    (n : ℕ) (fs : Frames)
    → All (λ f. is_harmless f ≡ true) (take n fs)
    → let (s, c, fs') = login n fs in
      let v = verdict (of_type "login_response" (take n fs)) in
      (s ≡ v) × ((c.connected ≡ is_left_open v) × (c.sent ≡ json login_message ∷ []))
unfolding login ask_in connect queue_of
login_lem n fs hs =
    let a =
      request-Asked login_message "login_response" (take n fs) (connect fresh) connected-IsRunning
        connected-IsSound hs in
    let r = request login_message "login_response" (take n fs) (connect fresh) in
    let (ended, (left, out)) =
      after_login (of_type "login_response" (take n fs)) r.0 r.1 (r.2 ++ behind n fs) a.result
        a.running in
    (ended, (left, out ∙ a.sent))
