-- ===== src/Fixtures/Started.antt =====
-- How the set-up of `pfop_env` ends.
use sas_tests.Prelude.{
  if◌then◌else◌, take, Outcome, key_error, ok, raised, ℕ, String, ◌≡◌, refl, Bool, true, false,
  Option, none, some, List, [], ◌∷◌,
}
use sas_tests.Json.{Json, Dict, get, contains, get_or, bool, truthy}
use sas_tests.Prelude.Int.{ℤ}
use sas_tests.Client.{Client, Frames, Sent, json, fresh, connect, recv_loop}
use sas_tests.Client.Session.{behind}
use sas_tests.Client.Session.Windows.{Harmless}
use sas_tests.Fixtures.{
  Setup, ready, skipped, failed, ask_in, is_success, login_message, give_up, login,
}
use sas_tests.Fixtures.Login.{connected-IsRunning, connected-IsSound, give_up_on}
use sas_tests.Fixtures.Fine.{IsFine, ask_in-IsFine, idle-IsFine}
use sas_tests.Fixtures.Pfop.{
  dict_of, int_of_json, Times, query_message, set_message, enabled, Started, data_of, finish,
  latest_data, query_again, enable, with_data, query, set_up,
}

-- What the set-up sends, by whether it had to switch the protocol on, and the data that it found.
abbrev pub switched : Bool → Dict → List Sent
switched false d = json login_message ∷ json query_message ∷ []
switched true d =
    json login_message
    ∷ json query_message
    ∷ json (set_message (enabled d))
    ∷ json query_message
    ∷ []

-- Whether the data that were found say that the protocol is on.
abbrev pub is_protocol_on : Dict → Bool
is_protocol_on d = truthy (get_or "enableProtocol" (bool false) d)

-- How the set-up ends.
abbrev pub Changed : Bool → Dict → Type 0
Changed changed d = changed ≡ (if is_protocol_on d then false else true)

abbrev pub Ended : Started → Type 0
Ended (ready env, c, fs) =
    (d : Dict) × ((dict_of env.original ≡ ok d)
      × (Changed env.changed d × IsFine (switched env.changed d) c fs))
Ended (skipped, c, fs) = c.connected ≡ false
Ended (failed e, c, fs) = c.connected ≡ true

given_up : {out : List Sent} (c : Client) (fs : Frames) → IsFine out c fs → Ended (give_up c fs)
given_up c fs fine = rw (give_up_on c fs fine.running.failure) refl

finish_lem :
    (host : String) (original fields d : Dict) (changed : Bool) (c : Client) (fs : Frames)
    → dict_of (data_of original) ≡ ok d
    → Changed changed d
    → IsFine (switched changed d) c fs
    → Ended (finish host original fields changed c fs)
unfolding finish
finish_lem host original fields d changed c fs e due fine = by_port (get "portNumber" fields)
  where
    by_number :
        (o : Outcome ℤ)
        → Ended (elim o as (λ o. Started) [
          | raised e ↦ (failed e, c, fs)
          | ok port ↦ (
            ready (record {
              host = host;
              port = port;
              original = data_of original;
              changed = changed;
            }),
            c,
            fs,
          )
        ])
    by_number (raised x) = fine.running.connected
    by_number (ok port) = (d, (e, (due, fine)))

    by_port :
        (o : Option Json)
        → Ended (elim o as (λ o. Started) [
          | none ↦ (failed key_error, c, fs)
          | some v ↦ elim (int_of_json v) as (λ o. Started) [
            | raised e ↦ (failed e, c, fs)
            | ok port ↦ (
              ready (record {
                host = host;
                port = port;
                original = data_of original;
                changed = changed;
              }),
              c,
              fs,
            )
          ]
        ])
    by_port none = fine.running.connected
    by_port (some v) = by_number (int_of_json v)

-- After a request: an exception ends the set-up there, with the client connected.
asked_first :
    {out : List Sent} (r : Outcome Dict) (c : Client) (fs : Frames) (go : Dict → Started)
    → IsFine out c fs
    → ((resp : Dict) → r ≡ ok resp → Ended (go resp))
    → Ended (elim r as (λ r. Started) [ raised e ↦ (failed e, c, fs) | ok resp ↦ go resp ])
asked_first (raised e) c fs go fine h = fine.running.connected
asked_first (ok resp) c fs go fine h = h resp refl

-- A test of an answer: where it fails, the tests are skipped.
tested :
    {out : List Sent} (b : Bool) (c : Client) (fs : Frames) (s : Started)
    → IsFine out c fs
    → Ended s
    → Ended (if b then s else give_up c fs)
tested true c fs s fine h = h
tested false c fs s fine h = given_up c fs fine

query_again_lem :
    (host : String) (times : Times) (original fields d : Dict) (c : Client) (fs : Frames)
    → dict_of (data_of original) ≡ ok d
    → Changed true d
    → IsFine (json login_message ∷ json query_message ∷ json (set_message (enabled d)) ∷ []) c fs
    → Ended (query_again host times original fields c fs)
unfolding query_again
query_again_lem host times original fields d c fs e due fine =
    let r =
      ask_in times.again query_message "pfop_config_query_response" (behind times.pause fs)
        (recv_loop (take times.pause fs) c) in
    let fine' =
      ask_in-IsFine times.again query_message "pfop_config_query_response" (behind times.pause fs)
        (recv_loop (take times.pause fs) c) (idle-IsFine times.pause fs c fine) in
    asked_first r.0 r.1 r.2 _ fine' (λ latest same.
      asked_first (latest_data fields latest) r.1 r.2 _ fine'
        (λ fields' same'. finish_lem host original fields' d true r.1 r.2 e due fine'))

enable_lem :
    (host : String) (times : Times) (original d : Dict) (c : Client) (fs : Frames)
    → dict_of (data_of original) ≡ ok d
    → Changed true d
    → IsFine (json login_message ∷ json query_message ∷ []) c fs
    → Ended (enable host times original d c fs)
unfolding enable
enable_lem host times original d c fs e due fine =
    let message = set_message (enabled d) in
    let r = ask_in times.enable message "pfop_config_set_response" fs c in
    let fine' = ask_in-IsFine times.enable message "pfop_config_set_response" fs c fine in
    asked_first r.0 r.1 r.2 _ fine' (λ resp same.
      tested (is_success resp) r.1 r.2 _ fine'
        (query_again_lem host times original d d r.1 r.2 e due fine'))

with_data_lem :
    (host : String) (times : Times) (original : Dict) (o : Outcome Dict) (c : Client) (fs : Frames)
    → dict_of (data_of original) ≡ o
    → IsFine (json login_message ∷ json query_message ∷ []) c fs
    → Ended (with_data host times original o c fs)
unfolding with_data
with_data_lem host times original (raised e) c fs same fine = fine.running.connected
with_data_lem host times original (ok d) c fs same fine =
    tested (contains "portNumber" d) c fs _ fine (by_flag (is_protocol_on d) refl)
  where
    by_flag :
        (b : Bool)
        → is_protocol_on d ≡ b
        → Ended (if b then finish host original d false c fs else enable host times original d c fs)
    by_flag true on = finish_lem host original d d false c fs same (rw on refl) fine
    by_flag false off = enable_lem host times original d c fs same (rw off refl) fine

query_lem :
    (host : String) (times : Times) (c : Client) (fs : Frames)
    → IsFine (json login_message ∷ []) c fs
    → Ended (query host times c fs)
unfolding query
query_lem host times c fs fine =
    let r = ask_in times.query query_message "pfop_config_query_response" fs c in
    let fine' = ask_in-IsFine times.query query_message "pfop_config_query_response" fs c fine in
    asked_first r.0 r.1 r.2 _ fine' (λ original same.
      tested (is_success original) r.1 r.2 _ fine'
        (with_data_lem host times original (dict_of (data_of original)) r.1 r.2 refl fine'))

connected-IsFine : (fs : Frames) → Harmless fs → IsFine [] (connect fresh) fs
unfolding connect
connected-IsFine fs hs = record {
  sent = refl;
  running = connected-IsRunning;
  sound = connected-IsSound;
  harmless = hs;
}

abbrev LoggedIn : Setup (Unit {0}) × Client × Frames → Type 0
LoggedIn (ready u, c, fs) = IsFine (json login_message ∷ []) c fs
LoggedIn (skipped, c, fs) = c.connected ≡ false
LoggedIn (failed e, c, fs) = c.connected ≡ true

login-LoggedIn : (n : ℕ) (fs : Frames) → Harmless fs → LoggedIn (login n fs)
unfolding login
login-LoggedIn n fs hs =
    let r = ask_in n login_message "login_response" fs (connect fresh) in
    by_result r.0 r.1 r.2
      (ask_in-IsFine n login_message "login_response" fs (connect fresh) (connected-IsFine fs hs))
  where
    by_test :
        (b : Bool) (c : Client) (gs : Frames)
        → IsFine (json login_message ∷ []) c gs
        → LoggedIn (if b then (ready tt, c, gs) else give_up c gs)
    by_test true c gs fine = fine
    by_test false c gs fine = rw (give_up_on {A = Unit {0}} c gs fine.running.failure) refl

    by_result :
        (o : Outcome Dict) (c : Client) (gs : Frames)
        → IsFine (json login_message ∷ []) c gs
        → LoggedIn (elim o as (λ o. Setup (Unit {0}) × Client × Frames) [
          | raised e ↦ (failed e, c, gs)
          | ok resp ↦ if is_success resp then (ready tt, c, gs) else give_up c gs
        ])
    by_result (raised e) c gs fine = fine.running.connected
    by_result (ok resp) c gs fine = by_test (is_success resp) c gs fine

pub set_up_lem :
    (host : String) (times : Times) (fs : Frames) → Harmless fs → Ended (set_up host times fs)
unfolding set_up
set_up_lem host times fs hs = by_login (login times.login fs) (login-LoggedIn times.login fs hs)
  where
    by_login :
        (l : Setup (Unit {0}) × Client × Frames)
        → LoggedIn l
        → Ended (elim l.0 as (λ s. Started) [
          | ready u ↦ query host times l.1 l.2
          | skipped ↦ (skipped, l.1, l.2)
          | failed e ↦ (failed e, l.1, l.2)
        ])
    by_login (ready u, c, gs) h = query_lem host times c gs h
    by_login (skipped, c, gs) h = h
    by_login (failed e, c, gs) h = h
