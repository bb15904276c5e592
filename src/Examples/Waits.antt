-- ===== src/Examples/Waits.antt =====
-- The waits on an event log.
use sas_tests.Prelude.{
  leb, Outcome, ok, ℕ, ◌+◌, ◌≡◌, refl, Bool, true, false, Option, none, some, [], ◌∷◌, ◌++◌, arith,
}
use sas_tests.Cursor.Mode.{Keywords, switch_and_wait}
use sas_tests.Cursor.Mode.Confirmed.{Shown, switch_and_wait-Shown}
use sas_tests.Client.Methods.{set_work_mode}
use sas_tests.Json.{bool, obj}
use sas_tests.Cursor.Mode.{wait_work_mode_after}
use sas_tests.Cursor.Mode.Told.{Returns, wait_work_mode_after-Returns}
use sas_tests.Json.{Json, Dict, text, int, dict, get, put}
use sas_tests.Events.{
  Log, Wake, fresh, push, push_all, stamp, matches, has_type, is_text, wait_for_event,
}
use sas_tests.Events.Wait.{Answers, wait_for_event_finds, wait_for_event-Answers}
use sas_tests.Client.{Client, Frames, value}
use sas_tests.Client
use sas_tests.Remote.Starting.{Ended, wait_until_ready, wait_until_ready-Ended}

abbrev update : ℕ → Dict
update n = dict (("type", text "update") ∷ ("number", int n) ∷ [])

abbrev woken : Wake
woken = record { arrived = (20, update 1) ∷ []; now = 21 }

wait_for_event_finds_example :
    (wait_for_event "update" none 100 5 ([] ++ woken ∷ []) fresh).0 ≡ ok (stamp 20 (update 1))
unfolding push_all push matches has_type is_text get put
wait_for_event_finds_example =
    wait_for_event_finds "update" none 100 5 [] woken [] fresh (stamp 20 (update 1)) (omega arith)
      tt (omega arith) refl

wait_for_event-Answers_example :
    Answers "update" none (wait_for_event "update" none 100 5 (woken ∷ []) fresh)
wait_for_event-Answers_example = wait_for_event-Answers "update" none 100 5 (woken ∷ []) fresh

-- A log of one update.
abbrev noted : Log
noted = record { events = stamp 20 (update 1) ∷ []; signalled = true }

-- An update comes in each sleep.
abbrev each_sleep : ℕ → Frames
each_sleep now = (now, value (Json.obj (update now))) ∷ []

abbrev on_time : ℕ → ℕ
on_time now = 0

abbrev client : Client
client = record Client.fresh { connected = true; is_open = true; receiving = true }

-- A backend that opens from 2500 ms on.
abbrev opens : ℕ → Bool
opens now = leb 2500 now

wait_until_ready-Ended_example :
    Ended opens on_time on_time (0 + 30000) 0 (wait_until_ready opens on_time on_time 31 30000 0)
wait_until_ready-Ended_example =
    wait_until_ready-Ended opens on_time on_time 31 30000 0 (omega arith)

wait_work_mode_after-Returns_example :
    Returns 0 "screw" on_time on_time each_sleep client.log.events 300 [] 0 client
      (wait_work_mode_after on_time on_time each_sleep 0 "screw" 301 300 0 client)
wait_work_mode_after-Returns_example =
    wait_work_mode_after-Returns 0 "screw" on_time on_time each_sleep 301 300 0 client (omega arith)

-- A backend that confirms a switch and then reports the new mode.
abbrev confirmed : Frames
confirmed =
    (
      1,
      value (
          obj (
            dict (
              ("type", text "system_params_batch_update_response") ∷ ("success", bool true) ∷ []))),
    )
    ∷ []

abbrev reports : ℕ → Frames
reports now =
    (
      now + 1,
      value (
          obj (
            dict (
              ("type", text "hardware_status_update")
              ∷ (
                "data",
                obj (
                    dict (("job_statistics", obj (dict (("work_mode", text "module") ∷ []))) ∷ [])),
              )
              ∷ []))),
    )
    ∷ []

abbrev defaults : Keywords
defaults = record {
  default_screw_id = 1;
  default_module_id = 1;
  barcode_enabled = false;
  automation_mode = false;
  modify_user = "test";
}

abbrev left_by : Option (Outcome Json × Client) → Client
left_by none = client
left_by (some (r, c)) = c

switch_and_wait-Shown_example :
    let c' = left_by (
      switch_and_wait on_time on_time reports "module" defaults "module" 301 300 confirmed
        client) in
    let r = set_work_mode "module" 1 1 false false "test" confirmed client in
    (resp : Dict) × (r.0 ≡ ok resp)
    × (get "success" resp ≡ some (bool true))
    × Shown 0 "module" r.1.log.events c'.log.events
unfolding switch_and_wait Client.dequeue Client.ensure Client.deliver Client.queue_of Client.enqueue
    Client.recv_loop push has_type put
switch_and_wait-Shown_example =
    switch_and_wait-Shown on_time on_time reports "module" defaults "module" 301 300 confirmed
      client _ (omega arith) refl refl
