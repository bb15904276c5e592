-- ===== src/Examples/Setups.antt =====
-- The fixtures, and the monitor of a curve.
use sas_tests.Prelude.{
  length, take, replicate, ok, String, ◌≡◌, refl, true, false, none, List, [], ◌∷◌, ◌++◌, map,
  arith,
}
use sas_tests.Json.{Json, text, bool, int, dict, get}
use sas_tests.Client.{Frames, json, route, value}
use sas_tests.Client.Routing.{of_type}
use sas_tests.Fixtures.{login, login_message}
use sas_tests.Fixtures.Login.{verdict, is_left_open, login_lem}
use sas_tests.Fixtures.Pfop.{Times}
use sas_tests.Fixtures.Restored.{Restored}
use sas_tests.Curve.Runs.{total}
use sas_tests.Curve.Live.{
  Bytes, Round, bytes, nothing, start, run_ws, points, u16, u32, is_frame, is_indexed, offset,
  Counters,
}
use sas_tests.Curve.Live.Frames.{heard, backward, gaps_from}
use sas_tests.Curve.Live.Counted.{messages, times, run_ws_lem}

abbrev answer_of : String → List (String × Json) → Json
answer_of t kvs = Json.obj (dict (("type", text t) ∷ ("success", bool true) ∷ kvs))

-- A controller with the protocol off.
abbrev settings : Json
settings = Json.obj (dict (("portNumber", int 4545) ∷ ("enableProtocol", bool false) ∷ []))

abbrev answers_in : Frames
answers_in =
    (1, value (answer_of "login_response" []))
    ∷ (2, value (answer_of "pfop_config_query_response" (("data", settings) ∷ [])))
    ∷ (3, value (answer_of "pfop_config_set_response" []))
    ∷ (4, value (answer_of "pfop_config_query_response" (("data", settings) ∷ [])))
    ∷ []

abbrev one_each : Times
one_each = record {
  login = 1;
  query = 1;
  enable = 1;
  pause = 0;
  again = 1;
  during = 0;
  restore = 0;
}

login_lem_example :
    let (s, c, fs') = login 1 answers_in in
    let v = verdict (of_type "login_response" (take 1 answers_in)) in
    (s ≡ v) × ((c.connected ≡ is_left_open v) × (c.sent ≡ json login_message ∷ []))
unfolding get route
login_lem_example = login_lem 1 answers_in (refl, tt)

-- A frame of two points, numbered 7 and 8.
abbrev frame_of_two : Bytes
frame_of_two =
    (68 ∷ 67 ∷ 85 ∷ 49 ∷ 0 ∷ 0 ∷ 4 ∷ replicate 13 0)
    ++ (2 ∷ replicate 35 0)
    ++ (7 ∷ 0 ∷ 0 ∷ 0 ∷ 8 ∷ 0 ∷ 0 ∷ 0 ∷ [])

abbrev rounds : List Round
rounds =
    record { before = 10; received = bytes frame_of_two; now = 20 }
    ∷ record { before = 20; received = nothing; now = 30 }
    ∷ record { before = 30; received = bytes frame_of_two; now = 45 }
    ∷ []

run_ws_lem_example :
    let hs = heard 100 rounds in
    (c : Counters) × ((run_ws 100 rounds start ≡ ok c)
      × ((c.frames ≡ length hs)
          × ((c.pts ≡ total (map points (messages hs)))
              × ((c.jumps ≡ backward none (messages hs)) × (c.gaps ≡ gaps_from none (times hs))))))
unfolding heard is_frame is_indexed points offset u16 u32
run_ws_lem_example =
    run_ws_lem 100 rounds ((refl, omega arith), ((refl, omega arith), ((refl, omega arith), tt)))
      (refl, (refl, tt))
