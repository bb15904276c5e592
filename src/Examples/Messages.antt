-- ===== src/Examples/Messages.antt =====
-- The client's requests on a few messages.
use sas_tests.Prelude.{
  attribute_error, connection_error, ok, raised, ℕ, ◌≡◌, refl, true, false, some, [], ◌∷◌, ◌++◌,
  map,
}
use sas_tests.Client.Closing.{request-closed, recv_loop-closed}
use sas_tests.Client.{closed}
use sas_tests.Client.Waiting.{wait_for}
use sas_tests.Prelude.Int.{pos}
use sas_tests.Json.{Json, Dict, text, num, int, dict, get}
use sas_tests.Events.Wait.{stamped}
use sas_tests.Client.{
  Client, Frames, json, fresh, value, queue_of, route, route_type, is_ignored, recv_loop,
  disconnect,
}
use sas_tests.Client.Routing.{recv_loop_dies, appended, of_type}
use sas_tests.Client.Routed.{responses, pushed, recv_loop_routes}
use sas_tests.Client.Requests.{waiting, oldest, request_lem, burst_lem}
use sas_tests.Client.Waiting.{request, request_any, burst_same_response, pick}
use sas_tests.Client.AnyOf.{request_any_loses}

abbrev answer : ℕ → Dict
answer n = dict (("type", text "answer") ∷ ("number", int n) ∷ [])

abbrev update : Dict
update = dict (("type", text "update") ∷ [])

-- Two responses with an update between them.
abbrev arriving : Frames
arriving =
    (5, value (Json.obj (answer 1)))
    ∷ (6, value (Json.obj update))
    ∷ (7, value (Json.obj (answer 2)))
    ∷ []

abbrev client : Client
client = record fresh {
  connected = true;
  is_open = true;
  receiving = true;
  pending = ("answer", []) ∷ [];
}

-- A client with a message of each of two types waiting.
abbrev served : Client
served = record client { pending = ("answer", answer 1 ∷ []) ∷ ("update", update ∷ []) ∷ [] }

recv_loop_routes_example :
    ((recv_loop arriving client).receiving ≡ true)
    × (queue_of "answer" (recv_loop arriving client).pending
        ≡ appended (queue_of "answer" client.pending) (responses "answer" arriving))
    × ((recv_loop arriving client).log.events
        ≡ client.log.events ++ stamped (pushed client.pending arriving))
unfolding get
recv_loop_routes_example = recv_loop_routes "answer" arriving client refl (refl, (refl, (refl, tt)))

recv_loop_dies_example :
    let c' = recv_loop ((1, value (num (pos 7))) ∷ arriving) client in
    (c'.pending ≡ client.pending)
    × (c'.log ≡ client.log)
    × (disconnect c' ≡ (raised attribute_error, c'))
unfolding route
recv_loop_dies_example = recv_loop_dies 1 (num (pos 7)) attribute_error arriving client refl refl

request_lem_example :
    let r = request update "answer" arriving client in
    (r.0 ≡ oldest (waiting "answer" client ++ of_type "answer" arriving))
    × (r.1.sent ≡ client.sent ++ json update ∷ [])
unfolding route route_type is_ignored get
request_lem_example =
    request_lem update "answer" arriving client refl refl refl (refl, (refl, (refl, tt)))

burst_lem_example :
    let r = burst_same_response (update ∷ update ∷ []) "answer" arriving client in
    (r.0 ≡ ok (answer 1 ∷ answer 2 ∷ []))
    × (r.1.sent ≡ client.sent ++ map json (update ∷ update ∷ []))
unfolding route route_type is_ignored get queue_of
burst_lem_example =
    burst_lem (update ∷ update ∷ []) (answer 1 ∷ answer 2 ∷ []) [] "answer" arriving client refl
      refl refl (refl, (refl, (refl, tt))) refl refl

request_any_loses_example :
    let r = request_any 1 update ("answer" ∷ "update" ∷ []) [] served in
    (r.0 ≡ ok (pick 1 (answer 1) (update ∷ [])))
    × (queue_of "answer" r.1.pending ≡ some [])
    × (queue_of "update" r.1.pending ≡ some [])
unfolding queue_of
request_any_loses_example =
    request_any_loses 1 update (answer 1) update [] [] "answer" "update" [] served refl refl refl
      refl refl

request-closed_example :
    (request update "answer" (arriving ++ (8, closed) ∷ arriving) client).0
    ≡ oldest (waiting "answer" client ++ of_type "answer" arriving)
unfolding route route_type is_ignored get
request-closed_example =
    request-closed update "answer" arriving 8 arriving client refl refl refl
      (refl, (refl, (refl, tt)))

recv_loop-closed_example :
    let c' = recv_loop ((8, closed) ∷ arriving) served in
    (c'.pending ≡ served.pending)
    × ((c'.log ≡ served.log)
        × (((request update "answer" arriving c').0 ≡ raised connection_error)
            × (((wait_for "answer" arriving c').0 ≡ oldest (waiting "answer" served))
                × (((disconnect c').0 ≡ ok tt) × ((disconnect c').1.connected ≡ false)))))
recv_loop-closed_example = recv_loop-closed 8 arriving served refl refl update "answer" arriving
