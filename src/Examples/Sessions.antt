-- ===== src/Examples/Sessions.antt =====
-- A test's calls of the client.
use sas_tests.Prelude.{ℕ, ◌≡◌, refl, some, List, [], ◌∷◌, ◌++◌}
use sas_tests.Json.{Json, Dict, text, int, dict, get}
use sas_tests.Client.{Client, Frames, route, value, fresh, connect, deliver, queue_of}
use sas_tests.Client.Routing.{of_type}
use sas_tests.Client.Session.{Call, asks, waits, idles, session}
use sas_tests.Client.Session.Conserved.{received, session_lem}
use sas_tests.Client.Mailbox.{answer_all}
use sas_tests.Client.Mailbox.Agreement.{Agrees, mailbox_of}
use sas_tests.Client.Mailbox.Refined.{session_refines}
use sas_tests.Client.Reach.{new, next, connects, receives}
use sas_tests.Client.Reach.Sound.{IsSound, Fits}
use sas_tests.Client.Reach.Types.{FitsAll, answers_lem}
use sas_tests.Client.Waiting.{request, wait_for, burst_same_response}
use sas_tests.Client.Reach.Calls.{Reachable-IsSound}

abbrev reading : ℕ → Dict
reading n = dict (("type", text "reading") ∷ ("number", int n) ∷ [])

abbrev incoming : Frames
incoming = (5, value (Json.obj (reading 1))) ∷ (9, value (Json.obj (reading 2))) ∷ []

-- A queue of readings that still holds one.
abbrev listening_client : Client
listening_client = record (connect fresh) { pending = ("reading", reading 0 ∷ []) ∷ [] }

abbrev script : List Call
script = waits "reading" 1 ∷ idles 1 ∷ asks (reading 7) "reading" 0 ∷ []

session_lem_example :
    let (answers, c', fs') = session script incoming listening_client in
    (q' : List Dict) × ((queue_of "reading" c'.pending ≡ some q')
      × (received "reading" answers ++ (q' ++ of_type "reading" fs')
          ≡ reading 0 ∷ [] ++ of_type "reading" incoming))
unfolding connect get queue_of route
session_lem_example =
    session_lem "reading" script incoming listening_client (reading 0 ∷ []) refl (refl, (refl, tt))
      refl

session_refines_example :
    let (answers, c', fs') = session script incoming listening_client in
    let (answers', m, gs) = answer_all script incoming (mailbox_of listening_client) in
    (answers ≡ answers') × ((fs' ≡ gs) × Agrees c' m)
session_refines_example = session_refines script incoming listening_client

Reachable-IsSound_example : IsSound (deliver (5, value (Json.obj (reading 1))) (connect fresh))
Reachable-IsSound_example =
    Reachable-IsSound (
      next (next new (connects fresh)) (receives (5, value (Json.obj (reading 1))) (connect fresh)))

answers_lem_example :
    let c = deliver (5, value (Json.obj (reading 1))) (connect fresh) in
    Fits "reading" (request (reading 7) "reading" incoming c).0
    × (Fits "reading" (wait_for "reading" incoming c).0
        × FitsAll "reading"
            (burst_same_response (reading 7 ∷ reading 8 ∷ []) "reading" incoming c).0)
answers_lem_example =
    answers_lem
      (next (next new (connects fresh))
        (receives (5, value (Json.obj (reading 1))) (connect fresh)))
      "reading" (reading 7) (reading 7 ∷ reading 8 ∷ []) incoming
