-- ===== src/Fixtures/Restored.antt =====
-- How `pfop_env` leaves the controller and its client.
use sas_tests.Prelude.{if◌then◌else◌, Outcome, ok, ◌≡◌, Bool, true, false, List, [], ◌∷◌, ◌++◌}
use sas_tests.Json.{Dict}
use sas_tests.Client.{Client, Sent, json}
use sas_tests.Fixtures.{Setup, ready, skipped, failed}
use sas_tests.Fixtures.Pfop.{dict_of, Env, set_message, Started}
use sas_tests.Fixtures.Started.{switched, is_protocol_on}

-- All that the client has sent when `pfop_env` has ended.
abbrev pub traffic : Bool → Dict → List Sent
traffic false d = switched false d
traffic true d = switched true d ++ json (set_message d) ∷ []

-- How `pfop_env` ends, by how its set-up ended.
abbrev pub Restored : Setup Env → Setup (Outcome (Unit {0})) × Client → Type 0
Restored (ready env) (o, c) =
    (o ≡ ready (ok tt))
    × ((c.connected ≡ false)
        × ((d : Dict) × ((dict_of env.original ≡ ok d)
              × ((env.changed ≡ (if is_protocol_on d then false else true))
                  × (c.sent ≡ traffic env.changed d)))))
Restored skipped (o, c) = (o ≡ skipped) × (c.connected ≡ false)
Restored (failed e) (o, c) = (o ≡ failed e) × (c.connected ≡ true)
