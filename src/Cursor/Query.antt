-- ===== src/Cursor/Query.antt =====
-- machine_type/test_spec_compliance_highlight_plan.py: the question for the compliance map.
use sas_tests.Prelude.{◌>>=◌, Outcome, ok, raised, ℕ, Bool, Option, none, some, List, [], ◌∷◌}
use sas_tests.Prelude.Int.{ℤ}
use sas_tests.Json.{Dict, text, dict}
use sas_tests.Client.{Client, Frames, json}
use sas_tests.Client.Waiting.{send}
use sas_tests.Params.{extract_compliance_map}
use sas_tests.Cursor.{wait_compliance_event}

-- What the wait found, read.
abbrev pub read_map : Option (Outcome Dict × Client) → Option (Outcome (List (ℤ × Bool)) × Client)
read_map none = none
read_map (some (r, c)) = some (r >>= (λ msg. ok (extract_compliance_map msg)), c)

-- `_query_compliance_map`. `none` stands for a run that the fuel cut short.
unfoldable pub query_compliance_map :
    (ℕ → ℕ) → (ℕ → Frames) → ℕ → ℕ → Client → Option (Outcome (List (ℤ × Bool)) × Client)
unfolding send wait_compliance_event extract_compliance_map
query_compliance_map late arrive fuel timeout c =
    elim (send (json (dict (("type", text "spec_compliance_query") ∷ []))) c) [
      | raised e ↦ some (raised e, c)
      | ok c' ↦ read_map (wait_compliance_event late arrive c.now fuel timeout c'.now c')
    ]
