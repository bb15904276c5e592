-- ===== src/Examples/Payloads.antt =====
-- Payloads of the factories.
use sas_tests.Prelude.{length, ℕ, ◌+◌, ◌*◌, ◌≡◌, true}
use sas_tests.Json.{to_list}
use sas_tests.Factory.Screw.{with_steps}
use sas_tests.Factory.Random
use sas_tests.Factory.Windows.{detail, steps, windows_in_order, random_in_order}
use sas_tests.Factory.Steps.{nearest, IsCounted, with_steps-IsCounted, random-IsCounted}

-- A source of draws.
abbrev source : ℕ → ℕ
source n = n * 7 + 3

random_in_order_example : windows_in_order (detail (Random.random 5 source 0).0) ≡ true
random_in_order_example = random_in_order 5 source 0

with_steps-IsCounted_example :
    IsCounted (with_steps 5 12) × (length (to_list (steps (with_steps 5 12))) ≡ nearest 12)
with_steps-IsCounted_example = with_steps-IsCounted 5 12

random-IsCounted_example : IsCounted (Random.random 5 source 0).0
random-IsCounted_example = random-IsCounted 5 source 0
