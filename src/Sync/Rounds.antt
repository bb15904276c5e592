-- ===== src/Sync/Rounds.antt =====
-- _verify_workmode_sync.py: `main`, which switches to and fro for a number of rounds.
pub mod Passed
use sas_tests.Prelude.{
  ◌==◌, if◌then◌else◌, ◌>>=◌, Outcome, ok, raised, ℕ, zero, suc, ◌+◌, String, Option, none, some,
  List, [], ◌∷◌,
}
use sas_tests.Json.{Json, Dict, text, obj, dict}
use sas_tests.Client.{Frame, Sent, json}
use sas_tests.Sync.{recv_until, get_of, equals, succeeded, check_mode}

abbrev pub login_message : Dict
login_message = dict (
    ("type", text "login")
    ∷ ("data", obj (dict (("username", text "admin") ∷ ("password", text "123") ∷ [])))
    ∷ [])

unfoldable pub read_login : Json → Outcome (Option Json)
unfolding get_of equals
read_login m = get_of "type" m >>= λ t. ok (if equals "login_response" t then some m else none)

-- `failures`, with what was sent and what is still to come.
abbrev pub Tally : Type 0
Tally = Outcome ℕ × List Sent × List Frame

-- `if not await check_mode(ws, mode): failures += 1`
unfoldable pub try_mode : String → ℕ → List Sent → List Frame → Tally
unfolding check_mode
try_mode mode failures sent fs =
    let (r, sent', fs') = check_mode mode sent fs in
    (r >>= (λ fine. ok (if fine then failures else failures + 1)), sent', fs')

unfoldable pub try_modes : List String → ℕ → List Sent → List Frame → Tally
unfolding try_mode
try_modes [] failures sent fs = (ok failures, sent, fs)
try_modes (mode ∷ modes) failures sent fs =
    let (r, sent', fs') = try_mode mode failures sent fs in
    elim r [
      | raised e ↦ (raised e, sent', fs')
      | ok failures' ↦ try_modes modes failures' sent' fs'
    ]

-- `for i in range(1, rounds + 1): for mode in ("module", "screw"):`
unfoldable pub run_rounds : ℕ → ℕ → List Sent → List Frame → Tally
unfolding try_modes
run_rounds zero failures sent fs = (ok failures, sent, fs)
run_rounds (suc n) failures sent fs =
    let (r, sent', fs') = try_modes ("module" ∷ "screw" ∷ []) failures sent fs in
    elim r [ raised e ↦ (raised e, sent', fs') | ok failures' ↦ run_rounds n failures' sent' fs' ]

-- The status that the process ends with, where no exception ends it.
abbrev pub status : Outcome ℕ → Outcome ℕ
status r = r >>= λ failures. ok (if failures == 0 then 0 else 1)

-- `main`
unfoldable pub main : ℕ → List Frame → Tally
unfolding recv_until read_login succeeded run_rounds
main rounds fs =
    let sent = json login_message ∷ [] in
    let (r, fs') = recv_until read_login fs in
    elim (r >>= succeeded) [
      | raised e ↦ (raised e, sent, fs')
      | ok fine ↦
          if fine
          then (let (r', sent', fs'') = run_rounds rounds 0 sent fs' in (status r', sent', fs''))
          else (ok 1, sent, fs')
    ]
