-- ===== src/Fixtures.antt =====
-- conftest.py and the fixtures of spec128, work_mode and pfop: what a test is given and what is taken
-- down after it. The number beside the frames of a request is how many of them arrive in its time.
pub mod Login
pub mod Pfop
pub mod Fine
pub mod Started
pub mod Restored
pub mod Reports
pub mod Suites
use sas_tests.Prelude.{
  if◌then◌else◌, take, first, Error, Outcome, ok, raised, ℕ, String, Bool, false, Option, none,
  some, [], ◌∷◌, ◌++◌,
}
use sas_tests.Json.{Json, Dict, text, obj, dict, get, truthy}
use sas_tests.Client.{Client, Frames, fresh, connect, disconnect}
use sas_tests.Client.Waiting.{Reply, request}
use sas_tests.Client.Session.{behind}
use sas_tests.Remote.{Host, Backend, World, remote_backend}
use sas_tests.Remote.Isolation.{snapshot, restore}

-- How the setting up of a fixture ends: with what the test is given, by `pytest.skip`, or by an
-- exception.
pub data Setup {ℓ} (A : Type ℓ) : Type ℓ where
  ready : A → Setup A
  skipped : Setup A
  failed : Error → Setup A

-- A request whose response must be among the next frames to be in time.
unfoldable pub ask_in : ℕ → Dict → String → Frames → Client → Reply
unfolding request
ask_in n message t fs c =
    let (r, c', fs') = request message t (take n fs) c in (r, c', fs' ++ behind n fs)

-- `resp.get("success")`, as a test takes it
abbrev pub holds : Option Json → Bool
holds none = false
holds (some v) = truthy v

unfoldable pub is_success : Dict → Bool
unfolding truthy
is_success resp = holds (get "success" resp)

-- `{"type": "login", "data": _ADMIN}`
abbrev pub login_message : Dict
login_message = dict (
    ("type", text "login")
    ∷ ("data", obj (dict (("username", text "admin") ∷ ("password", text "123") ∷ [])))
    ∷ [])

-- `await client.disconnect()`, then `pytest.skip`
unfoldable pub give_up {ℓ} : {A : Type ℓ} → Client → Frames → Setup A × Client × Frames
unfolding disconnect
give_up c fs =
    let (o, c') = disconnect c in
    elim o [ ok u ↦ (skipped, c', fs) | raised e ↦ (failed e, c', fs) ]

-- `_login` of spec128, and the beginning of the fixtures of work_mode and pfop.
unfoldable pub login : ℕ → Frames → Setup (Unit {0}) × Client × Frames
unfolding ask_in is_success give_up connect
login n fs =
    let (r, c, fs') = ask_in n login_message "login_response" fs (connect fresh) in
    elim r [
      | raised e ↦ (failed e, c, fs')
      | ok resp ↦ if is_success resp then (ready tt, c, fs') else give_up c fs'
    ]

-- The `ws` of the root: a test, which leaves the client in some state, between the two ends.
unfoldable pub with_ws : (Client → Client) → Outcome (Unit {0}) × Client
unfolding connect disconnect
with_ws test = disconnect (test (connect fresh))

-- The `ws` of spec128 and work_mode.
unfoldable pub with_login :
    ℕ → Frames → (Client → Frames → Client) → Setup (Outcome (Unit {0})) × Client
unfolding login disconnect
with_login n fs test =
    let (s, c, fs') = login n fs in
    elim s [
      | ready u ↦ (let (o, c') = disconnect (test c fs') in (ready o, c'))
      | skipped ↦ (skipped, c)
      | failed e ↦ (failed e, c)
    ]

-- The setting up of the `ws_pair` of spec128: the second client is there once the first is.
unfoldable pub login_pair : ℕ → Frames → ℕ → Frames → Setup (Unit {0}) × Client × Option Client
unfolding login
login_pair n fs k gs =
    let (s, a, fs') = login n fs in
    elim s [
      | ready u ↦ (let (s', b, gs') = login k gs in (s', a, some b))
      | skipped ↦ (skipped, a, none)
      | failed e ↦ (failed e, a, none)
    ]

-- The end of a `ws_pair`: the second client first; if that raises, the first is not disconnected.
unfoldable pub end_pair : Client → Client → Outcome (Unit {0}) × Client × Client
unfolding disconnect
end_pair a b =
    let (o, b') = disconnect b in
    elim o [ raised e ↦ (raised e, a, b') | ok u ↦ (let (o', a') = disconnect a in (o', a', b')) ]

-- The `ws_pair` of the root, around a test that leaves the two clients in some states.
unfoldable pub with_ws_pair :
    (Client → Client) → (Client → Client) → Outcome (Unit {0}) × Client × Client
unfolding connect end_pair
with_ws_pair first second = end_pair (first (connect fresh)) (second (connect fresh))

-- The `remote` of the root.
unfoldable pub remote : Option String → String → Option String → Option String → Setup Backend
remote none user password key = skipped
remote (some host) user password key = ready (remote_backend host user password key)

-- The `db_isolation` of the root, around a test that leaves the machine in some state.
unfoldable pub with_db_isolation {ℓ} :
    {M : Type ℓ}
    → Host M
    → Backend
    → (World M → World M)
    → World M
    → Setup (Outcome (Unit {0})) × World M
unfolding snapshot restore
with_db_isolation h b test w =
    let (r, taken, w') = snapshot h b false w in
    elim r [
      | raised e ↦ (failed e, w')
      | ok u ↦ (let (o, w'') = restore h b taken (test w') in (ready o, w''))
    ]
