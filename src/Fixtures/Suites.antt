-- ===== src/Fixtures/Suites.antt =====
-- The logged-in clients of the suites, each written out in its own conftest.py: a login with the same
-- account, the test, and the end of the client.
use sas_tests.Prelude.{Outcome, ℕ}
use sas_tests.Client.{Client, Frames}
use sas_tests.Fixtures.{Setup, with_login}

-- A fixture around a test: how many of the frames arrive in the time of the login, the frames, and
-- what the test leaves of the client.
abbrev pub LoggedIn : Type 0
LoggedIn = ℕ → Frames → (Client → Frames → Client) → Setup (Outcome (Unit {0})) × Client

-- `ws` of smoke/conftest.py
unfoldable pub smoke_ws : LoggedIn
unfolding with_login
smoke_ws n fs test = with_login n fs test

-- `ws` of work_mode/conftest.py
unfoldable pub work_mode_ws : LoggedIn
unfolding with_login
work_mode_ws n fs test = with_login n fs test

-- `ws_auth` of network/conftest.py
unfoldable pub network_ws_auth : LoggedIn
unfolding with_login
network_ws_auth n fs test = with_login n fs test

-- `ws_auth` of system/conftest.py
unfoldable pub system_ws_auth : LoggedIn
unfolding with_login
system_ws_auth n fs test = with_login n fs test
