-- ===== src/Fixtures/Pfop.antt =====
-- pfop/conftest.py: the fixtures that switch the PFOP protocol on for the tests, and back. A number
-- for each request is how many of the frames to come arrive in its time, and one for each pause how
-- many arrive in it.
use sas_tests.Prelude.{
  if◌then◌else◌, take, Error, Outcome, timeout_error, value_error, type_error, key_error,
  connection_error, file_not_found, ok, raised, ℕ, ◌+◌, ◌/◌, String, Bool, true, false, Option,
  none, some, [], ◌∷◌, str_eq,
}
use sas_tests.Json.{
  Json, Dict, null, bool, num, text, arr, obj, nil, cons, end, dict, get, get_or, put, update,
  contains, truthy,
}
use sas_tests.Prelude.Int.{ℤ, pos, negsuc}
use sas_tests.Prelude.Text.{codes}
use sas_tests.Pfop.Decimal.{int_of, negated}
use sas_tests.Pfop.Link.{Socket, PfopClient}
use sas_tests.Pfop.Link
use sas_tests.Client.{Client, Frames, disconnect, recv_loop}
use sas_tests.Client.Session.{behind}
use sas_tests.Fixtures.{Setup, ready, skipped, failed, ask_in, is_success, give_up, login}

-- `_host_from_ws_url`, where `hostname` stands for `urlparse(ws_url).hostname`.
unfoldable pub host_from_ws_url : (String → Option String) → String → String
host_from_ws_url hostname ws_url = elim (hostname ws_url) [
  | none ↦ "127.0.0.1"
  | some host ↦ if str_eq host "" then "127.0.0.1" else host
]

-- `dict(v)` of what `json.loads` can give; the backend sends no list of pairs, which would be a
-- `dict` too.
abbrev pub dict_of : Json → Outcome Dict
dict_of null = raised type_error
dict_of (bool b) = raised type_error
dict_of (num n) = raised type_error
dict_of (text s) = if str_eq s "" then ok end else raised value_error
dict_of (arr nil) = ok end
dict_of (arr (cons x xs)) = raised value_error
dict_of (obj d) = ok d

-- `int(v)`: a number is cut towards zero, a text is read.
unfoldable pub int_of_json : Json → Outcome ℤ
unfolding int_of
int_of_json null = raised type_error
int_of_json (bool b) = ok (if b then pos 1 else pos 0)
int_of_json (num (pos m)) = ok (pos (m / 1000))
int_of_json (num (negsuc m)) = ok (negated ((m + 1) / 1000))
int_of_json (text s) = int_of (codes s)
int_of_json (arr xs) = raised type_error
int_of_json (obj d) = raised type_error

pub record Times : Type 0 where
  pub login : ℕ
  pub query : ℕ
  pub enable : ℕ
  pub pause : ℕ
  pub again : ℕ
  pub during : ℕ
  pub restore : ℕ

-- The `env` that is yielded, less the URL.
pub record Env : Type 0 where
  pub host : String
  pub port : ℤ
  pub original : Json
  pub changed : Bool

abbrev pub query_message : Dict
query_message = dict (("type", text "pfop_config_query") ∷ [])

-- `{"type": "pfop_config_set", **payload}`
unfoldable pub set_message : Dict → Dict
unfolding update
set_message payload = update (dict (("type", text "pfop_config_set") ∷ [])) payload

-- `enable_payload`
unfoldable pub enabled : Dict → Dict
unfolding put
enabled fields = put "enableProtocol" (bool true) fields

abbrev pub Started : Type 0
Started = Setup Env × Client × Frames

-- `resp.get("data", {})`
unfoldable pub data_of : Dict → Json
unfolding get_or
data_of resp = get_or "data" (obj end) resp

-- The dictionary that is yielded; `data["portNumber"]` can be missing from the second answer.
unfoldable pub finish : String → Dict → Dict → Bool → Client → Frames → Started
unfolding int_of_json data_of get
finish host original fields changed c fs = elim (get "portNumber" fields) [
  | none ↦ (failed key_error, c, fs)
  | some v ↦ elim (int_of_json v) [
    | raised e ↦ (failed e, c, fs)
    | ok port ↦ (
      ready (record { host = host; port = port; original = data_of original; changed = changed }),
      c,
      fs,
    )
  ]
]

-- `data`, once the second query is answered.
unfoldable pub latest_data : Dict → Dict → Outcome Dict
unfolding is_success get_or
latest_data fields latest =
    if is_success latest then dict_of (get_or "data" (obj fields) latest) else ok fields

-- The pause after the protocol was switched on, and the second query.
unfoldable pub query_again : String → Times → Dict → Dict → Client → Frames → Started
unfolding ask_in latest_data finish recv_loop
query_again host times original fields c fs =
    let (r, c', fs') =
      ask_in times.again query_message "pfop_config_query_response" (behind times.pause fs)
        (recv_loop (take times.pause fs) c) in
    elim r [
      | raised e ↦ (failed e, c', fs')
      | ok latest ↦ elim (latest_data fields latest) [
        | raised e ↦ (failed e, c', fs')
        | ok d ↦ finish host original d true c' fs'
      ]
    ]

-- The protocol is off: `pfop_config_set` with the same data, but for the flag.
unfoldable pub enable : String → Times → Dict → Dict → Client → Frames → Started
unfolding ask_in set_message enabled is_success query_again give_up
enable host times original fields c fs =
    let (r, c', fs') =
      ask_in times.enable (set_message (enabled fields)) "pfop_config_set_response" fs c in
    elim r [
      | raised e ↦ (failed e, c', fs')
      | ok resp ↦
          if is_success resp then query_again host times original fields c' fs' else give_up c' fs'
    ]

-- From `data = dict(original.get("data", {}))` on.
unfoldable pub with_data : String → Times → Dict → Outcome Dict → Client → Frames → Started
unfolding contains truthy get_or enable finish give_up
with_data host times original (raised e) c fs = (failed e, c, fs)
with_data host times original (ok fields) c fs =
    if contains "portNumber" fields
    then if truthy (get_or "enableProtocol" (bool false) fields)
      then finish host original fields false c fs
      else enable host times original fields c fs
    else give_up c fs

-- The first query.
unfoldable pub query : String → Times → Client → Frames → Started
unfolding ask_in is_success data_of with_data give_up
query host times c fs =
    let (r, c', fs') = ask_in times.query query_message "pfop_config_query_response" fs c in
    elim r [
      | raised e ↦ (failed e, c', fs')
      | ok original ↦
          if is_success original
          then with_data host times original (dict_of (data_of original)) c' fs'
          else give_up c' fs'
    ]

-- `pfop_env` up to its `yield`.
unfoldable pub set_up : String → Times → Frames → Started
unfolding login query
set_up host times fs =
    let (s, c, fs') = login times.login fs in
    elim s [
      | ready u ↦ query host times c fs'
      | skipped ↦ (skipped, c, fs')
      | failed e ↦ (failed e, c, fs')
    ]

-- `pfop_env` after its `yield`: whatever the last request raises is dropped, but `dict` is called
-- before the `try`.
unfoldable pub tear_down : ℕ → Env → Client → Frames → Outcome (Unit {0}) × Client
unfolding ask_in set_message disconnect
tear_down n env c fs =
    if env.changed
    then elim (dict_of env.original) [
      | raised e ↦ (raised e, c)
      | ok restore_payload ↦
          disconnect (ask_in n (set_message restore_payload) "pfop_config_set_response" fs c).1
    ]
    else disconnect c

-- `pfop_env` around tests that do not use its client, which receives in the meantime.
unfoldable pub with_pfop_env : String → Times → Frames → Setup (Outcome (Unit {0})) × Client
unfolding set_up tear_down recv_loop
with_pfop_env host times fs =
    let (s, c, fs') = set_up host times fs in
    elim s [
      | ready env ↦
          (let (o, c') =
              tear_down times.restore env (recv_loop (take times.during fs') c)
                (behind times.during fs') in
            (ready o, c'))
      | skipped ↦ (skipped, c)
      | failed e ↦ (failed e, c)
    ]

-- `except OSError`: the errors of the system and a timeout.
abbrev pub is_os_error : Error → Bool
is_os_error connection_error = true
is_os_error timeout_error = true
is_os_error file_not_found = true
is_os_error _ = false

-- `pfop_client` up to its `yield`.
unfoldable pub pfop_client : (String → ℤ → Outcome Socket) → Env → Setup PfopClient
unfolding Link.connect
pfop_client create_connection env =
    elim (Link.connect create_connection (Link.new env.host env.port)) [
      | ok c ↦ ready c
      | raised e ↦ if is_os_error e then skipped else failed e
    ]
