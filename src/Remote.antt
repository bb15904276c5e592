-- ===== src/Remote.antt =====
-- lib/ssh_utils.py: the backend's machine, worked over SSH. `Host` stands for paramiko's client and
-- the machine behind it; the text that commands print is its list of code points.
pub mod Calls
pub mod Isolation
pub mod Restoring
pub mod Starting
use sas_tests.Prelude.{
  if◌then◌else◌, Outcome, ok, raised, ℕ, String, Bool, true, false, ◌&&◌, Option, none, some, List,
  str_eq,
}
use sas_tests.Prelude.Int.{ℤ}

abbrev pub PrintedText : Type 0
PrintedText = List ℕ

pub record Reply : Type 0 where
  pub stdout : PrintedText
  pub stderr : PrintedText
  pub exit_code : ℤ

-- The arguments of `connect`.
pub record Login : Type 0 where
  pub hostname : String
  pub username : String
  pub port : ℕ
  pub password : Option String
  pub key_filename : Option String

-- What the code relies on: whether the client's transport is there and active, `connect` of a new
-- client, `exec_command` with its exit status and output, and the copies over SFTP.
pub record Host {ℓ} (M : Type ℓ) : Type ℓ where
  pub alive : M → Bool
  pub dial : Login → M → Outcome (Unit {0}) × M
  pub exec : String → M → Outcome Reply × M
  pub put : String → String → M → Outcome (Unit {0}) × M
  pub fetch : String → String → M → Outcome (Unit {0}) × M

-- `_client is not None`, and the machine.
pub record World {ℓ} (M : Type ℓ) : Type ℓ where
  pub opened : Bool
  pub machine : M

pub record Backend : Type 0 where
  pub host : String
  pub user : String
  pub password : Option String
  pub key_filename : Option String
  pub port : ℕ

-- `RemoteBackend.__init__`
abbrev pub remote_backend : String → String → Option String → Option String → Backend
remote_backend h u p k = record { host = h; user = u; password = p; key_filename = k; port = 22 }

abbrev pub service_name : String
service_name = "asa-backend"

abbrev pub db_path : String
db_path = "/home/pi/data/SAS.db"

abbrev pub log_path : String
log_path = "/home/pi/logs/asa_backend_sm.log"

abbrev pub backup_path : String
backup_path = "/tmp/SAS_test_backup.db"

abbrev pub dump_mcu_script : String
dump_mcu_script = "/home/pi/dump_mcu_config.py"

-- `if self._password: connect_kwargs["password"] = …`
abbrev pub given : Option String → Option String
given none = none
given (some s) = if str_eq s "" then none else some s

abbrev pub connect_kwargs : Backend → Login
connect_kwargs b = record {
  hostname = b.host;
  username = b.user;
  port = b.port;
  password = given b.password;
  key_filename = given b.key_filename;
}

abbrev pub Act {ℓ κ} : Type ℓ → Type κ → Type (ℓ ⊔ κ)
Act M A = World M → Outcome A × World M

-- A step and, if it returns, the next.
unfoldable pub then_do {ℓ κ ι} :
    {M : Type ℓ} {A : Type κ} {B : Type ι}
    → Outcome A × World M
    → (A → Act M B)
    → Outcome B × World M
then_do (ok a, w) f = f a w
then_do (raised e, w) f = (raised e, w)

module _ {ℓ} {M : Type ℓ} (h : Host M) (b : Backend) where
  -- `_ensure_connected`: the new client is kept even if it cannot connect.
  unfoldable pub ensure_connected : Act M (Unit {0})
  ensure_connected w =
      let dialled = h.dial (connect_kwargs b) w.machine in
      if w.opened && h.alive w.machine
      then (ok tt, w)
      else (dialled.0, record { opened = true; machine = dialled.1 })

  -- `_exec`
  unfoldable pub exec : String → Act M Reply
  unfolding ensure_connected then_do
  exec command w =
      then_do (ensure_connected w)
        λ _ w'. let r = h.exec command w'.machine in (r.0, record w' { machine = r.1 })

  -- A call of `_exec` whose reply is not looked at.
  unfoldable pub run : String → Act M (Unit {0})
  unfolding exec then_do
  run command w = then_do (exec command w) λ _ w'. (ok tt, w')

  -- `close`
  unfoldable pub close : World M → World M
  close w = record w { opened = false }
