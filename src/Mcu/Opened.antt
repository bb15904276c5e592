-- ===== src/Mcu/Opened.antt =====
-- lib/mcu_verifier.py: the import of the structures, and the object that is made from a file.
use sas_tests.Prelude.{
  Outcome, runtime_error, file_not_found, ok, raised, ℕ, String, Option, none, some, List,
}
use sas_tests.Mcu.{Layout, load}

-- The bounds where `dump_mcu_config` cannot be imported.
abbrev pub screw_max : ℕ
screw_max = 16

abbrev pub screw_prog_max : ℕ
screw_prog_max = 8

-- `_cfg` and `_bin_path`
pub record McuVerifier {ℓ} (Config : Type ℓ) : Type ℓ where
  pub cfg : Config
  pub bin_path : String

-- `McuVerifier(bin_path)`, given the structures, if they could be imported, and what the file holds,
-- if it exists.
unfoldable pub new {ℓ} :
    {Config Screw Prog Value : Type ℓ}
    → Option (Layout Config Screw Prog Value)
    → (String → Option (List ℕ))
    → String
    → Outcome (McuVerifier Config)
unfolding load
new none files bin_path = raised runtime_error
new (some l) files bin_path = elim (files bin_path) [
  | none ↦ raised file_not_found
  | some raw ↦ ok (record { cfg = load l raw; bin_path = bin_path })
]
