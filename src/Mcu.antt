-- ===== src/Mcu.antt =====
-- lib/mcu_verifier.py: the readers of a dump of the controller's configuration. The structures of the
-- dump are those of dump_mcu_config.py: `Layout` stands for that module.
pub mod Slots
pub mod Opened
use sas_tests.Prelude.{
  ltb, if◌then◌else◌, length, take, replicate, ◌>>=◌, Outcome, assertion_error, ok, raised, ℕ, zero,
  suc, ◌-◌, String, Bool, true, false, List, [], ◌∷◌, ◌++◌, map,
}
use sas_tests.Prelude.Int.{ℤ, pos, negsuc, eqb_ℤ}
use sas_tests.Prelude.Text.{codes}
use sas_tests.Pfop.Decimal.{strip}

-- `CONFIG_DATA` with its size and fields, the bounds of its arrays, and the names it comes with.
-- `Value` is what the program takes for a float.
pub record Layout {ℓ} (Config Screw Prog Value : Type ℓ) : Type ℓ where
  pub size : ℕ
  pub from_buffer_copy : List ℕ → Config
  pub screw_max : ℕ
  pub screw_prog_max : ℕ
  pub torque_unit_map : List (ℤ × String)
  pub bytes_to_str : List ℕ → String
  pub screw : Config → ℕ → Screw
  pub screw_name : Screw → List ℕ
  pub prog_cnt : Screw → ℤ
  pub screw_cnt : Screw → ℤ
  pub torque_unit : Screw → ℤ
  pub torque_target : Screw → Value
  pub torque_min : Screw → Value
  pub torque_max : Screw → Value
  pub prog : Screw → ℕ → Prog
  pub ref_torque : Prog → Value
  pub ref_vel : Prog → Value
  pub ref_degree : Prog → Value
  pub ok_if : Prog → ℕ → ℤ

-- `raw` as long as the structure: cut, or filled with zeros.
unfoldable pub padded : ℕ → List ℕ → List ℕ
padded required raw = take required (raw ++ replicate (required - length raw) 0)

-- `assert 0 <= i < bound`
unfoldable pub index_below : ℕ → ℤ → Outcome ℕ
index_below bound (pos i) = if ltb i bound then ok i else raised assertion_error
index_below bound (negsuc i) = raised assertion_error

-- `TORQUE_UNIT_MAP.get(unit, "unknown")`
unfoldable pub unit_name : ℤ → List (ℤ × String) → String
unit_name unit [] = "unknown"
unit_name unit ((code, name) ∷ names) = if eqb_ℤ code unit then name else unit_name unit names

pub record Summary {ℓ} (Value : Type ℓ) : Type ℓ where
  pub slot : ℤ
  pub screw_name : String
  pub prog_cnt : ℤ
  pub screw_cnt : ℤ
  pub torque_unit : String
  pub torque_target : Value
  pub torque_min : Value
  pub torque_max : Value

-- Whether `name.strip()` is not empty.
unfoldable pub is_named : String → Bool
unfolding strip
is_named name = elim (strip (codes name)) [ [] ↦ false | c ∷ s ↦ true ]

module _ {ℓ} {Config Screw Prog Value : Type ℓ} (l : Layout Config Screw Prog Value) where
  -- `__init__`, given what the file holds.
  unfoldable pub load : List ℕ → Config
  unfolding padded
  load raw = l.from_buffer_copy (padded l.size raw)

  unfoldable pub get_screw : Config → ℤ → Outcome Screw
  unfolding index_below
  get_screw cfg slot = index_below l.screw_max slot >>= λ s. ok (l.screw cfg s)

  unfoldable pub get_prog : Config → ℤ → ℤ → Outcome Prog
  unfolding index_below get_screw
  get_prog cfg slot step =
      index_below l.screw_prog_max step >>= λ k. get_screw cfg slot >>= λ screw. ok (l.prog screw k)

  -- A reader of one field of a slot, and of one of a step.
  unfoldable pub field_of {κ} : {A : Type κ} → (Screw → A) → Config → ℤ → Outcome A
  unfolding get_screw
  field_of read cfg slot = get_screw cfg slot >>= λ screw. ok (read screw)

  unfoldable pub step_field {κ} : {A : Type κ} → (Prog → A) → Config → ℤ → ℤ → Outcome A
  unfolding get_prog
  step_field read cfg slot step = get_prog cfg slot step >>= λ prog. ok (read prog)

  abbrev pub get_screw_name : Config → ℤ → Outcome String
  get_screw_name = field_of λ screw. l.bytes_to_str (l.screw_name screw)

  abbrev pub get_prog_cnt : Config → ℤ → Outcome ℤ
  get_prog_cnt = field_of l.prog_cnt

  abbrev pub get_screw_cnt : Config → ℤ → Outcome ℤ
  get_screw_cnt = field_of l.screw_cnt

  abbrev pub get_torque_unit : Config → ℤ → Outcome ℤ
  get_torque_unit = field_of l.torque_unit

  abbrev pub get_torque_unit_str : Config → ℤ → Outcome String
  get_torque_unit_str cfg slot =
      get_torque_unit cfg slot >>= λ unit. ok (unit_name unit l.torque_unit_map)

  abbrev pub get_torque_target : Config → ℤ → Outcome Value
  get_torque_target = field_of l.torque_target

  abbrev pub get_torque_min : Config → ℤ → Outcome Value
  get_torque_min = field_of l.torque_min

  abbrev pub get_torque_max : Config → ℤ → Outcome Value
  get_torque_max = field_of l.torque_max

  abbrev pub get_ref_torque : Config → ℤ → ℤ → Outcome Value
  get_ref_torque = step_field l.ref_torque

  abbrev pub get_ref_vel : Config → ℤ → ℤ → Outcome Value
  get_ref_vel = step_field l.ref_vel

  abbrev pub get_ref_degree : Config → ℤ → ℤ → Outcome Value
  get_ref_degree = step_field l.ref_degree

  abbrev pub get_ok_if : Config → ℤ → ℤ → Outcome (List ℤ)
  get_ok_if = step_field λ prog. map (l.ok_if prog) (0 ∷ 1 ∷ 2 ∷ 3 ∷ [])

  unfoldable pub slot_summary : Config → ℤ → Outcome (Summary Value)
  unfolding field_of unit_name
  slot_summary cfg slot = get_screw_name cfg slot >>= λ name. get_prog_cnt cfg slot >>= λ steps.
      get_screw_cnt cfg slot >>= λ count. get_torque_unit_str cfg slot >>= λ unit.
      get_torque_target cfg slot >>= λ target. get_torque_min cfg slot >>= λ low.
      get_torque_max cfg slot >>= λ high. ok record {
        slot = slot;
        screw_name = name;
        prog_cnt = steps;
        screw_cnt = count;
        torque_unit = unit;
        torque_target = target;
        torque_min = low;
        torque_max = high;
      }

  -- The comprehension of `all_active_slots`, from a slot on.
  unfoldable pub active_from : Config → ℕ → ℕ → Outcome (List ℕ)
  unfolding field_of is_named
  active_from cfg zero s = ok []
  active_from cfg (suc n) s =
      let rest = active_from cfg n (suc s) in
      get_screw_name cfg (pos s) >>= λ name.
      rest >>= λ slots. ok (if is_named name then s ∷ slots else slots)

  unfoldable pub all_active_slots : Config → ℕ → Outcome (List ℕ)
  unfolding active_from
  all_active_slots cfg max_slot = active_from cfg max_slot 0
