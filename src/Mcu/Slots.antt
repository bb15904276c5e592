-- ===== src/Mcu/Slots.antt =====
-- The bytes that the structure is made from, and the slots that have a name.
use sas_tests.Prelude.{
  ltb, leb, if◌then◌else◌, ltb→lt, lt→ltb, Bool-cases, length, get_elem?, take, replicate, keep,
  assertion_error, ok, raised, ℕ, zero, suc, ◌+◌, ◌-◌, ◌≤◌, ◌<◌, ◌≡◌, refl, inl, inr, Bool, none,
  some, List, [], ◌∷◌, arith,
}
use native.Mathlib.Numerals.{unary_clauses}
use sas_tests.Mcu.{
  Layout, padded, index_below, is_named, field_of, get_screw, active_from, all_active_slots,
}

-- A byte of the dump, or zero past its end.
abbrev pub byte_at : List ℕ → ℕ → ℕ
byte_at [] i = 0
byte_at (b ∷ raw) zero = b
byte_at (b ∷ raw) (suc i) = byte_at raw i

abbrev no_bytes : ℕ → ℕ → List ℕ
no_bytes n m = take n (replicate m 0)

zeros : (n m i : ℕ) → i < n → n ≤ m → get_elem? (no_bytes n m) i ≡ some 0
zeros zero m i h below = absurd (omega arith)
zeros (suc n) zero i h below = absurd (omega arith)
zeros (suc n) (suc m) zero h below = refl
zeros (suc n) (suc m) (suc i) h below = zeros n m i (omega arith) (omega arith)

length-zeros : (n m : ℕ) → n ≤ m → length (no_bytes n m) ≡ n
length-zeros zero m below = refl
length-zeros (suc n) zero below = absurd (omega arith)
length-zeros (suc n) (suc m) below = omega (arith, length-zeros n m)

length-padded : (n : ℕ) (raw : List ℕ) → length (padded n raw) ≡ n
unfolding padded
length-padded zero raw = refl
length-padded (suc n) [] = length-zeros (suc n) (suc n - 0) (omega arith)
length-padded (suc n) (b ∷ raw) = simp unary_clauses (omega (arith, length-padded n raw))

padded-get :
    (n : ℕ) (raw : List ℕ) (i : ℕ) → i < n → get_elem? (padded n raw) i ≡ some (byte_at raw i)
unfolding padded
padded-get zero raw i h = absurd (omega arith)
padded-get (suc n) [] i h = zeros (suc n) (suc n - 0) i h (omega arith)
padded-get (suc n) (b ∷ raw) zero h = refl
padded-get (suc n) (b ∷ raw) (suc i) h = simp unary_clauses (padded-get n raw i (omega arith))

get-none : (xs : List ℕ) (i : ℕ) → length xs ≤ i → get_elem? xs i ≡ none
get-none [] i h = refl
get-none (x ∷ xs) zero h = absurd (omega arith)
get-none (x ∷ xs) (suc i) h = get-none xs i (omega arith)

-- Whatever the dump holds, the structure is made from as many bytes as it needs: those of the dump, as
-- far as they go, then zeros, and no more.
padded_lem :
    (n : ℕ) (raw : List ℕ) (i : ℕ)
    → get_elem? (padded n raw) i ≡ (if ltb i n then some (byte_at raw i) else none)
padded_lem n raw i = elim (Bool-cases (ltb i n)) [
  | inl inside ↦ rw inside (padded-get n raw i (ltb→lt i n inside))
  | inr outside ↦ rw outside (get-none (padded n raw) i (ground (arith, length-padded n raw)))
]

-- The numbers below a bound, from one on.
abbrev pub numbers : ℕ → ℕ → List ℕ
numbers zero s = []
numbers (suc n) s = s ∷ numbers n (suc s)

module _ {ℓ} {Config Screw Prog Value : Type ℓ} (l : Layout Config Screw Prog Value) where
  abbrev pub has_name : Config → ℕ → Bool
  has_name cfg s = is_named (l.bytes_to_str (l.screw_name (l.screw cfg s)))

  active_from_lem :
      (cfg : Config) (n s : ℕ)
      → s + n ≤ l.screw_max
      → active_from l cfg n s ≡ ok (keep (has_name cfg) (numbers n s))
  unfolding active_from field_of get_screw index_below
  active_from_lem cfg zero s h = refl
  active_from_lem cfg (suc n) s h =
      simp (lt→ltb s l.screw_max (omega arith), active_from_lem cfg n (suc s) (omega arith))

  active_from_raises :
      (cfg : Config) (n s : ℕ)
      → l.screw_max < s + n
      → s ≤ l.screw_max
      → active_from l cfg n s ≡ raised assertion_error
  unfolding active_from field_of get_screw index_below
  active_from_raises cfg zero s h below = absurd (omega arith)
  active_from_raises cfg (suc n) s h below = elim (Bool-cases (ltb s l.screw_max)) [
    | inl inside ↦ simp (inside, active_from_raises cfg n (suc s) (omega arith) (ground arith))
    | inr outside ↦ simp outside
  ]

  -- Up to as many slots as the structure has, `all_active_slots` returns those whose name is not
  -- blank, in order; asked for more, it raises AssertionError.
  pub all_active_slots_lem :
      (cfg : Config) (max_slot : ℕ)
      → all_active_slots l cfg max_slot ≡ (
          if leb max_slot l.screw_max
          then ok (keep (has_name cfg) (numbers max_slot 0))
          else raised assertion_error)
  unfolding all_active_slots
  all_active_slots_lem cfg n = elim (Bool-cases (leb n l.screw_max)) [
    | inl inside ↦ rw inside (active_from_lem cfg n 0 (ground arith))
    | inr outside ↦ rw outside (active_from_raises cfg n 0 (ground arith) (omega arith))
  ]
