-- ===== src/Constraints/Pair.antt =====
-- The two constraints that are picked.
use sas_tests.Prelude.{
  if◌then◌else◌, Bool-cases, All, String, ◌≡◌, refl, ◌⊎◌, inl, inr, Bool, true, false, Option, none,
  some, List, [], ◌∷◌, arith,
}
use sas_tests.Prelude.Int.{ℤ, pos, ◌≤ℤ◌, ltb_ℤ, leb_ℤ, eq_of_parts}
use sas_tests.Constraints.{
  Match, Normal, normalized, insert, sort, last_of, ends_of, pick_two, min_of, max_of,
}

-- One of a list.
abbrev IsAmong : Normal → List Normal → Type 0
IsAmong x [] = ⊥
IsAmong x (y ∷ ys) = (x ≡ y) ⊎ IsAmong x ys

-- In the order of the maxima.
abbrev Ordered : List Normal → Type 0
Ordered [] = Unit {0}
Ordered (x ∷ xs) = All (λ y. x.max_v ≤ℤ y.max_v) xs × Ordered xs

All-insert {κ} :
    (P : Normal → Type κ) (x : Normal) (ys : List Normal) → P x → All P ys → All P (insert x ys)
unfolding insert
All-insert P x [] p h = (p, tt)
All-insert P x (y ∷ ys) p h = elim (Bool-cases (leb_ℤ x.max_v y.max_v)) [
  | inl yes' ↦ rw yes' (p, h)
  | inr no' ↦ rw no' (h.0, All-insert P x ys p h.1)
]

All-weaken :
    (a b : ℤ) (ys : List Normal) → a ≤ℤ b → All (λ y. b ≤ℤ y.max_v) ys → All (λ y. a ≤ℤ y.max_v) ys
All-weaken a b [] h all = tt
All-weaken a b (y ∷ ys) h all = (omega arith, All-weaken a b ys h all.1)

insert-Ordered : (x : Normal) (ys : List Normal) → Ordered ys → Ordered (insert x ys)
unfolding insert
insert-Ordered x [] h = (tt, tt)
insert-Ordered x (y ∷ ys) h = elim (Bool-cases (leb_ℤ x.max_v y.max_v)) [
  | inl yes' ↦ rw yes' ((ground arith, All-weaken x.max_v y.max_v ys (ground arith) h.0), h)
  | inr no' ↦
      rw no' (All-insert (λ z. y.max_v ≤ℤ z.max_v) x ys (ground arith) h.0, insert-Ordered x ys h.1)
]

insert-IsAmong :
    (z x : Normal) (ys : List Normal) → IsAmong z (insert x ys) → (z ≡ x) ⊎ IsAmong z ys
unfolding insert
insert-IsAmong z x [] h = h
insert-IsAmong z x (y ∷ ys) h = by_test (leb_ℤ x.max_v y.max_v) (insert-IsAmong z x ys) h
  where
    by_test :
        (b : Bool)
        → (IsAmong z (insert x ys) → (z ≡ x) ⊎ IsAmong z ys)
        → IsAmong z (if b then x ∷ y ∷ ys else y ∷ insert x ys)
        → (z ≡ x) ⊎ ((z ≡ y) ⊎ IsAmong z ys)
    by_test true go h = h
    by_test false go (inl e) = inr (inl e)
    by_test false go (inr h) = elim (go h) [ inl e ↦ inl e | inr k ↦ inr (inr k) ]

sort-Ordered : (xs : List Normal) → Ordered (sort xs)
unfolding sort
sort-Ordered [] = tt
sort-Ordered (x ∷ xs) = insert-Ordered x (sort xs) (sort-Ordered xs)

sort-IsAmong : (z : Normal) (xs : List Normal) → IsAmong z (sort xs) → IsAmong z xs
unfolding sort
sort-IsAmong z [] h = h
sort-IsAmong z (x ∷ xs) h = elim (insert-IsAmong z x (sort xs) h) [
  | inl e ↦ inl e
  | inr k ↦ inr (sort-IsAmong z xs k)
]

All-uninsert {κ} :
    (P : Normal → Type κ) (x : Normal) (ys : List Normal) → All P (insert x ys) → P x × All P ys
unfolding insert
All-uninsert P x [] all = all
All-uninsert P x (y ∷ ys) all = by_test (leb_ℤ x.max_v y.max_v) (All-uninsert P x ys) all
  where
    by_test :
        (b : Bool)
        → (All P (insert x ys) → P x × All P ys)
        → All P (if b then x ∷ y ∷ ys else y ∷ insert x ys)
        → P x × (P y × All P ys)
    by_test true go h = h
    by_test false go h = let (p, rest) = go h.1 in (p, (h.0, rest))

-- What holds of all of a sorted list holds of all of the list.
All-unsort {κ} : (P : Normal → Type κ) (xs : List Normal) → All P (sort xs) → All P xs
unfolding sort
All-unsort P [] h = tt
All-unsort P (x ∷ xs) h = let (p, rest) = All-uninsert P x (sort xs) h in (p, All-unsort P xs rest)

last-IsAmong : (y : Normal) (ys : List Normal) → IsAmong (last_of y ys) (y ∷ ys)
unfolding last_of
last-IsAmong y [] = inl refl
last-IsAmong y (z ∷ zs) = inr (last-IsAmong z zs)

-- The last of an ordered list is the greatest.
last_greatest :
    (y : Normal) (ys : List Normal)
    → Ordered (y ∷ ys)
    → All (λ z. z.max_v ≤ℤ (last_of y ys).max_v) (y ∷ ys)
unfolding last_of
last_greatest y [] h = (omega arith, tt)
last_greatest y (z ∷ zs) h =
    let rest = last_greatest z zs h.1 in let below = h.0.0 in (omega (arith, rest.0), rest)

-- Where the greatest maximum is not above the least, all are that one.
all_same :
    (a b : ℤ) (ys : List Normal)
    → b ≤ℤ a
    → All (λ y. a ≤ℤ y.max_v) ys
    → All (λ y. y.max_v ≤ℤ b) ys
    → All (λ y. y.max_v ≡ a) ys
all_same a b [] h low high = tt
all_same a b (y ∷ ys) h low high =
    (eq_of_parts y.max_v a (omega arith), all_same a b ys h low.1 high.1)

between :
    (a b : ℤ) (ys : List Normal)
    → All (λ y. a ≤ℤ y.max_v) ys
    → All (λ y. y.max_v ≤ℤ b) ys
    → All (λ y. (a ≤ℤ y.max_v) × (y.max_v ≤ℤ b)) ys
between a b [] low high = tt
between a b (y ∷ ys) low high = ((low.0, high.0), between a b ys low.1 high.1)

-- What is picked from some constraints, by what the choice is made from.
abbrev Picked : List Normal → Option (Normal × Normal) → Type 0
Picked ns none = (v : ℤ) × All (λ n. n.max_v ≡ v) ns
Picked ns (some (strict, loose)) =
    IsAmong strict ns
    × (IsAmong loose ns
        × ((ltb_ℤ strict.max_v loose.max_v ≡ true)
            × All (λ n. (strict.max_v ≤ℤ n.max_v) × (n.max_v ≤ℤ loose.max_v)) ns))

ends_lem : (xs : List Normal) → Ordered xs → Picked xs (ends_of xs)
unfolding ends_of
ends_lem [] h = (pos 0, tt)
ends_lem (x ∷ []) h = (x.max_v, (refl, tt))
ends_lem (x ∷ y ∷ ys) h =
    let loose = last_of y ys in
    let high = last_greatest y ys h.1 in
    let top = h.0.0 in
    elim (Bool-cases (leb_ℤ loose.max_v x.max_v)) [
      | inl yes' ↦
          rw yes' (x.max_v, (refl, all_same x.max_v loose.max_v (y ∷ ys) (ground arith) h.0 high))
      | inr no' ↦ rw no' (
        inl refl,
        (
          inr (last-IsAmong y ys),
          (
            ground arith,
            ((omega arith, omega (arith, high.0)), between x.max_v loose.max_v (y ∷ ys) h.0 high),
          ),
        ),
      )
    ]

unsorted : (ns : List Normal) (o : Option (Normal × Normal)) → Picked (sort ns) o → Picked ns o
unsorted ns none (v, all) = (v, All-unsort (λ n. n.max_v ≡ v) ns all)
unsorted ns (some (strict, loose)) (a, (b, (less, all))) = (
  sort-IsAmong strict ns a,
  (
    sort-IsAmong loose ns b,
    (less, All-unsort (λ n. (strict.max_v ≤ℤ n.max_v) × (n.max_v ≤ℤ loose.max_v)) ns all),
  ),
)

-- A match whose least value is above its greatest has no range.
abbrev pub IsEmptyRange : (String → Option ℤ) → Match → Type 0
IsEmptyRange read m = ltb_ℤ (max_of read m.1) (min_of read m.1) ≡ true

-- An entry of one of the matches whose range is not empty.
abbrev pub IsEntry : (String → Option ℤ) → Normal → List Match → Type 0
IsEntry read n [] = ⊥
IsEntry read n ((i, c) ∷ ms) =
    ((min_of read c ≤ℤ max_of read c)
      × (n ≡ record { machine_type = i; constraint = c; max_v = max_of read c }))
    ⊎ IsEntry read n ms

-- What is picked from the matches: two entries with the least and the greatest maximum of all that
-- have a range, and no pick where these have one maximum.
abbrev pub Chosen : (String → Option ℤ) → List Match → Option (Normal × Normal) → Type 0
Chosen read ms none = (v : ℤ) × All (λ m. IsEmptyRange read m ⊎ (max_of read m.1 ≡ v)) ms
Chosen read ms (some (strict, loose)) =
    IsEntry read strict ms
    × (IsEntry read loose ms
        × ((ltb_ℤ strict.max_v loose.max_v ≡ true)
            × All
                (λ m.
                  IsEmptyRange read m
                  ⊎ ((strict.max_v ≤ℤ max_of read m.1) × (max_of read m.1 ≤ℤ loose.max_v)))
                ms))

normalized-IsEntry :
    (read : String → Option ℤ) (n : Normal) (ms : List Match)
    → IsAmong n (normalized read ms)
    → IsEntry read n ms
unfolding normalized
normalized-IsEntry read n [] h = h
normalized-IsEntry read n ((i, c) ∷ ms) h =
    by_range (leb_ℤ (min_of read c) (max_of read c)) refl (normalized-IsEntry read n ms) h
  where
    by_range :
        (b : Bool)
        → leb_ℤ (min_of read c) (max_of read c) ≡ b
        → (IsAmong n (normalized read ms) → IsEntry read n ms)
        → IsAmong n (
            if b
            then record { machine_type = i; constraint = c; max_v = max_of read c }
              ∷ normalized read ms
            else normalized read ms)
        → IsEntry read n ((i, c) ∷ ms)
    by_range true valid go (inl e) = inl (ground arith, e)
    by_range true valid go (inr k) = inr (go k)
    by_range false valid go k = inr (go k)

All-normalized {κ} :
    (P : ℤ → Type κ) (read : String → Option ℤ) (ms : List Match)
    → All (λ n. P n.max_v) (normalized read ms)
    → All (λ m. IsEmptyRange read m ⊎ P (max_of read m.1)) ms
unfolding normalized
All-normalized P read [] h = tt
All-normalized P read ((i, c) ∷ ms) h =
    by_range (leb_ℤ (min_of read c) (max_of read c)) refl (All-normalized P read ms) h
  where
    by_range :
        (b : Bool)
        → leb_ℤ (min_of read c) (max_of read c) ≡ b
        → (All (λ n. P n.max_v) (normalized read ms)
            → All (λ m. IsEmptyRange read m ⊎ P (max_of read m.1)) ms)
        → All
            (λ n. P n.max_v)
            (if b
              then record { machine_type = i; constraint = c; max_v = max_of read c }
                ∷ normalized read ms
              else normalized read ms)
        → All (λ m. IsEmptyRange read m ⊎ P (max_of read m.1)) ((i, c) ∷ ms)
    by_range true valid go all = (inr all.0, go all.1)
    by_range false valid go all = (inl (ground arith), go all)

Picked-Chosen :
    (read : String → Option ℤ) (ms : List Match) (o : Option (Normal × Normal))
    → Picked (normalized read ms) o
    → Chosen read ms o
Picked-Chosen read ms none (v, all) = (v, All-normalized (λ x. x ≡ v) read ms all)
Picked-Chosen read ms (some (strict, loose)) (a, (b, (less, all))) = (
  normalized-IsEntry read strict ms a,
  (
    normalized-IsEntry read loose ms b,
    (less, All-normalized (λ x. (strict.max_v ≤ℤ x) × (x ≤ℤ loose.max_v)) read ms all),
  ),
)

-- The two constraints that are picked are among the matches whose least value is not above the
-- greatest, and no such match has a maximum below that of the first or above that of the second,
-- which is above that of the first; there is no pick just where all of them have one and the same
-- maximum.
pub pick_two_lem : (read : String → Option ℤ) (ms : List Match) → Chosen read ms (pick_two read ms)
unfolding pick_two
pick_two_lem read ms = Picked-Chosen read ms (pick_two read ms) (
    unsorted (normalized read ms) (pick_two read ms)
      (ends_lem (sort (normalized read ms)) (sort-Ordered (normalized read ms))))
