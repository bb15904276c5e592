-- ===== src/Constraints/Preferred/Best.antt =====
-- Which constraint of a parameter is kept.
use sas_tests.Prelude.{
  if◌then◌else◌, first, All, ◌>>=◌, ok, raised, String, ◌≡◌, refl, sym, ap, ◌∙◌, Bool, true, false,
  ◌&&◌, Option, none, some, List, [], ◌∷◌, arith, eq_iff, eq_refl,
}
use mathlib.Core.Path.{subst}
use sas_tests.Prelude.Int.{eq_of_parts}
use sas_tests.Json.{get_or, Dict, Items, arr, obj, nil, cons, get}
use sas_tests.Fixtures.{is_success}
use sas_tests.Sync.{equals}
use sas_tests.Constraints.Preferred.{
  kept_of, Key, word, number, eqb_key, KeptMap, kept_at, keep_at, merged, key_of, keep_all,
}

-- The constraint has this name.
unfoldable pub is_called : Key → Dict → Bool
unfolding key_of
is_called k c = elim (key_of c) [ raised e ↦ false | ok none ↦ false | ok (some j) ↦ eqb_key j k ]

unfoldable pub is_preferred : String → Dict → Bool
unfolding equals get
is_preferred preferred c = equals preferred (get "torqueUnit" c)

-- The first one of the name and the preferred unit, and else the first one of the name.
abbrev pub best : String → Key → List Dict → Option Dict
best preferred k cs = elim (first (λ c. is_called k c && is_preferred preferred c) cs) [
  | some c ↦ some c
  | none ↦ first (is_called k) cs
]

abbrev pub objects : List Dict → Items
objects [] = nil
objects (c ∷ cs) = cons (obj c) (objects cs)

-- The name can be a key.
abbrev pub HasKey : Dict → Type 0
HasKey c = (o : Option Key) × (key_of c ≡ ok o)

-- What becomes of the constraint of a name.
abbrev better : String → Option Dict → Dict → Option Dict
better preferred none c = some c
better preferred (some b) c =
    if is_preferred preferred b then some b else if is_preferred preferred c then some c else some b

abbrev chosen : String → Key → Option Dict → List Dict → Option Dict
chosen preferred k o [] = o
chosen preferred k o (c ∷ cs) =
    chosen preferred k (if is_called k c then better preferred o c else o) cs

eqb_key_eq : (j k : Key) → eqb_key j k ≡ true → j ≡ k
eqb_key_eq (word s) (word t) h = ground (arith, eq_iff s t)
eqb_key_eq (number m) (number n) h = ground (arith, eq_of_parts m n)
eqb_key_eq (word s) (number n) h = cc
eqb_key_eq (number m) (word t) h = cc

eqb_key_refl : (k : Key) → eqb_key k k ≡ true
eqb_key_refl (word s) = eq_refl s
eqb_key_refl (number n) = ground arith

-- A key that is equal to two others.
eqb_key_join : (i j k : Key) → eqb_key i k ≡ true → eqb_key j k ≡ true → eqb_key i j ≡ true
eqb_key_join i j k p q =
    subst (λ x. eqb_key i x ≡ true) (eqb_key_eq i k p ∙ sym (eqb_key_eq j k q)) (eqb_key_refl i)

eqb_key_same : (i j k : Key) → eqb_key i j ≡ true → eqb_key i k ≡ eqb_key j k
eqb_key_same i j k h = ap (λ x. eqb_key x k) (eqb_key_eq i j h)

kept_at-keep_at :
    (k j : Key) (c : Dict) (m : KeptMap)
    → kept_at k (keep_at j c m) ≡ (if eqb_key j k then some c else kept_at k m)
unfolding kept_at keep_at
kept_at-keep_at k j c [] = refl
kept_at-keep_at k j c ((i, b) ∷ m) =
    ground (arith, eqb_key_same i j k, eqb_key_join i j k, kept_at-keep_at k j c m)

kept_at_same : (j k : Key) (m : KeptMap) → eqb_key j k ≡ true → kept_at j m ≡ kept_at k m
kept_at_same j k m h = ap (λ x. kept_at x m) (eqb_key_eq j k h)

kept_at-merged :
    (preferred : String) (k j : Key) (c : Dict) (m : KeptMap)
    → kept_at k (merged preferred j c m)
      ≡ (if eqb_key j k then better preferred (kept_at k m) c else kept_at k m)
unfolding merged is_preferred
kept_at-merged preferred k j c m = ground (arith, kept_at_same j k m, kept_at-keep_at k j c m)

-- Once one of the preferred unit is there, it stays.
chosen_stays :
    (preferred : String) (k : Key) (b : Dict) (cs : List Dict)
    → is_preferred preferred b ≡ true
    → chosen preferred k (some b) cs ≡ some b
chosen_stays preferred k b [] h = refl
chosen_stays preferred k b (c ∷ cs) h = ground (arith, chosen_stays preferred k b cs)

chosen_other :
    (preferred : String) (k : Key) (b : Dict) (cs : List Dict)
    → is_preferred preferred b ≡ false
    → chosen preferred k (some b) cs
      ≡ elim (first (λ c. is_called k c && is_preferred preferred c) cs) [
        | some c ↦ some c
        | none ↦ some b
      ]
chosen_other preferred k b [] h = refl
chosen_other preferred k b (c ∷ cs) h =
    ground (arith, chosen_other preferred k b cs, chosen_stays preferred k c cs)

chosen_lem :
    (preferred : String) (k : Key) (cs : List Dict)
    → chosen preferred k none cs ≡ best preferred k cs
chosen_lem preferred k [] = refl
chosen_lem preferred k (c ∷ cs) =
    ground (
      arith,
      chosen_lem preferred k cs,
      chosen_other preferred k c cs,
      chosen_stays preferred k c cs,
    )

named_none : (k : Key) (c : Dict) → key_of c ≡ ok none → is_called k c ≡ false
unfolding is_called
named_none k c e = rw (e, is_called) refl

named_some : (k j : Key) (c : Dict) → key_of c ≡ ok (some j) → is_called k c ≡ eqb_key j k
unfolding is_called
named_some k j c e = rw (e, is_called) refl

keep_all_lem :
    (preferred : String) (k : Key) (cs : List Dict) (m : KeptMap)
    → All HasKey cs
    → (keep_all preferred (objects cs) m >>= (λ m'. ok (kept_at k m')))
      ≡ ok (chosen preferred k (kept_at k m) cs)
unfolding keep_all
keep_all_lem preferred k [] m hs = refl
keep_all_lem preferred k (c ∷ cs) m ((none, e), hs) =
    rw (e, named_none k c e, keep_all) (keep_all_lem preferred k cs m hs)
keep_all_lem preferred k (c ∷ cs) m ((some j, e), hs) =
    let rest = keep_all_lem preferred k cs (merged preferred j c m) hs in
    rw (e, named_some k j c e, keep_all) (rw (kept_at-merged preferred k j c m) at rest)

-- An answer that reports success and lists constraints whose names can be keys or are falsy: the map
-- has, at each name, the first constraint of this name and the preferred unit, or, without one, the
-- first of this name; and nothing at any other name.
pub kept_of_lem :
    (preferred : String) (k : Key) (resp : Dict) (cs : List Dict)
    → is_success resp ≡ true
    → get "constraints" resp ≡ some (arr (objects cs))
    → All HasKey cs
    → (kept_of preferred resp >>= (λ m. ok (kept_at k m))) ≡ ok (best preferred k cs)
unfolding kept_of get_or kept_at
kept_of_lem preferred k resp cs fine listed hs =
    rw (fine, listed, get_or)
      (keep_all_lem preferred k cs [] hs ∙ ap ok (chosen_lem preferred k cs))
