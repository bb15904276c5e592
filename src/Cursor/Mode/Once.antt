-- ===== src/Cursor/Mode/Once.antt =====
-- The scan for a work mode, against a description of what ends it and of the mode that it remembers.
use sas_tests.Prelude.{
  first, ◌>>=◌, Error, Outcome, ok, raised, ℕ, String, ◌≡◌, refl, Bool, true, false, Option, none,
  some, List, [], ◌∷◌, ◌++◌, arith, eq_iff,
}
use sas_tests.Json.{Json, Dict, null, bool, num, text, arr, obj}
use sas_tests.Events.{is_text}
use sas_tests.Cursor.Mode.{mode_of, hit, so_far, scan}

-- An event that ends the wait: one that has the expected mode, or that the tests stumble over.
unfoldable pub decides : ℕ → String → Dict → Bool
unfolding mode_of
decides send_ts expected ev = elim (mode_of send_ts ev) [
  | raised e ↦ true
  | ok none ↦ false
  | ok (some v) ↦ is_text expected v
]

-- The last mode, after one more event.
unfoldable pub newer : ℕ → Option Json → Dict → Option Json
unfolding mode_of
newer send_ts l ev = elim (mode_of send_ts ev) [ raised e ↦ l | ok none ↦ l | ok (some v) ↦ some v ]

-- The mode of the last event that has one.
unfoldable pub latest : ℕ → List Dict → Option Json → Option Json
unfolding newer
latest send_ts [] l = l
latest send_ts (ev ∷ evs) l = latest send_ts evs (newer send_ts l ev)

-- What the wait makes of an event that ends it.
unfoldable pub told : ℕ → String → Dict → Outcome Json
unfolding mode_of
told send_ts expected ev = elim (mode_of send_ts ev) [
  | raised e ↦ raised e
  | ok v ↦ ok (text expected)
]

pub latest-append :
    (send_ts : ℕ) (xs ys : List Dict) (l : Option Json)
    → latest send_ts (xs ++ ys) l ≡ latest send_ts ys (latest send_ts xs l)
unfolding latest
latest-append send_ts [] ys l = refl
latest-append send_ts (x ∷ xs) ys l = latest-append send_ts xs ys (newer send_ts l x)

pub is_text_eq : (t : String) (v : Json) → is_text t v ≡ true → v ≡ text t
unfolding is_text
is_text_eq t (text s) h = ground (arith, eq_iff s t)
is_text_eq t null h = ground arith
is_text_eq t (bool b) h = ground arith
is_text_eq t (num n) h = ground arith
is_text_eq t (arr xs) h = ground arith
is_text_eq t (obj d) h = ground arith

pub data Told (send_ts : ℕ) (expected : String) (ev : Dict) : Type 0 where
  stumbles :
      (e : Error)
      → mode_of send_ts ev ≡ raised e
      → decides send_ts expected ev ≡ true
      → Told send_ts expected ev
  no_mode :
      mode_of send_ts ev ≡ ok none → decides send_ts expected ev ≡ false → Told send_ts expected ev
  as_expected :
      (v : Json)
      → mode_of send_ts ev ≡ ok (some v)
      → is_text expected v ≡ true
      → decides send_ts expected ev ≡ true
      → Told send_ts expected ev
  other_mode :
      (v : Json)
      → mode_of send_ts ev ≡ ok (some v)
      → is_text expected v ≡ false
      → decides send_ts expected ev ≡ false
      → Told send_ts expected ev

pub telling : (send_ts : ℕ) (expected : String) (ev : Dict) → Told send_ts expected ev
unfolding decides
telling send_ts expected ev = by_mode (mode_of send_ts ev) refl
  where
    by_text :
        (v : Json) (b : Bool)
        → mode_of send_ts ev ≡ ok (some v)
        → is_text expected v ≡ b
        → Told send_ts expected ev
    by_text v true e h = as_expected v e h (rw (e, decides) h)
    by_text v false e h = other_mode v e h (rw (e, decides) h)

    by_mode : (o : Outcome (Option Json)) → mode_of send_ts ev ≡ o → Told send_ts expected ev
    by_mode (raised e) h = stumbles e h (rw (h, decides) refl)
    by_mode (ok none) h = no_mode h (rw (h, decides) refl)
    by_mode (ok (some v)) h = by_text v (is_text expected v) h refl

pub scan-none :
    (send_ts : ℕ) (expected : String) (evs : List Dict) (l : Option Json)
    → first (decides send_ts expected) evs ≡ none
    → scan send_ts expected evs l ≡ ok (so_far (latest send_ts evs l))
unfolding scan latest newer
scan-none send_ts expected [] l h = refl
scan-none send_ts expected (ev ∷ evs) l h =
    by_told (λ l'. scan-none send_ts expected evs l') (telling send_ts expected ev)
  where
    by_told :
        ((l' : Option Json)
          → first (decides send_ts expected) evs ≡ none
          → scan send_ts expected evs l' ≡ ok (so_far (latest send_ts evs l')))
        → Told send_ts expected ev
        → scan send_ts expected (ev ∷ evs) l ≡ ok (so_far (latest send_ts (ev ∷ evs) l))
    by_told ih (stumbles e m d) = ground (arith, d)
    by_told ih (no_mode m d) = ground (arith, m, d, ih l)
    by_told ih (as_expected v m t d) = ground (arith, d)
    by_told ih (other_mode v m t d) = ground (arith, m, t, d, ih (some v))

pub scan-some :
    (send_ts : ℕ) (expected : String) (evs : List Dict) (l : Option Json) (ev : Dict)
    → first (decides send_ts expected) evs ≡ some ev
    → scan send_ts expected evs l ≡ (told send_ts expected ev >>= (λ v. ok (hit v)))
unfolding scan told
scan-some send_ts expected [] l ev h = ground arith
scan-some send_ts expected (x ∷ evs) l ev h =
    by_told (λ l'. scan-some send_ts expected evs l' ev) (telling send_ts expected x)
  where
    by_told :
        ((l' : Option Json)
          → first (decides send_ts expected) evs ≡ some ev
          → scan send_ts expected evs l' ≡ (told send_ts expected ev >>= (λ v. ok (hit v))))
        → Told send_ts expected x
        → scan send_ts expected (x ∷ evs) l ≡ (told send_ts expected ev >>= (λ v. ok (hit v)))
    by_told ih (stumbles e m d) = ground (arith, m, d)
    by_told ih (no_mode m d) = ground (arith, m, d, ih l)
    by_told ih (as_expected v m t d) = ground (arith, m, t, d, is_text_eq expected v t)
    by_told ih (other_mode v m t d) = ground (arith, m, t, d, ih (some v))
