-- ===== src/Cursor/Mode/Status.antt =====
-- The events that have a work mode, told by their fields, against `mode_of`.
use sas_tests.Prelude.{
  if◌then◌else◌, Bool-cases, ◌>>=◌, Outcome, ok, raised, ℕ, ◌<◌, String, ◌≡◌, refl, ap, ◌∙◌, inl,
  inr, Bool, true, false, Option, none, some, arith, eq_refl,
}
use sas_tests.Constants
use sas_tests.Prelude.Int.{pos, leb_ℤ}
use sas_tests.Json.{Json, Dict, null, bool, num, text, arr, obj, end, get, get_or}
use sas_tests.Events.{is_text, has_type}
use sas_tests.Cursor.{is_stale}
use sas_tests.Cursor.Mode.{mode_of, stats_in, stats_of, mode_at}
use sas_tests.Cursor.Mode.Once.{is_text_eq}

-- Later than `send_ts`, as a time stamp.
abbrev pub IsLater : ℕ → Json → Type 0
IsLater send_ts (num t) = leb_ℤ t (pos send_ts) ≡ false
IsLater send_ts (bool b) = (b ≡ true) × (send_ts < 1000)
IsLater send_ts null = ⊥
IsLater send_ts (text s) = ⊥
IsLater send_ts (arr xs) = ⊥
IsLater send_ts (obj d) = ⊥

-- An event is a status, received after `send_ts`, whose statistics have the mode.
abbrev pub HasMode : ℕ → Json → Dict → Type 0
HasMode send_ts mode ev =
    (get "type" ev ≡ some (text "hardware_status_update"))
    × (((v : Json) × ((get "_received_at" ev ≡ some v) × IsLater send_ts v))
        × ((d s : Dict) × ((get "data" ev ≡ some (obj d))
              × ((get "job_statistics" d ≡ some (obj s)) × (get "work_mode" s ≡ some mode)))))

mode_at-some :
    (x v : Json)
    → mode_at x ≡ ok (some v)
    → (s : Dict) × ((x ≡ obj s) × (get "work_mode" s ≡ some v))
unfolding mode_at
mode_at-some (obj s) v h = (s, (refl, ground arith))
mode_at-some (text s) v h = ground arith
mode_at-some (arr xs) v h = ground arith
mode_at-some null v h = ground arith
mode_at-some (bool b) v h = ground arith
mode_at-some (num n) v h = ground arith

stats_in_ok :
    (x y : Json)
    → stats_in x ≡ ok y
    → (d : Dict) × ((x ≡ obj d) × (get_or "job_statistics" (obj end) d ≡ y))
unfolding stats_in
stats_in_ok (obj d) y h = (d, (refl, ground arith))
stats_in_ok (text s) y h = ground arith
stats_in_ok (arr xs) y h = ground arith
stats_in_ok null y h = ground arith
stats_in_ok (bool b) y h = ground arith
stats_in_ok (num n) y h = ground arith

get-end : (j : String) → get j end ≡ none
unfolding get
get-end j = refl

-- A default that has nothing in it is not what was found.
found_at :
    (k j : String) (d s : Dict) (v : Json)
    → get_or k (obj end) d ≡ obj s
    → get j s ≡ some v
    → get k d ≡ some (obj s)
unfolding get_or
found_at k j d s v h found = by_value (get k d) h
  where
    by_value :
        (o : Option Json)
        → (elim o as (λ o. Json) [ none ↦ obj end | some w ↦ w ]) ≡ obj s
        → o ≡ some (obj s)
    by_value none e = ground (arith, get-end j)
    by_value (some w) e = ap {B = Option Json} some e

is_stale-false :
    (send_ts : ℕ) (o : Option Json)
    → is_stale send_ts o ≡ ok false
    → (v : Json) × ((o ≡ some v) × IsLater send_ts v)
unfolding is_stale
is_stale-false send_ts (some (num t)) h = (num t, (refl, ground arith))
is_stale-false send_ts (some (bool true)) h = (bool true, (refl, (refl, ground arith)))
is_stale-false send_ts (some (bool false)) h = ground arith
is_stale-false send_ts none h = ground arith
is_stale-false send_ts (some null) h = ground arith
is_stale-false send_ts (some (text s)) h = ground arith
is_stale-false send_ts (some (arr xs)) h = ground arith
is_stale-false send_ts (some (obj d)) h = ground arith

bind_ok {ℓ κ} :
    {A : Type ℓ} {B : Type κ} (o : Outcome A) (f : A → Outcome B) (b : B)
    → (o >>= f) ≡ ok b
    → (a : A) × ((o ≡ ok a) × (f a ≡ ok b))
bind_ok (raised e) f b h = cc
bind_ok (ok a) f b h = (a, (refl, h))

has_type_text : (t : String) (ev : Dict) → has_type t ev ≡ true → get "type" ev ≡ some (text t)
unfolding has_type
has_type_text t ev h = by_value (get "type" ev) h
  where
    by_value :
        (o : Option Json)
        → (elim o as (λ o. Bool) [ none ↦ false | some v ↦ is_text t v ]) ≡ true
        → o ≡ some (text t)
    by_value none e = cc
    by_value (some v) e = ap {B = Option Json} some (is_text_eq t v e)

pub mode_of-HasMode :
    (send_ts : ℕ) (ev : Dict) (mode : Json)
    → mode_of send_ts ev ≡ ok (some mode)
    → HasMode send_ts mode ev
unfolding mode_of stats_of
mode_of-HasMode send_ts ev mode h =
    elim (Bool-cases (has_type Constants.hardware_status_update ev)) [
      | inr other ↦ ground (arith, other)
      | inl status ↦
          (let (old, (stale, later)) =
              bind_ok (is_stale send_ts (get "_received_at" ev)) _ _ (rw status at h) in
            let fresh : old ≡ false = by_age old later in
            let now = is_stale-false send_ts (get "_received_at" ev) (stale ∙ ap ok fresh) in
            let (x, (stats, found)) = bind_ok (stats_of ev) mode_at _ (rw fresh at later) in
            let (s, (is_dict, work_mode)) = mode_at-some x mode found in
            let (d, (in_data, in_stats)) = stats_in_ok (get_or "data" (obj end) ev) x stats in
            let statistics =
              found_at "job_statistics" "work_mode" d s _ (in_stats ∙ is_dict) work_mode in
            (
              has_type_text _ ev status,
              (
                now,
                (
                  d,
                  s,
                  (
                    found_at "data" "job_statistics" ev d _ in_data statistics,
                    (statistics, work_mode),
                  ),
                ),
              ),
            ))
    ]
  where
    by_age :
        (old : Bool)
        → (if old then ok none else stats_of ev >>= mode_at) ≡ ok (some mode)
        → old ≡ false
    by_age true e = ground arith
    by_age false e = refl

text-has_type : (t : String) (ev : Dict) → get "type" ev ≡ some (text t) → has_type t ev ≡ true
unfolding is_text has_type
text-has_type t ev h = rw (h, has_type) (eq_refl t)

IsLater-is_stale :
    (send_ts : ℕ) (v : Json) → IsLater send_ts v → is_stale send_ts (some v) ≡ ok false
unfolding is_stale
IsLater-is_stale send_ts (num t) h = ap ok h
IsLater-is_stale send_ts (bool true) h = ground (arith, h.1)
IsLater-is_stale send_ts (bool false) h = cc
IsLater-is_stale send_ts null h = absurd h
IsLater-is_stale send_ts (text s) h = absurd h
IsLater-is_stale send_ts (arr xs) h = absurd h
IsLater-is_stale send_ts (obj d) h = absurd h

pub HasMode-mode_of :
    (send_ts : ℕ) (ev : Dict) (mode : Json)
    → HasMode send_ts mode ev
    → mode_of send_ts ev ≡ ok (some mode)
unfolding mode_of stats_of stats_in mode_at
HasMode-mode_of send_ts ev mode (kind, ((v, (time, later)), (d, s, (data', (stats, found))))) =
    let fresh : is_stale send_ts (get "_received_at" ev) ≡ ok false =
      ap (is_stale send_ts) time ∙ IsLater-is_stale send_ts v later in
    let outer : get_or "data" (obj end) ev ≡ obj d = rw (data', get_or) refl in
    let inner : get_or "job_statistics" (obj end) d ≡ obj s = rw (stats, get_or) refl in
    rw (text-has_type _ ev kind) (rw fresh (rw outer (rw inner (ap ok found))))
