-- ===== src/Cursor/Mode/Decisions.antt =====
-- The events that end the wait for a work mode, and the mode that it remembers, told by the fields of
-- the events.
use sas_tests.Prelude.{
  Bool-cases, first, All, Error, Outcome, ok, raised, ℕ, String, ◌≡◌, refl, sym, ap, ◌∙◌, ◌≢◌, ◌⊎◌,
  inl, inr, Bool, true, false, Option, none, some, List, [], ◌∷◌, ◌++◌, arith, eq_refl,
}
use sas_tests.Json.{Json, Dict, text}
use sas_tests.Events.{is_text}
use sas_tests.Cursor.Mode.{mode_of, or_nothing}
use sas_tests.Cursor.Mode.Once.{
  decides, newer, latest, told, Told, stumbles, no_mode, as_expected, other_mode, telling,
  is_text_eq,
}
use sas_tests.Cursor.Mode.Status.{HasMode, mode_of-HasMode, HasMode-mode_of}

pub first-none-All {ℓ} :
    {A : Type ℓ} (p : A → Bool) (xs : List A) → first p xs ≡ none → All (λ x. p x ≡ false) xs
first-none-All p [] h = tt
first-none-All p (x ∷ xs) h = elim (Bool-cases (p x)) [
  | inl yes_x ↦ ground (arith, yes_x)
  | inr no_x ↦ (no_x, first-none-All p xs (ground (arith, no_x)))
]

pub first-some-All {ℓ} :
    {A : Type ℓ} (p : A → Bool) (xs : List A) (x : A)
    → first p xs ≡ some x
    → (before after : List A) × ((xs ≡ before ++ x ∷ after)
        × (All (λ y. p y ≡ false) before × (p x ≡ true)))
first-some-All p [] x h = ground arith
first-some-All p (y ∷ xs) x h = elim (Bool-cases (p y)) [
  | inl yes_y ↦
      (let same : y ≡ x = ground arith in
        ([], xs, (ap (λ z. z ∷ xs) same, (tt, rw (sym same) yes_y))))
  | inr no_y ↦
      (let (before, after, (parts, (all, q))) = first-some-All p xs x (ground arith) in
        (y ∷ before, after, (ap (λ l. y ∷ l) parts, ((no_y, all), q))))
]

pub All-map {ℓ κ} :
    {A : Type ℓ} {P Q : A → Type κ} (xs : List A) → ((x : A) → P x → Q x) → All P xs → All Q xs
All-map [] f h = tt
All-map (x ∷ xs) f h = (f x h.0, All-map xs f h.1)

module _ (send_ts : ℕ) (expected : String) where
  -- An event without a mode.
  abbrev pub HasNone : Dict → Type 0
  HasNone ev = (mode : Json) → HasMode send_ts mode ev → ⊥

  -- The tests do not raise on an event, and it does not have the expected mode.
  abbrev pub IsOther : Dict → Type 0
  IsOther ev =
      ((o : Option Json) × (mode_of send_ts ev ≡ ok o)) × (HasMode send_ts (text expected) ev → ⊥)

  -- An event that ends the wait, and the result.
  abbrev pub Decided : Dict → Outcome Json → Type 0
  Decided ev r =
      (HasMode send_ts (text expected) ev × (r ≡ ok (text expected)))
      ⊎ ((e : Error) × ((mode_of send_ts ev ≡ raised e) × (r ≡ raised e)))

  -- The mode of the last of some events that has one, or the empty text where none has one.
  abbrev pub IsLast : List Dict → Outcome Json → Type 0
  IsLast evs r =
      (All HasNone evs × (r ≡ ok (text "")))
      ⊎ ((passed after : List Dict) × (ev : Dict) × (mode : Json) × ((evs ≡ passed ++ ev ∷ after)
            × (HasMode send_ts mode ev × (All HasNone after × (r ≡ ok (or_nothing (some mode)))))))

  pub IsOther_lem : (ev : Dict) → decides send_ts expected ev ≡ false → IsOther ev
  unfolding is_text
  IsOther_lem ev h = by_told (telling send_ts expected ev)
    where
      self : is_text expected (text expected) ≡ true
      self = eq_refl expected

      by_told : Told send_ts expected ev → IsOther ev
      by_told (stumbles e m d) = absurd (ground (arith, d, h))
      by_told (as_expected v m t d) = absurd (ground (arith, d, h))
      by_told (no_mode m d) = (
        (none, m),
        λ has.
            (let found = HasMode-mode_of send_ts ev (text expected) has in
              absurd (ground (arith, m, found))),
      )
      by_told (other_mode v m t d) = (
        (some v, m),
        λ has.
            (let found = sym m ∙ HasMode-mode_of send_ts ev (text expected) has in
              let same : v ≡ text expected = ground (arith, found) in
              let yes_v : is_text expected v ≡ true = rw same self in
              absurd (ground (arith, yes_v, t))),
      )

  pub Decided_lem :
      (ev : Dict) → decides send_ts expected ev ≡ true → Decided ev (told send_ts expected ev)
  unfolding told
  Decided_lem ev h = by_told (telling send_ts expected ev)
    where
      by_told : Told send_ts expected ev → Decided ev (told send_ts expected ev)
      by_told (stumbles e m d) = inr (e, (m, rw (m, told) refl))
      by_told (no_mode m d) = absurd (ground (arith, d, h))
      by_told (other_mode v m t d) = absurd (ground (arith, d, h))
      by_told (as_expected v m t d) = inl (
        mode_of-HasMode send_ts ev (text expected)
            (m ∙ ap (λ x. ok (some x)) (is_text_eq expected v t)),
        rw (m, told) refl,
      )

  -- What the memory of the wait holds.
  abbrev Held : Option Json → List Dict → Type 0
  Held l evs =
      (All HasNone evs × (latest send_ts evs l ≡ l))
      ⊎ ((passed after : List Dict) × (ev : Dict) × (mode : Json) × ((evs ≡ passed ++ ev ∷ after)
            × (HasMode send_ts mode ev × (All HasNone after × (latest send_ts evs l ≡ some mode)))))

  latest-Held : (evs : List Dict) (l : Option Json) → Held l evs
  unfolding latest
  latest-Held [] l = inl (tt, refl)
  latest-Held (ev ∷ evs) l = by_rest (latest-Held evs (newer send_ts l ev))
    where
      none_here :
          (o : Outcome (Option Json))
          → mode_of send_ts ev ≡ o
          → ((v : Json) → o ≢ ok (some v))
          → HasNone ev
      none_here o m other mode has = other mode (sym m ∙ HasMode-mode_of send_ts ev mode has)

      by_mode :
          (o : Outcome (Option Json))
          → mode_of send_ts ev ≡ o
          → All HasNone evs
          → latest send_ts evs (newer send_ts l ev) ≡ newer send_ts l ev
          → Held l (ev ∷ evs)
      by_mode (raised e) m all q =
          inl ((none_here (raised e) m (λ v x. cc), all), q ∙ rw (m, newer) refl)
      by_mode (ok none) m all q =
          inl (
            (none_here (ok none) m (λ v x. absurd (ground (arith, x))), all),
            q ∙ rw (m, newer) refl,
          )
      by_mode (ok (some v)) m all q =
          inr (
            [],
            evs,
            ev,
            v,
            (refl, (mode_of-HasMode send_ts ev v m, (all, q ∙ rw (m, newer) refl))),
          )

      by_rest : Held (newer send_ts l ev) evs → Held l (ev ∷ evs)
      by_rest (inl (all, q)) = by_mode (mode_of send_ts ev) refl all q
      by_rest (inr (passed, after, x, mode, (parts, (has, (all, q))))) =
          inr (ev ∷ passed, after, x, mode, (ap (λ l'. ev ∷ l') parts, (has, (all, q))))

  pub latest-IsLast : (evs : List Dict) → IsLast evs (ok (or_nothing (latest send_ts evs none)))
  latest-IsLast evs = by_held (latest-Held evs none)
    where
      by_held : Held none evs → IsLast evs (ok (or_nothing (latest send_ts evs none)))
      by_held (inl (all, q)) = inl (all, ap (λ o. ok (or_nothing o)) q)
      by_held (inr (passed, after, ev, mode, (parts, (has, (all, q))))) =
          inr (passed, after, ev, mode, (parts, (has, (all, ap (λ o. ok (or_nothing o)) q))))
