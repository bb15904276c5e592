-- ===== src/Client/Polling.antt =====
-- lib/ws_client.py: `wait_for_condition`, which polls the event log, and the calls built on it.
-- The sleeps are at least 50 ms, or what is left of the time: `late` is how much longer the one that
-- begins at a time takes, and `arrive` are the frames handled meanwhile.
use sas_tests.Prelude.{
  ltb, leb, if◌then◌else◌, Outcome, timeout_error, ok, raised, ℕ, zero, suc, ◌+◌, ◌-◌, ◌≤◌, ◌<◌,
  ◌≡◌, ◌⊎◌, Bool, Option, none, some, List, [], ◌∷◌,
}
use sas_tests.Json.{Dict}
use sas_tests.Events.{get_all}
use sas_tests.Client.{Client, Frames, recv_loop}

-- `for ev in all_events: if predicate(ev): return ev`; the predicate may raise.
unfoldable pub scan : (Dict → Outcome Bool) → List Dict → Outcome (Option Dict)
scan p [] = ok none
scan p (ev ∷ evs) =
    let rest = scan p evs in
    elim (p ev) [ raised e ↦ raised e | ok b ↦ if b then ok (some ev) else rest ]

abbrev pub smaller : ℕ → ℕ → ℕ
smaller a b = if ltb b a then b else a

module _ (late : ℕ → ℕ) (arrive : ℕ → Frames) where
  -- The time after `asyncio.sleep(min(0.05, remaining))`.
  abbrev pub slept : ℕ → ℕ → ℕ
  slept deadline now = now + smaller 50 (deadline - now) + late now

  -- The loop. `none` stands for a run that the fuel cut short.
  unfoldable pub wait_for_condition :
      ℕ → (Dict → Outcome Bool) → ℕ → ℕ → Client → Option (Outcome Dict × Client)
  unfolding scan get_all
  wait_for_condition zero p deadline now c = none
  wait_for_condition (suc fuel) p deadline now c =
      let rest =
        wait_for_condition fuel p deadline (slept deadline now) (recv_loop (arrive now) c) in
      elim (scan p (get_all none c.log)) [
        | raised e ↦ some (raised e, c)
        | ok found ↦ elim found [
          | some ev ↦ some (ok ev, c)
          | none ↦ if leb deadline now then some (raised timeout_error, c) else rest
        ]
      ]

  -- How the poll at `now` ends the call: with the oldest event of the log that passes, with what the
  -- predicate raised, or with a timeout, at the deadline or after it, over a log in which none passes.
  abbrev pub Settled : (Dict → Outcome Bool) → ℕ → ℕ → Client → Outcome Dict → Type 0
  Settled p deadline now c (ok ev) = scan p c.log.events ≡ ok (some ev)
  Settled p deadline now c (raised e) =
      (scan p c.log.events ≡ raised e)
      ⊎ ((e ≡ timeout_error) × ((deadline ≤ now) × (scan p c.log.events ≡ ok none)))

  -- The call ends after `k` sleeps. Before each of them no event passed and the time was not over.
  abbrev pub After : ℕ → (Dict → Outcome Bool) → ℕ → ℕ → Client → Outcome Dict → Client → Type 0
  After zero p deadline now c r c' = Settled p deadline now c r × (c' ≡ c)
  After (suc k) p deadline now c r c' =
      ((scan p c.log.events ≡ ok none) × (now < deadline))
      × After k p deadline (slept deadline now) (recv_loop (arrive now) c) r c'

  abbrev pub Answered :
      (Dict → Outcome Bool) → ℕ → ℕ → Client → Option (Outcome Dict × Client) → Type 0
  Answered p deadline now c none = ⊥
  Answered p deadline now c (some (r, c')) = (k : ℕ) × After k p deadline now c r c'
