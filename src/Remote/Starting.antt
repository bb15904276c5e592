-- ===== src/Remote/Starting.antt =====
-- lib/ssh_utils.py: `wait_until_ready`. A probe is an attempt to connect to the backend: whether it
-- opens, if it begins at a time, and the milliseconds it takes. `late` is how much longer than a
-- second the sleep takes that begins at a time.
use sas_tests.Prelude.{
  ltb, if◌then◌else◌, ltb→lt, Bool-cases, Outcome, timeout_error, ok, raised, ℕ, zero, suc, ◌+◌,
  ◌-◌, ◌*◌, ◌≤◌, ◌<◌, ◌≡◌, refl, inl, inr, Bool, true, false, Option, none, some, arith,
}

module _ (opens : ℕ → Bool) (takes late : ℕ → ℕ) where
  -- The time after a probe that failed and the sleep.
  abbrev retry : ℕ → ℕ
  retry now = let failed = now + takes now in failed + 1000 + late failed

  -- The loop. `none` stands for a run that the fuel cut short.
  unfoldable pub ready_loop : ℕ → ℕ → ℕ → Option (Outcome (Unit {0}))
  ready_loop zero deadline now = none
  ready_loop (suc fuel) deadline now =
      let rest = ready_loop fuel deadline (retry now) in
      if ltb now deadline
      then (if opens now then some (ok tt) else rest)
      else some (raised timeout_error)

  -- `wait_until_ready`: the times are in milliseconds.
  unfoldable pub wait_until_ready : ℕ → ℕ → ℕ → Option (Outcome (Unit {0}))
  unfolding ready_loop
  wait_until_ready fuel timeout now = ready_loop fuel (now + timeout) now

  -- The time at which the probe of the number begins, if those before it failed.
  abbrev probe_at : ℕ → ℕ → ℕ
  probe_at zero now = now
  probe_at (suc k) now = probe_at k (retry now)

  -- All probes of a lower number fail.
  abbrev Fail : ℕ → ℕ → Type 0
  Fail zero now = Unit {0}
  Fail (suc k) now = (opens now ≡ false) × Fail k (retry now)

  abbrev pub Ended : ℕ → ℕ → Option (Outcome (Unit {0})) → Type 0
  Ended deadline now none = ⊥
  Ended deadline now (some (ok u)) =
      (k : ℕ) × (Fail k now × ((opens (probe_at k now) ≡ true) × (probe_at k now < deadline)))
  Ended deadline now (some (raised e)) =
      (e ≡ timeout_error) × ((k : ℕ) × (Fail k now × (deadline ≤ probe_at k now)))

  later :
      (deadline now : ℕ)
      → opens now ≡ false
      → (r : Option (Outcome (Unit {0}))) → Ended deadline (retry now) r
      → Ended deadline now r
  later deadline now h none bad = bad
  later deadline now h (some (ok u)) (k, (f, (yes', early))) = (suc k, ((h, f), (yes', early)))
  later deadline now h (some (raised e)) (e', (k, (f, over))) = (e', (suc k, ((h, f), over)))

  ready_loop-Ended :
      (fuel deadline now : ℕ)
      → deadline - now + 1000 ≤ fuel * 1000
      → Ended deadline now (ready_loop fuel deadline now)
  unfolding ready_loop
  ready_loop-Ended zero deadline now h = absurd (omega arith)
  ready_loop-Ended (suc fuel) deadline now h = elim (Bool-cases (ltb now deadline)) [
    | inr over ↦ rw over (refl, (0, (tt, ground arith)))
    | inl early ↦ elim (Bool-cases (opens now)) [
      | inl yes' ↦ simp (early, yes') (0, (tt, (yes', ltb→lt now deadline early)))
      | inr no' ↦
          simp (early, no')
            (later deadline now no' (ready_loop fuel deadline (retry now))
              (ready_loop-Ended fuel deadline (retry now) (ground arith)))
    ]
  ]

  -- With a step of fuel for each second of the timeout and one more, `wait_until_ready` ends: it
  -- returns after a probe that opened, begun before the deadline, the probes before it having
  -- failed, or it raises TimeoutError at or after the deadline, all its probes having failed.
  pub wait_until_ready-Ended :
      (fuel timeout now : ℕ)
      → timeout + 1000 ≤ fuel * 1000
      → Ended (now + timeout) now (wait_until_ready fuel timeout now)
  unfolding wait_until_ready
  wait_until_ready-Ended fuel timeout now h =
      ready_loop-Ended fuel (now + timeout) now (omega arith)
