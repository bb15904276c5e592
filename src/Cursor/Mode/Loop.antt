-- ===== src/Cursor/Mode/Loop.antt =====
-- What the wait for a work mode returns.
use sas_tests.Prelude.{
  ltb, ltb→lt, Bool-cases, Option-cases, length, drop, first, drop-append, Outcome-cases, Outcome,
  ok, ℕ, zero, suc, ◌+◌, ◌-◌, ◌≤◌, ◌<◌, String, ◌≡◌, refl, sym, ap, ◌∙◌, ◌⊎◌, inl, inr, Option,
  none, some, List, [], ◌++◌, append-nil, append_assoc, arith,
}
use mathlib.Core.Path.{subst, ap₂}
use sas_tests.Json.{Json, Dict}
use sas_tests.Events.{count}
use sas_tests.Client.{Client, Frames, recv_loop}
use sas_tests.Cursor.Scan.{recv_loop-Extends, first-append_none}
use sas_tests.Cursor.Mode.{or_nothing, slept, mode_loop, wait_work_mode_after}
use sas_tests.Cursor.Mode.Once.{decides, latest, told, latest-append, scan-none, scan-some}
use sas_tests.Json.{Json, Dict}
use sas_tests.Client.{Client, Frames}
use sas_tests.Cursor.Scan.{first-append_none}
use sas_tests.Cursor.Mode.{or_nothing, mode_loop}
use sas_tests.Cursor.Mode.Once.{decides, latest, told, latest-append, scan-none, scan-some}

module _ (late busy : ℕ → ℕ) (arrive : ℕ → Frames) (send_ts : ℕ) (expected : String) where
  -- The events of the log behind `before`, none of which ends the wait.
  abbrev pub Passed : List Dict → List Dict → Client → Type 0
  Passed before new c =
      (c.log.events ≡ before ++ new) × (first (decides send_ts expected) new ≡ none)

  -- The mode of the last of some events that has one, or the empty text.
  abbrev pub last_of : List Dict → Outcome Json
  last_of evs = ok (or_nothing (latest send_ts evs none))

  -- How the round at `now` ends the call. The rounds before it have looked at `seen`. Either the time
  -- is over; or the first event behind `before` that ends the wait does so; or there is none such and
  -- the time is over after the look.
  abbrev pub Ends : List Dict → ℕ → List Dict → ℕ → Client → Outcome Json → Type 0
  Ends before deadline seen now c r =
      ((deadline ≤ now) × (r ≡ last_of seen))
      ⊎ ((now < deadline)
          × ((new : List Dict) × (((ev : Dict) × ((c.log.events ≡ before ++ new)
                    × ((first (decides send_ts expected) new ≡ some ev)
                        × (r ≡ told send_ts expected ev))))
                ⊎ (Passed before new c × ((deadline ≤ now + busy now) × (r ≡ last_of new))))))

  -- The call ends after `k` sleeps. Each of the rounds before was in time and looked at all the events
  -- behind `before`, none of which ends the wait.
  abbrev pub After : ℕ → List Dict → ℕ → List Dict → ℕ → Client → Outcome Json → Client → Type 0
  After zero before deadline seen now c r c' = Ends before deadline seen now c r × (c' ≡ c)
  After (suc k) before deadline seen now c r c' =
      let looked = now + busy now in
      (looked < deadline)
      × ((new : List Dict) × (Passed before new c
            × After k before deadline new (slept late busy arrive send_ts expected deadline looked)
                (recv_loop (arrive looked) c) r c'))

  abbrev pub Returned :
      List Dict → ℕ → List Dict → ℕ → Client → Option (Outcome Json × Client) → Type 0
  Returned before deadline seen now c none = ⊥
  Returned before deadline seen now c (some (r, c')) =
      (k : ℕ) × After k before deadline seen now c r c'

  again :
      (before : List Dict) (deadline : ℕ) (seen new : List Dict) (now : ℕ) (c : Client)
      (x : Option (Outcome Json × Client))
      → now + busy now < deadline
      → Passed before new c
      → Returned before deadline new
          (slept late busy arrive send_ts expected deadline (now + busy now))
          (recv_loop (arrive (now + busy now)) c)
          x
      → Returned before deadline seen now c x
  again before deadline seen new now c none more passed h = h
  again before deadline seen new now c (some (r, c')) more passed (k, h) =
      (suc k, (more, (new, (passed, h))))

  mode_loop-Returned :
      (fuel deadline now : ℕ) (before seen unseen : List Dict) (c : Client)
      → deadline - now < fuel
      → c.log.events ≡ before ++ (seen ++ unseen)
      → first (decides send_ts expected) seen ≡ none
      → Returned before deadline seen now c (
          mode_loop late busy arrive send_ts expected fuel deadline now
            (length (before ++ seen))
            (latest send_ts seen none)
            c)
  unfolding mode_loop
  mode_loop-Returned zero deadline now before seen unseen c h e no_hit = absurd (omega arith)
  mode_loop-Returned (suc fuel) deadline now before seen unseen c h e no_hit =
      let whole = e ∙ sym (append_assoc before seen unseen) in
      let fresh : drop (length (before ++ seen)) c.log.events ≡ unseen =
        ap (drop (length (before ++ seen))) whole ∙ drop-append (before ++ seen) unseen in
      let found = first-append_none (decides send_ts expected) seen unseen no_hit in
      let newest = latest-append send_ts seen unseen none in
      elim (Bool-cases (ltb now deadline)) [
        | inr over ↦ rw over (0, (inl (ground (arith, over), refl), refl))
        | inl going ↦ elim (Option-cases (first (decides send_ts expected) unseen)) [
          | inr (ev, ended) ↦
              (let early = ltb→lt now deadline going in
                rw
                  (
                    going,
                    fresh,
                    scan-some send_ts expected unseen (latest send_ts seen none) ev ended,
                  )
                  (elim (Outcome-cases (told send_ts expected ev)) [
                    | inl (x, q) ↦ rw q (
                      0,
                      (inr (early, (seen ++ unseen, inl (ev, (e, (found ∙ ended, sym q))))), refl),
                    )
                    | inr (v, q) ↦ rw q (
                      0,
                      (inr (early, (seen ++ unseen, inl (ev, (e, (found ∙ ended, sym q))))), refl),
                    )
                  ]))
          | inl missed ↦
              rw (going, fresh, scan-none send_ts expected unseen (latest send_ts seen none) missed)
                (elim (Bool-cases (ltb (now + busy now) deadline)) [
                  | inr late_now ↦ rw late_now (
                    0,
                    (
                      inr (
                        ltb→lt now deadline going,
                        (
                          seen ++ unseen,
                          inr (
                            (e, found ∙ missed),
                            (ground (arith, late_now), ap (λ o. ok (or_nothing o)) (sym newest)),
                          ),
                        ),
                      ),
                      refl,
                    ),
                  )
                  | inl more ↦
                      (let looked = now + busy now in
                        let later = slept late busy arrive send_ts expected deadline looked in
                        let c' = recv_loop (arrive looked) c in
                        let (zs, grown) = recv_loop-Extends (arrive looked) c in
                        let next =
                          mode_loop-Returned fuel deadline later before (seen ++ unseen) zs c'
                            (omega (arith, ltb→lt looked deadline more))
                            (grown ∙ ap (λ l. l ++ zs) e ∙ append_assoc before (seen ++ unseen) zs)
                            (found ∙ missed) in
                        rw more (
                          subst
                            (λ (x : List Dict × Option Json). Returned before deadline seen now c (
                              mode_loop late busy arrive send_ts expected fuel deadline later
                                (length x.0) x.1 c'))
                            (ap₂ (λ (l : List Dict) (o : Option Json). (l, o)) (sym e) newest)
                            (again before deadline seen (seen ++ unseen) now c _
                              (ltb→lt looked deadline more) (e, found ∙ missed) next)))
                ])
        ]
      ]

  -- The whole call, in terms of `decides` and `told`.
  pub wait_work_mode_after-Returned :
      (fuel timeout now : ℕ) (c : Client)
      → timeout < fuel
      → Returned c.log.events
          (now + timeout)
          []
          now
          c
          (wait_work_mode_after late busy arrive send_ts expected fuel timeout now c)
  unfolding wait_work_mode_after count latest
  wait_work_mode_after-Returned fuel timeout now c h =
      subst
        (λ l.
          Returned c.log.events (now + timeout) [] now c (
            mode_loop late busy arrive send_ts expected fuel (now + timeout) now (length l) none c))
        (append-nil c.log.events)
        (mode_loop-Returned fuel (now + timeout) now c.log.events [] [] c (omega arith)
          (sym (append-nil c.log.events)) refl)
