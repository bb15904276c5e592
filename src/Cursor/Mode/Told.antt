-- ===== src/Cursor/Mode/Told.antt =====
-- What the wait for a work mode returns, told by the fields of the events.
use sas_tests.Prelude.{
  first, All, Outcome, ℕ, zero, suc, ◌+◌, ◌≤◌, ◌<◌, String, ◌≡◌, ◌⊎◌, inl, inr, Option, none, some,
  List, [], ◌∷◌, ◌++◌,
}
use sas_tests.Json.{Json, Dict}
use sas_tests.Client.{Client, Frames, recv_loop}
use sas_tests.Cursor.Mode.{slept, wait_work_mode_after}
use sas_tests.Cursor.Mode.Once.{decides}
use sas_tests.Cursor.Mode.Loop.{Ends, After, Returned, wait_work_mode_after-Returned}
use sas_tests.Cursor.Mode.Decisions.{
  first-none-All, first-some-All, All-map, IsOther, Decided, IsLast, IsOther_lem, Decided_lem,
  latest-IsLast,
}

module _ (send_ts : ℕ) (expected : String) (late busy : ℕ → ℕ) (arrive : ℕ → Frames) where
  -- How the round at `now` ends the call. The rounds before it have looked at `seen`. Either the
  -- time is over; or an event behind `before` ends the wait, and none before it does; or none does,
  -- and the time is over after the look.
  abbrev pub Concludes : List Dict → ℕ → List Dict → ℕ → Client → Outcome Json → Type 0
  Concludes before deadline seen now c r =
      ((deadline ≤ now) × IsLast send_ts expected seen r)
      ⊎ ((now < deadline)
          × ((new : List Dict) × ((c.log.events ≡ before ++ new)
                × (((passed after : List Dict) × (ev : Dict) × ((new ≡ passed ++ ev ∷ after)
                        × (All (IsOther send_ts expected) passed × Decided send_ts expected ev r)))
                    ⊎ (All (IsOther send_ts expected) new
                        × ((deadline ≤ now + busy now) × IsLast send_ts expected new r))))))

  -- The call ends after `k` sleeps. Each of the rounds before was in time and looked at all the
  -- events behind `before`, none of which ends the wait.
  abbrev pub Rounds : ℕ → List Dict → ℕ → List Dict → ℕ → Client → Outcome Json → Client → Type 0
  Rounds zero before deadline seen now c r c' = Concludes before deadline seen now c r × (c' ≡ c)
  Rounds (suc k) before deadline seen now c r c' =
      let looked = now + busy now in
      (looked < deadline)
      × ((new : List Dict) × (((c.log.events ≡ before ++ new) × All (IsOther send_ts expected) new)
            × Rounds k before deadline new (slept late busy arrive send_ts expected deadline looked)
                (recv_loop (arrive looked) c) r c'))

  abbrev pub Returns :
      List Dict → ℕ → List Dict → ℕ → Client → Option (Outcome Json × Client) → Type 0
  Returns before deadline seen now c none = ⊥
  Returns before deadline seen now c (some (r, c')) =
      (k : ℕ) × Rounds k before deadline seen now c r c'

  others :
      (new : List Dict)
      → first (decides send_ts expected) new ≡ none
      → All (IsOther send_ts expected) new
  others new h =
      All-map new (IsOther_lem send_ts expected) (first-none-All (decides send_ts expected) new h)

  Ends-Concludes :
      (before : List Dict) (deadline : ℕ) (seen : List Dict) (now : ℕ) (c : Client)
      (r : Outcome Json)
      → Ends late busy arrive send_ts expected before deadline seen now c r
      → Concludes before deadline seen now c r
  Ends-Concludes before deadline seen now c r (inl (over, q)) =
      inl (over, rw q (latest-IsLast send_ts expected seen))
  Ends-Concludes before deadline seen now c r (inr (early, (new, inl (ev, (grown, (ended, q)))))) =
      let (passed, after, (parts, (all, d))) =
        first-some-All (decides send_ts expected) new ev ended in
      inr (
        early,
        (
          new,
          (
            grown,
            inl (
              passed,
              after,
              ev,
              (
                parts,
                (
                  All-map passed (IsOther_lem send_ts expected) all,
                  rw q (Decided_lem send_ts expected ev d),
                ),
              ),
            ),
          ),
        ),
      )
  Ends-Concludes before deadline seen now c r
        (inr (early, (new, inr ((grown, missed), (over, q))))) =
      inr (
        early,
        (new, (grown, inr (others new missed, (over, rw q (latest-IsLast send_ts expected new))))),
      )

  After-Rounds :
      (k : ℕ) (before : List Dict) (deadline : ℕ) (seen : List Dict) (now : ℕ) (c : Client)
      (r : Outcome Json) (c' : Client)
      → After late busy arrive send_ts expected k before deadline seen now c r c'
      → Rounds k before deadline seen now c r c'
  After-Rounds zero before deadline seen now c r c' (ends, same) =
      (Ends-Concludes before deadline seen now c r ends, same)
  After-Rounds (suc k) before deadline seen now c r c' (more, (new, ((grown, missed), rest))) =
      (more, (new, ((grown, others new missed), After-Rounds k before deadline new _ _ r c' rest)))

  Returned-Returns :
      (before : List Dict) (deadline now : ℕ) (c : Client) (x : Option (Outcome Json × Client))
      → Returned late busy arrive send_ts expected before deadline [] now c x
      → Returns before deadline [] now c x
  Returned-Returns before deadline now c none h = h
  Returned-Returns before deadline now c (some (r, c')) (k, h) =
      (k, After-Rounds k before deadline [] now c r c' h)

  -- With more fuel than milliseconds of waiting, the wait ends, whatever arrives and however late
  -- the sleeps and the looks end, in a round before which each round was in time and saw, among all
  -- the events that had reached the log after the call began, none that is a status received after
  -- `send_ts` with the expected mode and none on which the tests raise. In the last round, before
  -- the deadline, the first such event ends the wait, which returns the expected mode or raises that
  -- exception; or there is none, and the deadline has come, before the look or after it: the wait
  -- then returns the mode of the last event it looked at that has a mode, or the empty text where
  -- that mode is falsy or no event has one.
  pub wait_work_mode_after-Returns :
      (fuel timeout now : ℕ) (c : Client)
      → timeout < fuel
      → Returns c.log.events
          (now + timeout)
          []
          now
          c
          (wait_work_mode_after late busy arrive send_ts expected fuel timeout now c)
  wait_work_mode_after-Returns fuel timeout now c h =
      Returned-Returns c.log.events (now + timeout) now c _
        (wait_work_mode_after-Returned late busy arrive send_ts expected fuel timeout now c h)
