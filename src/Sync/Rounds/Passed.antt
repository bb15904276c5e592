-- ===== src/Sync/Rounds/Passed.antt =====
-- What `main` has seen where it ends with status 0.
use sas_tests.Prelude.{
  if◌then◌else◌, ◌>>=◌, Outcome, ok, raised, ℕ, zero, suc, ◌+◌, String, ◌≡◌, refl, ap, Bool, true,
  false, List, [], ◌∷◌, arith,
}
use mathlib.Core.Path.{subst}
use sas_tests.Json.{Json}
use sas_tests.Client.{Frame, Sent, json}
use sas_tests.Sync.{recv_until, succeeded, check_mode}
use sas_tests.Sync.Rounds.{
  login_message, read_login, Tally, try_mode, try_modes, run_rounds, status, main,
}

-- What has been sent and what is still to come, after the checks of some modes.
abbrev pub gone_on : List String → List Sent × List Frame → List Sent × List Frame
gone_on [] s = s
gone_on (mode ∷ modes) s = let (r, sent, fs) = check_mode mode s.0 s.1 in gone_on modes (sent, fs)

-- Each check passes, the next from where the one before has stopped to read.
abbrev pub Passing : List String → List Sent × List Frame → Type 0
Passing [] s = Unit {0}
Passing (mode ∷ modes) s =
    let (r, sent, fs) = check_mode mode s.0 s.1 in (r ≡ ok true) × Passing modes (sent, fs)

abbrev pub PassingRounds : ℕ → List Sent × List Frame → Type 0
PassingRounds zero s = Unit {0}
PassingRounds (suc n) s =
    let modes = "module" ∷ "screw" ∷ [] in Passing modes s × PassingRounds n (gone_on modes s)

-- A count of failures that ends at zero.
abbrev Clean : List String → ℕ → List Sent × List Frame → Tally → Type 0
Clean modes failures s t =
    (failures ≡ 0) × (Passing modes s × ((t.1 ≡ (gone_on modes s).0) × (t.2 ≡ (gone_on modes s).1)))

try_modes_lem :
    (modes : List String) (failures : ℕ) (sent : List Sent) (fs : List Frame)
    → (try_modes modes failures sent fs).0 ≡ ok 0
    → Clean modes failures (sent, fs) (try_modes modes failures sent fs)
unfolding try_modes try_mode
try_modes_lem [] failures sent fs h = (ground arith, (tt, (refl, refl)))
try_modes_lem (mode ∷ modes) failures sent fs h =
    let c = check_mode mode sent fs in by_check c.0 refl (λ k. try_modes_lem modes k c.1 c.2) h
  where
    by_check :
        (r : Outcome Bool)
        → (check_mode mode sent fs).0 ≡ r
        → ((k : ℕ)
            → (try_modes modes k (check_mode mode sent fs).1 (check_mode mode sent fs).2).0 ≡ ok 0
            → Clean modes k
                ((check_mode mode sent fs).1, (check_mode mode sent fs).2)
                (try_modes modes k (check_mode mode sent fs).1 (check_mode mode sent fs).2))
        → (elim (r >>= (λ fine. ok (if fine then failures else failures + 1))) as (λ o. Tally) [
          | raised e ↦ (raised e, (check_mode mode sent fs).1, (check_mode mode sent fs).2)
          | ok k ↦ try_modes modes k (check_mode mode sent fs).1 (check_mode mode sent fs).2
        ]).0
          ≡ ok 0
        → Clean
            (mode ∷ modes)
            failures
            (sent, fs)
            (elim (r >>= (λ fine. ok (if fine then failures else failures + 1))) as (λ o. Tally) [
              | raised e ↦ (raised e, (check_mode mode sent fs).1, (check_mode mode sent fs).2)
              | ok k ↦ try_modes modes k (check_mode mode sent fs).1 (check_mode mode sent fs).2
            ])
    by_check (raised e) same go h = cc
    by_check (ok true) same go h =
        let (none_yet, (all, left)) = go failures h in (none_yet, ((same, all), left))
    by_check (ok false) same go h =
        let (none_yet, rest) = go (failures + 1) h in absurd (omega arith)

run_rounds_lem :
    (n failures : ℕ) (sent : List Sent) (fs : List Frame)
    → (run_rounds n failures sent fs).0 ≡ ok 0
    → (failures ≡ 0) × PassingRounds n (sent, fs)
unfolding run_rounds
run_rounds_lem zero failures sent fs h = (ground arith, tt)
run_rounds_lem (suc n) failures sent fs h =
    let modes = "module" ∷ "screw" ∷ [] in
    by_modes (try_modes modes failures sent fs) (try_modes_lem modes failures sent fs)
      (λ k s g. run_rounds_lem n k s g) h
  where
    by_modes :
        (t : Tally)
        → (t.0 ≡ ok 0 → Clean ("module" ∷ "screw" ∷ []) failures (sent, fs) t)
        → ((k : ℕ) (s : List Sent) (g : List Frame)
            → (run_rounds n k s g).0 ≡ ok 0
            → (k ≡ 0) × PassingRounds n (s, g))
        → (elim t.0 as (λ o. Tally) [
          | raised e ↦ (raised e, t.1, t.2)
          | ok k ↦ run_rounds n k t.1 t.2
        ]).0
          ≡ ok 0
        → (failures ≡ 0) × PassingRounds (suc n) (sent, fs)
    by_modes (raised e, s, g) clean go h = cc
    by_modes (ok k, s, g) clean go h =
        let (zero_k, rest) = go k s g h in
        let (none_yet, (all, (e, e'))) = clean (ap ok zero_k) in
        (
          none_yet,
          (
            all,
            subst (λ x. PassingRounds n (x, (gone_on ("module" ∷ "screw" ∷ []) (sent, fs)).1)) e
                (subst (λ y. PassingRounds n (s, y)) e' rest),
          ),
        )

status_lem : (r : Outcome ℕ) → status r ≡ ok 0 → r ≡ ok 0
status_lem (raised e) h = cc
status_lem (ok k) h = ground arith

-- What `main` does once the login is answered.
abbrev logged_in : ℕ → Outcome Bool → List Frame → Tally
logged_in rounds o rest =
    let sent = json login_message ∷ [] in
    elim o [
      | raised e ↦ (raised e, sent, rest)
      | ok fine ↦
          if fine
          then (let (r, sent', fs) = run_rounds rounds 0 sent rest in (status r, sent', fs))
          else (ok 1, sent, rest)
    ]

logged_in_lem :
    (rounds : ℕ) (o : Outcome Bool) (rest : List Frame)
    → (logged_in rounds o rest).0 ≡ ok 0
    → (o ≡ ok true) × PassingRounds rounds (json login_message ∷ [], rest)
logged_in_lem rounds (raised e) rest h = cc
logged_in_lem rounds (ok false) rest h = absurd (ground arith)
logged_in_lem rounds (ok true) rest h =
    let sent = json login_message ∷ [] in
    let r = (run_rounds rounds 0 sent rest).0 in
    (refl, (run_rounds_lem rounds 0 sent rest (status_lem r h)).1)

-- Where `main` ends with status 0, the backend has confirmed the login, and in each of the rounds the
-- check of a switch to `module` and then that of a switch to `screw` have passed, each from where the
-- one before had stopped to read.
pub main_lem :
    (rounds : ℕ) (fs : List Frame)
    → (main rounds fs).0 ≡ ok 0
    → (resp : Json) × ((rest : List Frame) × ((recv_until read_login fs ≡ (ok resp, rest))
          × ((succeeded resp ≡ ok true) × PassingRounds rounds (json login_message ∷ [], rest))))
unfolding main
main_lem rounds fs = by_login (recv_until read_login fs) refl
  where
    by_login :
        (l : Outcome Json × List Frame)
        → recv_until read_login fs ≡ l
        → (logged_in rounds (l.0 >>= succeeded) l.1).0 ≡ ok 0
        → (resp : Json) × ((rest : List Frame) × ((recv_until read_login fs ≡ (ok resp, rest))
              × ((succeeded resp ≡ ok true)
                  × PassingRounds rounds (json login_message ∷ [], rest))))
    by_login (raised e, rest) read h = cc
    by_login (ok resp, rest) read h =
        let (success, passed) = logged_in_lem rounds (succeeded resp) rest h in
        (resp, (rest, (read, (success, passed))))
