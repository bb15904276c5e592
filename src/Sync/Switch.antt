-- ===== src/Sync/Switch.antt =====
-- What a check that passes has read.
use sas_tests.Prelude.{
  All, ◌>>=◌, Outcome, ok, raised, String, ◌≡◌, refl, ap, ◌∙◌, Bool, true, ◌&&◌, Option, none, some,
  List, [], ◌∷◌, ◌++◌, arith,
}
use sas_tests.Json.{Json}
use sas_tests.Events.{is_text}
use sas_tests.Client.{Frame, garbage, closed, value, Sent, raw, json}
use sas_tests.Sync.{
  go_on, switch_message, recv_until, get_of, equals, read_ack, read_params, read_status, succeeded,
  check_pushed, check_stored, check_mode,
}

-- A frame that the predicate passes over.
abbrev pub Skipped : (Json → Outcome (Option Json)) → Frame → Type 0
Skipped p garbage = Unit {0}
Skipped p closed = ⊥
Skipped p (value m) = p m ≡ ok none

-- The first message that is not passed over gives the value, and the rest comes after it.
abbrev pub Reads : (Json → Outcome (Option Json)) → List Frame → Outcome Json × List Frame → Type 0
Reads p fs (raised e, rest) = Unit {0}
Reads p fs (ok a, rest) =
    (before : List Frame) × ((m : Json) × ((fs ≡ before ++ value m ∷ rest)
        × ((p m ≡ ok (some a)) × All (Skipped p) before)))

skip :
    (p : Json → Outcome (Option Json)) (f : Frame) (fs : List Frame) (r : Outcome Json × List Frame)
    → Skipped p f
    → Reads p fs r
    → Reads p (f ∷ fs) r
skip p f fs (raised e, rest) s h = tt
skip p f fs (ok a, rest) s (before, (m, (eq, (hit, over)))) =
    (f ∷ before, (m, (ap (λ l. f ∷ l) eq, (hit, (s, over)))))

recv_until-Reads :
    (p : Json → Outcome (Option Json)) (fs : List Frame) → Reads p fs (recv_until p fs)
unfolding recv_until
recv_until-Reads p [] = tt
recv_until-Reads p (closed ∷ fs) = tt
recv_until-Reads p (garbage ∷ fs) = skip p garbage fs _ tt (recv_until-Reads p fs)
recv_until-Reads p (value m ∷ fs) = by_result (p m) refl (recv_until-Reads p fs)
  where
    by_result :
        (r : Outcome (Option Json))
        → p m ≡ r
        → Reads p fs (recv_until p fs)
        → Reads p (value m ∷ fs) (elim r [
          | raised e ↦ (raised e, fs)
          | ok found ↦ elim found [ some a ↦ (ok a, fs) | none ↦ recv_until p fs ]
        ])
    by_result (raised e) h later = tt
    by_result (ok none) h later = skip p (value m) fs _ h later
    by_result (ok (some a)) h later = ([], (m, (refl, (h, tt))))

-- A part of the check has passed: from the list on, it reads a pushed mode that is the one switched
-- to.
abbrev pub Pushed : String → List Frame → Type 0
Pushed mode fs =
    (w : Json) × ((rest : List Frame) × (Reads read_status fs (ok w, rest)
        × (is_text mode w ≡ true)))

abbrev pub Stored : String → List Frame → Type 0
Stored mode fs =
    (params : Json) × ((v : Option Json) × ((rest : List Frame) × (Reads read_params fs
            (ok params, rest)
          × ((get_of "WorkMode" params ≡ ok v) × ((equals mode v ≡ true) × Pushed mode rest)))))

check_pushed_lem :
    (mode : String) (fine : Bool) (sent : List Sent) (fs : List Frame)
    → (check_pushed mode fine sent fs).0 ≡ ok true
    → (fine ≡ true) × Pushed mode fs
unfolding check_pushed
check_pushed_lem mode fine sent fs =
    by_read (recv_until read_status fs) (recv_until-Reads read_status fs)
  where
    by_read :
        (r : Outcome Json × List Frame)
        → Reads read_status fs r
        → (r.0 >>= (λ w. ok (fine && is_text mode w))) ≡ ok true
        → (fine ≡ true) × Pushed mode fs
    by_read (raised e, rest) reads h = absurd (ground arith)
    by_read (ok w, rest) reads h = (ground arith, (w, (rest, (reads, ground arith))))

check_stored_lem :
    (mode : String) (fine : Bool) (sent : List Sent) (fs : List Frame)
    → (check_stored mode fine sent fs).0 ≡ ok true
    → (fine ≡ true) × Stored mode fs
unfolding check_stored
check_stored_lem mode fine sent fs =
    by_read (recv_until read_params fs) (recv_until-Reads read_params fs)
  where
    by_mode :
        (params : Json) (rest : List Frame) (v : Outcome (Option Json))
        → get_of "WorkMode" params ≡ v
        → Reads read_params fs (ok params, rest)
        → (go_on v (sent ++ raw "data:request:system_params" ∷ []) rest λ stored.
            check_pushed mode
              (fine && equals mode stored)
              (sent ++ raw "data:request:system_params" ∷ [])
              rest).0
          ≡ ok true
        → (fine ≡ true) × Stored mode fs
    by_mode params rest (raised e) eq reads h = absurd (ground arith)
    by_mode params rest (ok v) eq reads h =
        let (both, pushed) =
          check_pushed_lem mode (fine && equals mode v)
            (sent ++ raw "data:request:system_params" ∷ []) rest h in
        (ground arith, (params, (v, (rest, (reads, (eq, (ground arith, pushed)))))))

    by_read :
        (r : Outcome Json × List Frame)
        → Reads read_params fs r
        → (go_on
            (r.0 >>= (λ params. get_of "WorkMode" params))
            (sent ++ raw "data:request:system_params" ∷ [])
            r.1
            λ stored.
              check_pushed mode
                (fine && equals mode stored)
                (sent ++ raw "data:request:system_params" ∷ [])
                r.1).0
          ≡ ok true
        → (fine ≡ true) × Stored mode fs
    by_read (raised e, rest) reads h = absurd (ground arith)
    by_read (ok params, rest) reads h = by_mode params rest (get_of "WorkMode" params) refl reads h

-- Where `check_mode` passes, the backend has sent, in this order, a confirmation with success, the
-- stored parameters with the new mode and a status with the new mode, each the first message of its
-- kind after the one before.
pub check_mode_lem :
    (mode : String) (sent : List Sent) (fs : List Frame)
    → (check_mode mode sent fs).0 ≡ ok true
    → (ack : Json) × ((rest : List Frame) × (Reads read_ack fs (ok ack, rest)
          × ((succeeded ack ≡ ok true) × Stored mode rest)))
unfolding check_mode
check_mode_lem mode sent fs = by_read (recv_until read_ack fs) (recv_until-Reads read_ack fs)
  where
    by_ack :
        (ack : Json) (rest : List Frame) (v : Outcome Bool)
        → succeeded ack ≡ v
        → Reads read_ack fs (ok ack, rest)
        → (go_on v
            (sent ++ json (switch_message mode) ∷ [])
            rest
            λ fine. check_stored mode fine (sent ++ json (switch_message mode) ∷ []) rest).0
          ≡ ok true
        → (ack : Json) × ((rest : List Frame) × (Reads read_ack fs (ok ack, rest)
              × ((succeeded ack ≡ ok true) × Stored mode rest)))
    by_ack ack rest (raised e) eq reads h = absurd (ground arith)
    by_ack ack rest (ok fine) eq reads h =
        let (passed, stored) =
          check_stored_lem mode fine (sent ++ json (switch_message mode) ∷ []) rest h in
        (ack, (rest, (reads, (eq ∙ ap ok passed, stored))))

    by_read :
        (r : Outcome Json × List Frame)
        → Reads read_ack fs r
        → (go_on
            (r.0 >>= succeeded)
            (sent ++ json (switch_message mode) ∷ [])
            r.1
            λ fine. check_stored mode fine (sent ++ json (switch_message mode) ∷ []) r.1).0
          ≡ ok true
        → (ack : Json) × ((rest : List Frame) × (Reads read_ack fs (ok ack, rest)
              × ((succeeded ack ≡ ok true) × Stored mode rest)))
    by_read (raised e, rest) reads h = absurd (ground arith)
    by_read (ok ack, rest) reads h = by_ack ack rest (succeeded ack) refl reads h
