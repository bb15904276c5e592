-- ===== src/Cursor/Scan.antt =====
-- The event log only grows, and what the cursor has passed need not be looked at again.
use sas_tests.Prelude.{
  if◌then◌else◌, first, ℕ, String, ◌≡◌, refl, sym, ap, ◌∙◌, Bool, true, false, Option, none, some,
  List, [], ◌∷◌, ◌++◌, append-nil, append_assoc, arith,
}
use sas_tests.Json.{Dict}
use sas_tests.Events.{push, stamp}
use sas_tests.Client.{
  Client, Frame, garbage, closed, value, Frames, Route, crash, drop as dropped, typed, untyped,
  route, dispatch, deliver, recv_loop, queue_of,
}

-- The second list is the first with some items behind it.
abbrev pub Extends : List Dict → List Dict → Type 0
Extends xs ys = (zs : List Dict) × (ys ≡ xs ++ zs)

deliver-Extends : (f : ℕ × Frame) (c : Client) → Extends c.log.events (deliver f c).log.events
unfolding deliver dispatch push
deliver-Extends (now, garbage) c = ([], sym (append-nil c.log.events))
deliver-Extends (now, closed) c = ([], sym (append-nil c.log.events))
deliver-Extends (now, value m) c = by_receiving c.receiving refl
  where
    same : Extends c.log.events c.log.events
    same = ([], sym (append-nil c.log.events))

    by_queue :
        (d : Dict) (o : Option (List Dict)) (t : String)
        → queue_of t c.pending ≡ o
        → Extends c.log.events (dispatch now (typed t d) c).log.events
    by_queue d none t e = (stamp now d ∷ [], ground arith)
    by_queue d (some q) t e = ([], ground (arith, append-nil c.log.events))

    by_route : (r : Route) → Extends c.log.events (dispatch now r c).log.events
    by_route (crash e) = same
    by_route dropped = same
    by_route (untyped d) = (stamp now d ∷ [], refl)
    by_route (typed t d) = by_queue d (queue_of t c.pending) t refl

    by_receiving :
        (b : Bool)
        → c.receiving ≡ b
        → Extends c.log.events
            (if c.receiving then dispatch now (route m) c else record c { now = now }).log.events
    by_receiving true e = simp e (by_route (route m))
    by_receiving false e = simp e same

pub recv_loop-Extends :
    (fs : Frames) (c : Client) → Extends c.log.events (recv_loop fs c).log.events
unfolding recv_loop
recv_loop-Extends [] c = ([], sym (append-nil c.log.events))
recv_loop-Extends (f ∷ fs) c =
    let (ys, e) = deliver-Extends f c in
    let (zs, h) = recv_loop-Extends fs (deliver f c) in
    (ys ++ zs, h ∙ ap (λ l. l ++ zs) e ∙ append_assoc c.log.events ys zs)

pub first-append_none {ℓ} :
    {A : Type ℓ} (p : A → Bool) (xs ys : List A)
    → first p xs ≡ none
    → first p (xs ++ ys) ≡ first p ys
first-append_none p [] ys h = refl
first-append_none p (x ∷ xs) ys h = ground (arith, first-append_none p xs ys)
