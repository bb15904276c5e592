-- ===== src/Client/Session/Conserved.antt =====
-- What a session does with the messages of a type: each is handed out once, in the order of arrival.
use sas_tests.Prelude.{
  take, All, ℕ, String, ◌≡◌, refl, sym, ap, ◌∙◌, true, some, List, [], ◌∷◌, ◌++◌, append-nil,
  append_assoc,
}
use sas_tests.Json.{Dict}
use sas_tests.Client.{Client, Frames, queue_of, recv_loop}
use sas_tests.Client.Routing.{is_harmless, of_type}
use sas_tests.Client.Waiting.{Reply, request, wait_for}
use sas_tests.Client.Stream.{Upcoming}
use sas_tests.Client.Session.{Call, asks, waits, idles, Answers, behind, do_call, session}
use sas_tests.Client.Session.Windows.{
  of_type-append, Harmless-split, take-append-behind, Upcoming-append, Upcoming-take,
  Upcoming-recv_loop,
}
use sas_tests.Client.Session.Handed.{handed, Handed, wait_for-Handed, request-Handed}

-- What a session handed out of a type, in order.
abbrev pub received : String → Answers → List Dict
received s [] = []
received s ((t, r) ∷ as') = handed s t r ++ received s as'

received-append :
    (s : String) (xs ys : Answers) → received s (xs ++ ys) ≡ received s xs ++ received s ys
received-append s [] ys = refl
received-append s ((t, r) ∷ xs) ys =
    ap (λ l. handed s t r ++ l) (received-append s xs ys)
    ∙ sym (append_assoc (handed s t r) (received s xs) (received s ys))

abbrev Kept : String → List Dict → Answers × Client × Frames → Type 0
Kept s ms (as', c, fs) = (rest : List Dict) × ((received s as' ++ rest ≡ ms) × Upcoming s rest c fs)

window-stream :
    {s : String} {ms : List Dict} {c : Client} {fs : Frames} (n : ℕ) (u : Upcoming s ms c fs)
    → (u.queue ++ of_type s (take n fs)) ++ of_type s (behind n fs) ≡ ms
window-stream {s} {ms} {c} {fs} n u =
    append_assoc u.queue (of_type s (take n fs)) (of_type s (behind n fs))
    ∙ ap (λ l. u.queue ++ l)
        (sym (of_type-append s (take n fs) (behind n fs))
          ∙ ap (of_type s) (take-append-behind n fs))
    ∙ u.stream

-- A call that keeps to its window keeps to the stream.
Handed-window :
    (s t : String) (n : ℕ) (ms : List Dict) (fs : Frames) (c : Client) (u : Upcoming s ms c fs)
    (r : Reply)
    → Handed s (u.queue ++ of_type s (take n fs)) t r
    → Kept s ms ((t, r.0) ∷ [], r.1, r.2 ++ behind n fs)
Handed-window s t n ms fs c u (r, c', fs') (rest, (e, u')) = (
  rest ++ of_type s (behind n fs),
  (
    ap (λ l. l ++ (rest ++ of_type s (behind n fs))) (append-nil (handed s t r))
        ∙ sym (append_assoc (handed s t r) rest (of_type s (behind n fs)))
        ∙ ap (λ l. l ++ of_type s (behind n fs)) e
        ∙ window-stream n u,
    Upcoming-append s rest c' fs' (behind n fs) u' (Harmless-split n fs u.harmless).1,
  ),
)

do_call-Kept :
    (s : String) (call : Call) (ms : List Dict) (fs : Frames) (c : Client)
    → Upcoming s ms c fs
    → Kept s ms (do_call call fs c)
unfolding do_call
do_call-Kept s (asks message t n) ms fs c u =
    Handed-window s t n ms fs c u (request message t (take n fs) c)
      (request-Handed s t message _ (take n fs) c (Upcoming-take n u))
do_call-Kept s (waits t n) ms fs c u =
    Handed-window s t n ms fs c u (wait_for t (take n fs) c)
      (wait_for-Handed s t _ (take n fs) c (Upcoming-take n u))
do_call-Kept s (idles n) ms fs c u =
    let held = u.queue ++ of_type s (take n fs) in
    let u' = Upcoming-recv_loop held (take n fs) c (Upcoming-take n u) in
    (
      held ++ of_type s (behind n fs),
      (
        window-stream n u,
        Upcoming-append s held (recv_loop (take n fs) c) [] (behind n fs) u'
            (Harmless-split n fs u.harmless).1,
      ),
    )

session-Kept :
    (s : String) (calls : List Call) (ms : List Dict) (fs : Frames) (c : Client)
    → Upcoming s ms c fs
    → Kept s ms (session calls fs c)
unfolding session
session-Kept s [] ms fs c u = (ms, (refl, u))
session-Kept s (call ∷ calls) ms fs c u =
    let (rest, (e, u')) = do_call-Kept s call ms fs c u in
    let (rest', (e', u'')) =
      session-Kept s calls rest (do_call call fs c).2 (do_call call fs c).1 u' in
    (
      rest',
      (
        ap (λ l. l ++ rest')
              (received-append s (do_call call fs c).0
                (session calls (do_call call fs c).2 (do_call call fs c).1).0)
            ∙ append_assoc (received s (do_call call fs c).0) _ rest'
            ∙ ap (λ l. received s (do_call call fs c).0 ++ l) e'
            ∙ e,
        u'',
      ),
    )

-- Over any session of requests, waits and idle times, in which no frame ends the receive task, no
-- message of a registered type is lost, handed out twice or out of order: what the calls handed out,
-- then what is left in the queue, then what has still to arrive, is what was in the queue, then what
-- was to arrive.
pub session_lem :
    (s : String) (calls : List Call) (fs : Frames) (c : Client) (q : List Dict)
    → c.receiving ≡ true
    → All (λ f. is_harmless f ≡ true) fs
    → queue_of s c.pending ≡ some q
    → let (answers, c', fs') = session calls fs c in
      (q' : List Dict) × ((queue_of s c'.pending ≡ some q')
        × (received s answers ++ (q' ++ of_type s fs') ≡ q ++ of_type s fs))
session_lem s calls fs c q on hs e =
    let (rest, (kept, u)) =
      session-Kept s calls (q ++ of_type s fs) fs c
        (record { receiving = on; harmless = hs; queue = q; queued = e; stream = refl }) in
    (u.queue, (u.queued, ap (λ l. received s (session calls fs c).0 ++ l) u.stream ∙ kept))
