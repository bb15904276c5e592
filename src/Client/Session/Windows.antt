-- ===== src/Client/Session/Windows.antt =====
-- The stream of a type while the client waits or idles, and for a part of the frames.
use sas_tests.Prelude.{
  take, All, All-append, ℕ, zero, suc, String, ◌≡◌, refl, sym, ap, ◌∙◌, true, List, [], ◌∷◌, ◌++◌,
  append_assoc, arith,
}
use sas_tests.Json.{Dict}
use sas_tests.Client.{Client, Frames, deliver, recv_loop}
use sas_tests.Client.Routing.{is_harmless, of_type, queue_of-ensure, of_type-cons}
use sas_tests.Client.Waiting.{with_queue}
use sas_tests.Client.Stream.{Upcoming, Upcoming-deliver}
use sas_tests.Client.Session.{behind}

-- The stream is split with the frames, and joined with them.
pub of_type-append :
    (s : String) (fs gs : Frames) → of_type s (fs ++ gs) ≡ of_type s fs ++ of_type s gs
of_type-append s [] gs = refl
of_type-append s (f ∷ fs) gs =
    of_type-cons s f (fs ++ gs)
    ∙ ap (λ l. of_type s (f ∷ []) ++ l) (of_type-append s fs gs)
    ∙ sym (append_assoc (of_type s (f ∷ [])) (of_type s fs) (of_type s gs))
    ∙ ap (λ l. l ++ of_type s gs) (sym (of_type-cons s f fs))

abbrev pub Harmless : Frames → Type 0
Harmless = All (λ f. is_harmless f ≡ true)

pub Harmless-split :
    (n : ℕ) (fs : Frames) → Harmless fs → Harmless (take n fs) × Harmless (behind n fs)
Harmless-split zero fs h = (tt, h)
Harmless-split (suc n) [] h = (tt, tt)
Harmless-split (suc n) (f ∷ fs) h = let rest = Harmless-split n fs h.1 in ((h.0, rest.0), rest.1)

pub take-append-behind : (n : ℕ) (fs : Frames) → take n fs ++ behind n fs ≡ fs
take-append-behind zero fs = refl
take-append-behind (suc n) [] = refl
take-append-behind (suc n) (f ∷ fs) = ap (λ l. f ∷ l) (take-append-behind n fs)

pub Upcoming-append :
    (s : String) (ms : List Dict) (c : Client) (fs gs : Frames)
    → Upcoming s ms c fs
    → Harmless gs
    → Upcoming s (ms ++ of_type s gs) c (fs ++ gs)
Upcoming-append s ms c fs gs u h = record {
  receiving = u.receiving;
  harmless = All-append (λ f. is_harmless f ≡ true) fs gs u.harmless h;
  queue = u.queue;
  queued = u.queued;
  stream =
      ap (λ l. u.queue ++ l) (of_type-append s fs gs)
      ∙ sym (append_assoc u.queue (of_type s fs) (of_type s gs))
      ∙ ap (λ l. l ++ of_type s gs) u.stream;
}

-- The same client, seen for the first frames alone.
pub Upcoming-take :
    {s : String} {ms : List Dict} {c : Client} {fs : Frames} (n : ℕ)
    → (u : Upcoming s ms c fs) → Upcoming s (u.queue ++ of_type s (take n fs)) c (take n fs)
Upcoming-take {fs = fs} n u = record {
  receiving = u.receiving;
  harmless = (Harmless-split n fs u.harmless).0;
  queue = u.queue;
  queued = u.queued;
  stream = refl;
}

pub Upcoming-with_queue :
    {s : String} {ms : List Dict} {c : Client} {fs : Frames} (t : String)
    → Upcoming s ms c fs
    → Upcoming s ms (with_queue t c) fs
Upcoming-with_queue {s} {ms} {c} {fs} t u = record {
  receiving = u.receiving;
  harmless = u.harmless;
  queue = u.queue;
  queued = ground (arith, queue_of-ensure t s c.pending, u.queued);
  stream = u.stream;
}

pub Upcoming-recv_loop :
    {s : String} (ms : List Dict) (fs : Frames) (c : Client)
    → Upcoming s ms c fs
    → Upcoming s ms (recv_loop fs c) []
unfolding recv_loop
Upcoming-recv_loop ms [] c u = u
Upcoming-recv_loop ms (f ∷ fs) c u = Upcoming-recv_loop ms fs (deliver f c) (Upcoming-deliver u)
