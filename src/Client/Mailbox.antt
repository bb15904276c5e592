-- ===== src/Client/Mailbox.antt =====
-- What the client promises, without its representation: a queue for each registered type, as a
-- function of the type, and the log of all other messages.
pub mod Agreement
pub mod Refined
use sas_tests.Prelude.{
  if◌then◌else◌, take, or_nil, Outcome, timeout_error, ok, raised, ℕ, String, Bool, false, Option,
  none, some, List, [], ◌∷◌, ◌++◌, str_eq,
}
use sas_tests.Json.{Dict}
use sas_tests.Events.{stamp}
use sas_tests.Client.{
  Frame, Frames, garbage, closed, value, Route, crash, drop, typed, untyped, route,
}
use sas_tests.Client.Session.{Call, asks, waits, idles, Answers, behind, refusal}

pub record Mailbox : Type 0 where
  pub queue : String → Option (List Dict)
  pub events : List Dict
  pub connected : Bool
  pub is_open : Bool
  pub listening : Bool

-- The queues with that of one type replaced.
abbrev pub replaced :
    String → Option (List Dict) → (String → Option (List Dict)) → String → Option (List Dict)
replaced t o queue k = if str_eq t k then o else queue k

-- The type has a queue from now on.
unfoldable pub register : String → Mailbox → Mailbox
register t m = record m { queue = replaced t (some (or_nil (m.queue t))) m.queue }

-- A message of a type goes into its queue, or into the log if the type has none.
abbrev pub file_under : ℕ → String → Dict → Option (List Dict) → Mailbox → Mailbox
file_under now t d none m = record m { events = m.events ++ stamp now d ∷ [] }
file_under now t d (some q) m = record m { queue = replaced t (some (q ++ d ∷ [])) m.queue }

unfoldable pub deposit : ℕ → Route → Mailbox → Mailbox
deposit now (crash e) m = record m { listening = false }
deposit now drop m = m
deposit now (untyped d) m = record m { events = m.events ++ stamp now d ∷ [] }
deposit now (typed t d) m = file_under now t d (m.queue t) m

unfoldable pub accept : ℕ × Frame → Mailbox → Mailbox
unfolding deposit
accept (now, garbage) m = m
accept (now, closed) m = record m { is_open = false; listening = false }
accept (now, value v) m = if m.listening then deposit now (route v) m else m

unfoldable pub accept_all : Frames → Mailbox → Mailbox
unfolding accept
accept_all [] m = m
accept_all (f ∷ fs) m = accept_all fs (accept f m)

-- A wait for a type takes the oldest message of its queue, and accepts frames until there is one.
unfoldable pub await : String → Frames → Mailbox → Outcome Dict × Mailbox × Frames
unfolding accept
await t [] m = elim (or_nil (m.queue t)) [
  | [] ↦ (raised timeout_error, m, [])
  | d ∷ q ↦ (ok d, record m { queue = replaced t (some q) m.queue }, [])
]
await t (f ∷ fs) m =
    let later = await t fs (accept f m) in
    elim (or_nil (m.queue t)) [
      | [] ↦ later
      | d ∷ q ↦ (ok d, record m { queue = replaced t (some q) m.queue }, f ∷ fs)
    ]

-- A request is a wait, if the connection is there and has not ended.
unfoldable pub ask : String → Frames → Mailbox → Outcome Dict × Mailbox × Frames
unfolding register await
ask t fs m = elim (refusal m.connected m.is_open) [
  | none ↦ await t fs (register t m)
  | some e ↦ (raised e, register t m, fs)
]

unfoldable pub answer : Call → Frames → Mailbox → Answers × Mailbox × Frames
unfolding register await accept_all ask
answer (asks message t n) fs m =
    let (r, m', fs') = ask t (take n fs) m in ((t, r) ∷ [], m', fs' ++ behind n fs)
answer (waits t n) fs m =
    let (r, m', fs') = await t (take n fs) (register t m) in ((t, r) ∷ [], m', fs' ++ behind n fs)
answer (idles n) fs m = ([], accept_all (take n fs) m, behind n fs)

-- The promise, for a whole session.
unfoldable pub answer_all : List Call → Frames → Mailbox → Answers × Mailbox × Frames
unfolding answer
answer_all [] fs m = ([], m, fs)
answer_all (call ∷ calls) fs m =
    let (a, m', fs') = answer call fs m in
    let (as', m'', fs'') = answer_all calls fs' m' in (a ++ as', m'', fs'')
