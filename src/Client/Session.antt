-- ===== src/Client/Session.antt =====
-- A test's use of the client, as a list of calls. The frames that arrive are one list, and each call
-- names how many of them arrive before its time is up; those that it leaves are there for the next.
pub mod Windows
pub mod Handed
pub mod Conserved
use sas_tests.Prelude.{
  take, drop, Error, Outcome, assertion_error, connection_error, ℕ, String, Bool, true, false,
  Option, none, some, List, [], ◌∷◌, ◌++◌,
}
use sas_tests.Json.{Dict}
use sas_tests.Client.{Client, Frames, recv_loop}
use sas_tests.Client.Waiting.{request, wait_for}

-- `request`, `wait_for`, and a while in which the test does something else.
pub data Call : Type 0 where
  asks : Dict → String → ℕ → Call
  waits : String → ℕ → Call
  idles : ℕ → Call

-- Why a client sends nothing: it has no socket, or its connection has ended.
abbrev pub refusal : Bool → Bool → Option Error
refusal true true = none
refusal true false = some connection_error
refusal false is_open = some assertion_error

-- What the calls returned or raised, each with its type.
abbrev pub Answers : Type 0
Answers = List (String × Outcome Dict)

-- The frames that arrive later.
abbrev pub behind : ℕ → Frames → Frames
behind n fs = drop n fs

unfoldable pub do_call : Call → Frames → Client → Answers × Client × Frames
unfolding request wait_for
do_call (asks message t n) fs c =
    let (r, c', fs') = request message t (take n fs) c in ((t, r) ∷ [], c', fs' ++ behind n fs)
do_call (waits t n) fs c =
    let (r, c', fs') = wait_for t (take n fs) c in ((t, r) ∷ [], c', fs' ++ behind n fs)
do_call (idles n) fs c = ([], recv_loop (take n fs) c, behind n fs)

unfoldable pub session : List Call → Frames → Client → Answers × Client × Frames
unfolding do_call
session [] fs c = ([], c, fs)
session (call ∷ calls) fs c =
    let (answer, c', fs') = do_call call fs c in
    let (answers, c'', fs'') = session calls fs' c' in (answer ++ answers, c'', fs'')
