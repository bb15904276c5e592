-- ===== src/Pfop.antt =====
-- lib/pfop_client.py: the ASCII frames of the PFOP protocol. A byte is a number, and the socket is
-- the list of the chunks that `recv` will return; where the list ends the socket times out.
pub mod Decimal
pub mod Digits
pub mod Reading
pub mod Chunks
pub mod RoundTrip
pub mod Link
pub mod Lists
use sas_tests.Prelude.{
  ltb, ◌==◌, if◌then◌else◌, length, take, drop, replicate, keep, ◌>>=◌, Outcome, timeout_error,
  value_error, runtime_error, ok, raised, ℕ, ◌+◌, Bool, true, false, ◌&&◌, ◌||◌, List, [], ◌∷◌,
  ◌++◌,
}
use sas_tests.Prelude.Int.{ℤ, pos}
use sas_tests.Pfop.Decimal.{padded, strip, int_of}

abbrev pub Bytes : Type 0
Bytes = List ℕ

-- `PFOPFrame`
pub record Frame : Type 0 where
  pub size : ℤ
  pub mid : ℤ
  pub revision : ℤ
  pub raw : Bytes
  pub payload : Bytes

-- The header that `send_mid` formats.
unfoldable pub header : ℕ → ℕ → ℕ → Bytes
unfolding padded
header size mid revision = padded 4 size ++ (padded 4 mid ++ (padded 3 revision ++ replicate 9 32))

abbrev pub is_ascii : Bytes → Bool
is_ascii [] = true
is_ascii (c ∷ s) = ltb c 128 && is_ascii s

-- `send_mid`: the bytes that it sends, on a connected socket or not.
unfoldable pub send_mid : Bool → ℕ → ℕ → Bytes → Outcome Bytes
unfolding header
send_mid connected mid revision text =
    if connected
    then if is_ascii text
      then ok (header (20 + length text) mid revision ++ (text ++ 0 ∷ []))
      else raised value_error
    else raised runtime_error

abbrev pub has_nul : Bytes → Bool
has_nul [] = false
has_nul (c ∷ s) = c == 0 || has_nul s

-- `buf[: buf.index(0)]`
unfoldable pub before_nul : Bytes → Bytes
before_nul [] = []
before_nul (c ∷ s) = if c == 0 then [] else c ∷ before_nul s

-- The loop over `recv`: what it has gathered, and the chunks that it did not read. An empty chunk is
-- the end of the stream.
unfoldable pub gather : Bytes → List Bytes → Outcome (Bytes × List Bytes)
gather buf [] = raised timeout_error
gather buf (chunk ∷ cs) =
    let more = gather (buf ++ chunk) cs in
    elim chunk [
      | [] ↦ ok (buf, cs)
      | c ∷ s ↦ if has_nul (c ∷ s) then ok (buf ++ c ∷ s, cs) else more
    ]

-- `b.decode("ascii", errors="ignore")`
unfoldable pub decode_ascii : Bytes → Bytes
decode_ascii = keep (λ c. ltb c 128)

-- `int(text or "0")`
abbrev pub int_or_zero : Bytes → Outcome ℤ
int_or_zero [] = ok (pos 0)
int_or_zero (c ∷ s) = int_of (c ∷ s)

-- The three fields of the header, and the frame.
unfoldable pub parse_fields : Bytes → Bytes → Bytes → Bytes → Outcome Frame
unfolding decode_ascii strip int_of
parse_fields size_text mid_text revision_text body = do
  size ← int_or_zero (decode_ascii size_text)
  mid ← int_or_zero (decode_ascii mid_text)
  revision ← int_or_zero (strip (decode_ascii revision_text))
  ok (record {
    size = size;
    mid = mid;
    revision = revision;
    raw = body ++ 0 ∷ [];
    payload = drop 20 body;
  })

-- From `body` on.
unfoldable pub parse_body : Bytes → Outcome Frame
unfolding parse_fields
parse_body body =
    if ltb (length body) 20
    then raised value_error
    else parse_fields (take 4 body) (take 4 (drop 4 body)) (take 3 (drop 8 body)) body

-- After the loop of `recv_frame`.
unfoldable pub finish : Bytes × List Bytes → Outcome (Frame × List Bytes)
unfolding before_nul parse_body
finish (buf, rest) =
    if has_nul buf
    then parse_body (before_nul buf) >>= (λ frame. ok (frame, rest))
    else raised timeout_error

unfoldable pub recv_frame : Bool → List Bytes → Outcome (Frame × List Bytes)
unfolding gather finish
recv_frame connected chunks =
    if connected then gather [] chunks >>= finish else raised runtime_error
