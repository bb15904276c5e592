-- ===== src/Pfop/Link.antt =====
-- lib/pfop_client.py: the client object, with or without a socket. `create_connection` stands for the
-- function of the socket module: the chunks that the new socket will receive, or an exception.
use sas_tests.Prelude.{
  Outcome, runtime_error, ok, raised, ℕ, String, true, Option, none, some, List, ◌++◌,
}
use sas_tests.Prelude.Int.{ℤ}
use sas_tests.Pfop.{Bytes, Frame, send_mid, recv_frame}

-- A socket: what it has sent, and the chunks that `recv` will return.
pub record Socket : Type 0 where
  pub sent : Bytes
  pub chunks : List Bytes

pub record PfopClient : Type 0 where
  pub host : String
  pub port : ℤ
  pub sock : Option Socket

-- `PFOPClient(host, port)`
abbrev pub new : String → ℤ → PfopClient
new host port = record { host = host; port = port; sock = none }

unfoldable pub connect : (String → ℤ → Outcome Socket) → PfopClient → Outcome PfopClient
connect create_connection c = elim (create_connection c.host c.port) [
  | raised e ↦ raised e
  | ok s ↦ ok (record c { sock = some s })
]

-- `close`: the socket is dropped even where its `close` raises.
unfoldable pub close : (Socket → Outcome (Unit {0})) → PfopClient → Outcome (Unit {0}) × PfopClient
close close_socket c = elim c.sock [
  | none ↦ (ok tt, c)
  | some s ↦ (close_socket s, record c { sock = none })
]

-- `with PFOPClient(host, port) as c:` around a body.
unfoldable pub with_client {ℓ} :
    {A : Type ℓ}
    → (String → ℤ → Outcome Socket)
    → (Socket → Outcome (Unit {0}))
    → (PfopClient → Outcome A × PfopClient)
    → PfopClient
    → Outcome A × PfopClient
unfolding connect close
with_client create_connection close_socket body c = elim (connect create_connection c) [
  | raised e ↦ (raised e, c)
  | ok c' ↦
      (let (r, c'') = body c' in
        let (o, c3) = close close_socket c'' in
        elim o [ raised e ↦ (raised e, c3) | ok u ↦ (r, c3) ])
]

-- `send_mid` on the client's socket.
unfoldable pub send : ℕ → ℕ → Bytes → PfopClient → Outcome PfopClient
unfolding send_mid
send mid revision text c = elim c.sock [
  | none ↦ raised runtime_error
  | some s ↦ elim (send_mid true mid revision text) [
    | raised e ↦ raised e
    | ok bytes ↦ ok (record c { sock = some (record s { sent = s.sent ++ bytes }) })
  ]
]

-- `recv_frame` on the client's socket; the chunks of a failed read are lost with it.
unfoldable pub recv : PfopClient → Outcome (Frame × PfopClient)
unfolding recv_frame
recv c = elim c.sock [
  | none ↦ raised runtime_error
  | some s ↦ elim (recv_frame true s.chunks) [
    | raised e ↦ raised e
    | ok (frame, rest) ↦ ok (frame, record c { sock = some (record s { chunks = rest }) })
  ]
]
