-- ===== src/Connection/Send.antt =====
-- `Client.Send` of connection/client.go, and that a call ends. What each `Conn.Write` does is an
-- element of a list, which the peer and the network choose; a list that ends before the call returns
-- is `unfinished`. Tracing, logging, the wire hook and `SetWriteDeadline` are left out.
pub mod Delivery
pub mod Ends
use pod_os_go_client.Prelude.{
  ℕ, suc, ◌+◌, ◌-◌, min, Bool, true, false, List, [], ◌∷◌, ◌++◌, leb, ◌==◌, if◌then◌else◌, Bytes,
  length, take, drop,
}

-- A call of `Conn.Write`: the number of bytes it takes over, at most those it is given, and whether
-- it fails.
pub record Write : Type 0 where
  pub accepts : ℕ
  pub fails : Bool

pub data SendVerdict : Type 0 where
  sent_all send_lost send_not_connected unfinished : SendVerdict

-- The result of `Send`: how it ends, the number of bytes sent that it returns, the flag `connected`
-- and what the socket has taken over.
pub record SendOutcome : Type 0 where
  pub verdict : SendVerdict
  pub sent : ℕ
  pub connected : Bool
  pub wire : Bytes

abbrev pub max_zero_writes : ℕ
max_zero_writes = 3

pub data SendRound : Type 0 where
  send_returns : SendOutcome → SendRound
  send_continues : (zero_writes sent : ℕ) (wire : Bytes) → SendRound

abbrev pub send_next : SendRound → (ℕ → ℕ → Bytes → SendOutcome) → SendOutcome
send_next (send_returns o) k = o
send_next (send_continues z n w) k = k z n w

-- `markDisconnected`, and a fatal error
abbrev pub send_fails : ℕ → Bytes → SendOutcome
send_fails n wire = record { verdict = send_lost; sent = n; connected = false; wire = wire }

-- `Write(data[sent:])` and what follows it in the loop
unfoldable pub send_round : Write → Bytes → (zero_writes sent : ℕ) → Bytes → SendRound
send_round w message zero_writes sent wire =
    let written = min w.accepts (length message - sent) in
    let wire' = wire ++ take written (drop sent message) in
    if w.fails
    then send_returns (send_fails sent wire')
    else if written == 0
    then if leb max_zero_writes (suc zero_writes)
      then send_returns (send_fails sent wire')
      else send_continues (suc zero_writes) sent wire'
    else send_continues 0 (sent + written) wire'

abbrev pub send_done : ℕ → Bytes → SendOutcome
send_done n wire = record { verdict = sent_all; sent = n; connected = true; wire = wire }

-- the loop
unfoldable pub send_loop : List Write → Bytes → (zero_writes sent : ℕ) → Bytes → SendOutcome
send_loop [] message z sent wire =
    if leb (length message) sent
    then send_done sent wire
    else record { verdict = unfinished; sent = sent; connected = true; wire = wire }
send_loop (w ∷ ws) message z sent wire =
    let rest =
      send_next (send_round w message z sent wire)
        (λ z' sent' wire'. send_loop ws message z' sent' wire') in
    if leb (length message) sent then send_done sent wire else rest

unfoldable pub send : Bool → List Write → Bytes → SendOutcome
send connected ws message =
    if connected
    then send_loop ws message 0 0 []
    else record { verdict = send_not_connected; sent = 0; connected = false; wire = [] }
