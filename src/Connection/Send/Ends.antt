-- ===== src/Connection/Send/Ends.antt =====
-- `Send` returns: how many writes it takes at most.
use pod_os_go_client.Prelude.{
  ℕ, suc, ◌-◌, ◌*◌, ◌≤◌, ◌<◌, min, ◌≡◌, refl, ◌≢◌, Bool, true, false, List, [], ◌∷◌, ◌++◌, arith,
  leb, ◌==◌, if◌then◌else◌, Bytes, length, take, drop,
}
use pod_os_go_client.Connection.Send.{
  SendOutcome, SendRound, Write, max_zero_writes, send, send_continues, send_done, send_fails,
  send_loop, send_next, send_returns, send_round, unfinished,
}

-- what is left to do: three writes for each byte, less the writes that took nothing
abbrev RoundShrinks : Bytes → ℕ → SendRound → Type 0
RoundShrinks message m (send_returns o) = o.verdict ≢ unfinished
RoundShrinks message m (send_continues z n wire) = (z ≤ 2) × (3 * (length message - n) - z < m)

if-RoundShrinks :
    (message : Bytes) (m : ℕ) (b : Bool) (x y : SendRound)
    → (b ≡ true → RoundShrinks message m x)
    → (b ≡ false → RoundShrinks message m y)
    → RoundShrinks message m (if b then x else y)
if-RoundShrinks message m true x y p q = p refl
if-RoundShrinks message m false x y p q = q refl

send_round-RoundShrinks :
    (w : Write) (message : Bytes) (z n : ℕ) (wire : Bytes)
    → z ≤ 2
    → n < length message
    → RoundShrinks message (3 * (length message - n) - z) (send_round w message z n wire)
unfolding send_round
send_round-RoundShrinks w message z n wire hz h =
    let m = 3 * (length message - n) - z in
    let k = min w.accepts (length message - n) in
    let gone : RoundShrinks message m
        (send_returns (send_fails n (wire ++ take k (drop n message)))) =
      λ c. cc in
    if-RoundShrinks message m w.fails _ _ (λ b. gone)
      (λ b.
        if-RoundShrinks message m (k == 0) _ _
          (λ b.
            if-RoundShrinks message m (leb max_zero_writes (suc z)) _ _ (λ b. gone)
              (λ b. let below : z < 2 = ground arith in (omega arith, omega arith)))
          (λ b. let some_taken : 0 < k = ground arith in (omega arith, omega arith)))

send_next-returns :
    (message : Bytes) (m : ℕ) (r : SendRound) (k : ℕ → ℕ → Bytes → SendOutcome)
    → RoundShrinks message m r
    → ((z n : ℕ) (wire : Bytes)
        → z ≤ 2
        → 3 * (length message - n) - z < m
        → (k z n wire).verdict ≢ unfinished)
    → (send_next r k).verdict ≢ unfinished
send_next-returns message m (send_returns o) k h f = h
send_next-returns message m (send_continues z n wire) k h f = f z n wire h.0 h.1

if-returns :
    (b : Bool) (x y : SendOutcome)
    → x.verdict ≢ unfinished
    → (b ≡ false → y.verdict ≢ unfinished)
    → (if b then x else y).verdict ≢ unfinished
if-returns true x y p q = p
if-returns false x y p q = q refl

send_loop-returns :
    (ws : List Write) (message : Bytes) (z n : ℕ) (wire : Bytes)
    → z ≤ 2
    → 3 * (length message - n) - z ≤ length ws
    → (send_loop ws message z n wire).verdict ≢ unfinished
unfolding send_loop
send_loop-returns [] message z n wire hz h =
    if-returns (leb (length message) n) (send_done n wire) _ (λ c. cc)
      (λ b. let more : n < length message = ground arith in absurd (omega arith))
send_loop-returns (w ∷ ws) message z n wire hz h =
    if-returns (leb (length message) n) (send_done n wire) _ (λ c. cc)
      (λ b.
        send_next-returns message (3 * (length message - n) - z) (send_round w message z n wire) _
          (send_round-RoundShrinks w message z n wire hz (ground arith))
          (λ z' n' wire' hz' h'. send_loop-returns ws message z' n' wire' hz' (omega arith)))

-- `Send` returns after at most three calls of `Conn.Write` for each byte of the message, whatever
-- the calls do.
pub send-returns :
    (connected : Bool) (ws : List Write) (message : Bytes)
    → 3 * length message ≤ length ws
    → (send connected ws message).verdict ≢ unfinished
unfolding send
send-returns true ws message h = send_loop-returns ws message 0 0 [] (omega arith) (omega arith)
send-returns false ws message h = λ c. cc
