-- ===== src/Connection/Send/Delivery.antt =====
-- What `Send` has put on the wire when it returns, and that it returns.
use pod_os_go_client.Prelude.{
  ℕ, zero, suc, ◌+◌, ◌-◌, ◌≤◌, min, ◌≡◌, refl, ap, ◌∙◌, inl, inr, Bool, true, false, List, [], ◌∷◌,
  ◌++◌, arith, leb, ◌==◌, if◌then◌else◌, Bool-cases, Bytes, length, take, drop, take-append-drop,
  length-take,
}
use pod_os_go_client.Connection.Send.{
  Write, max_zero_writes, send, send_done, send_fails, send_loop, send_next, send_round,
  SendOutcome, SendRound, SendVerdict, send_continues, send_lost, send_not_connected, send_returns,
  sent_all, unfinished,
}

-- What each result says of the wire.
abbrev pub Sends : Bytes → SendOutcome → SendVerdict → Type 0
Sends message o sent_all = (o.wire ≡ message) × (o.sent ≡ length message) × (o.connected ≡ true)
Sends message o send_lost =
    (o.connected ≡ false) × (o.sent ≤ length o.wire) × ((left : Bytes) × (o.wire ++ left ≡ message))
Sends message o send_not_connected = (o.connected ≡ false) × (o.wire ≡ [])
Sends message o unfinished = (o.connected ≡ true) × (o.wire ≡ take o.sent message)

abbrev Good : Bytes → SendOutcome → Type 0
Good message o = Sends message o o.verdict

-- before each round, `sent` bytes are on the wire
abbrev RoundGood : Bytes → SendRound → Type 0
RoundGood message (send_returns o) = Good message o
RoundGood message (send_continues z n wire) = (n ≤ length message) × (wire ≡ take n message)

if-RoundGood :
    (message : Bytes) (b : Bool) (x y : SendRound)
    → RoundGood message x
    → RoundGood message y
    → RoundGood message (if b then x else y)
if-RoundGood message true x y p q = p
if-RoundGood message false x y p q = q

abbrev no_bytes : Bytes
no_bytes = []

take_nil : (n : ℕ) → no_bytes ≡ take n no_bytes
take_nil zero = refl
take_nil (suc n) = refl

take_more : (a b : ℕ) (xs : Bytes) → take a xs ++ take b (drop a xs) ≡ take (a + b) xs
take_more zero b xs = ap (λ k. take k xs) (omega arith)
take_more (suc a) zero [] = take_nil (suc a + zero)
take_more (suc a) (suc b) [] = take_nil (suc a + suc b)
take_more (suc a) b (x ∷ xs) =
    let e : suc (a + b) ≡ suc a + b = omega arith in
    ap (λ t. x ∷ t) (take_more a b xs) ∙ ap (λ k. take k (x ∷ xs)) e

take_all : (xs : Bytes) → take (length xs) xs ≡ xs
take_all [] = refl
take_all (x ∷ xs) = ap (λ t. x ∷ t) (take_all xs)

-- A prefix of the message, with more bytes of it.
sent_more :
    (n k : ℕ) (message wire : Bytes)
    → n ≤ length message
    → k ≤ length message - n
    → wire ≡ take n message
    → (wire ++ take k (drop n message) ≡ take (n + k) message)
      × (n + k ≤ length (wire ++ take k (drop n message)))
      × (n + k ≤ length message)
sent_more n k message wire h b e =
    let all : wire ++ take k (drop n message) ≡ take (n + k) message =
      ap (λ w. w ++ take k (drop n message)) e ∙ take_more n k message in
    let len = ap length all in (all, omega (arith, len, length-take (n + k) message), omega arith)

send_fails-Good :
    (n k : ℕ) (message wire : Bytes)
    → wire ≡ take k message
    → n ≤ length wire
    → Good message (send_fails n wire)
send_fails-Good n k message wire e h =
    (refl, h, (drop k message, ap (λ w. w ++ drop k message) e ∙ take-append-drop k message))

send_round-Good :
    (w : Write) (message : Bytes) (z n : ℕ) (wire : Bytes)
    → n ≤ length message
    → wire ≡ take n message
    → RoundGood message (send_round w message z n wire)
unfolding send_round
send_round-Good w message z n wire h e =
    let k = min w.accepts (length message - n) in
    let (all, len, fits) = sent_more n k message wire h (omega arith) e in
    let gone : RoundGood message (send_returns (send_fails n (wire ++ take k (drop n message)))) =
      send_fails-Good n (n + k) message _ all (omega (arith, len)) in
    if-RoundGood message w.fails _ _ gone (elim (Bool-cases (k == 0)) [
      | inl none_taken ↦
          let zero_taken : k ≡ 0 = ground arith in
          rw none_taken (
            if-RoundGood message (leb max_zero_writes (suc z)) _ _ gone
              (h, all ∙ ap (λ m. take m message) (omega arith)))
      | inr some_taken ↦ rw some_taken (fits, all)
    ])

send_next-Good :
    (message : Bytes) (r : SendRound) (k : ℕ → ℕ → Bytes → SendOutcome)
    → RoundGood message r
    → ((z n : ℕ) (wire : Bytes)
        → n ≤ length message
        → wire ≡ take n message
        → Good message (k z n wire))
    → Good message (send_next r k)
send_next-Good message (send_returns o) k h f = h
send_next-Good message (send_continues z n wire) k h f = f z n wire h.0 h.1

send_done-Good :
    (message : Bytes) (n : ℕ) (wire : Bytes)
    → n ≤ length message
    → wire ≡ take n message
    → leb (length message) n ≡ true
    → Good message (send_done n wire)
send_done-Good message n wire h e full =
    let all : n ≡ length message = ground arith in
    (e ∙ ap (λ m. take m message) all ∙ take_all message, all, refl)

send_loop-Good :
    (ws : List Write) (message : Bytes) (z n : ℕ) (wire : Bytes)
    → n ≤ length message
    → wire ≡ take n message
    → Good message (send_loop ws message z n wire)
unfolding send_loop
send_loop-Good [] message z n wire h e = elim (Bool-cases (leb (length message) n)) [
  | inl full ↦ rw full (send_done-Good message n wire h e full)
  | inr more ↦ rw more (refl, e)
]
send_loop-Good (w ∷ ws) message z n wire h e = elim (Bool-cases (leb (length message) n)) [
  | inl full ↦ rw full (send_done-Good message n wire h e full)
  | inr more ↦ rw more (
      send_next-Good message (send_round w message z n wire) _
        (send_round-Good w message z n wire h e)
        (λ z' n' wire'. send_loop-Good ws message z' n' wire'))
]

-- `Send` is honest about the wire. On success the wire holds exactly the message, the count is its
-- length and the connection is up. When the connection is lost the flag is down, the wire holds a
-- part of the message from its front, and at least the bytes that are counted. A client that is not
-- connected writes nothing.
pub send-Sends :
    (connected : Bool) (ws : List Write) (message : Bytes)
    → Sends message (send connected ws message) (send connected ws message).verdict
unfolding send
send-Sends true ws message = send_loop-Good ws message 0 0 [] (omega arith) refl
send-Sends false ws message = (refl, refl)
