-- ===== src/Connection/Receive/Verdicts.antt =====
-- How `Receive` ends, and what it has consumed then.
use pod_os_go_client.Prelude.{
  ℕ, zero, suc, ◌-◌, ◌≤◌, min, ◌≡◌, refl, sym, ap, ◌∙◌, inl, inr, Bool, true, false, ◌&&◌, ◌||◌,
  Option, none, some, List, [], ◌∷◌, ◌++◌, append_assoc, arith, ltb, ◌==◌, if◌then◌else◌, ==_iff,
  Bool-cases, Option-cases, Bytes, length,
}
use pod_os_go_client.Prelude.Int.{ℤ, pos, negsuc}
use pod_os_go_client.Connection.Receive.{
  prefix_after_read, lost, after_prefix, is_valid_length_prefix, parse_prefix, read_prefix, receive,
  prefix_fails, next, prefix_round, read_body, receive_chunk_size, is_timeout, is_eof,
  body_after_read, blocked, complete, connection_lost, idle_timeout, not_connected, continues,
  returns, Outcome, Round, Tick, Verdict, body_round,
}
use pod_os_go_client.Connection.Socket.{read, read-pending, ReadError, Socket, pending}

-- What each verdict says of the connection and of the bytes consumed.
abbrev pub Means : Verdict → Outcome → Bytes → Type 0
Means complete o consumed = (o.connected ≡ true) × (o.buffer ≡ consumed)
Means idle_timeout o consumed = (o.connected ≡ true) × (consumed ≡ [])
Means connection_lost o consumed = o.connected ≡ false
Means not_connected o consumed = (o.connected ≡ false) × (consumed ≡ [])
Means blocked o consumed = o.connected ≡ true

-- The bytes that were to come are those consumed and those still to come.
pub record Accounts (all : Bytes) (o : Outcome) : Type 0 where
  pub consumed : Bytes
  pub splits : all ≡ consumed ++ pending o.socket
  pub counted : o.total_read ≡ length consumed
  pub means : Means o.verdict o consumed

-- A round keeps account of the bytes: `buf` stands for what was consumed before it.
abbrev RoundAccounts : Bytes → Round → Type 0
RoundAccounts all (returns o) = Accounts all o
RoundAccounts all (continues n buf s) = all ≡ buf ++ pending s

lost-Accounts :
    (buf b : Bytes) (s : Socket)
    → Accounts (buf ++ pending s) (record {
      verdict = connection_lost;
      total_read = length buf;
      buffer = b;
      connected = false;
      socket = s;
    })
lost-Accounts buf b s = record { consumed = buf; splits = refl; counted = refl; means = refl }

body_after_read-Accounts :
    (t : Tick) (n : ℕ) (buf : Bytes) (s : Socket) (e : Option ReadError)
    → RoundAccounts (buf ++ pending s) (body_after_read t n buf s e)
unfolding body_after_read
body_after_read-Accounts t n buf s none = refl
body_after_read-Accounts t n buf s (some e) = elim (Bool-cases t.expired_after) [
  | inl gone ↦ rw gone (lost-Accounts buf buf s)
  | inr on ↦ rw on (elim (Bool-cases (is_eof e && n == 0)) [
    | inl done ↦ rw done refl
    | inr not_done ↦ rw not_done (elim (Bool-cases (is_timeout e)) [
      | inl slow ↦ rw slow (elim (Bool-cases t.stalled_after) [
        | inl dead ↦ rw dead (lost-Accounts buf buf s)
        | inr alive ↦ rw alive refl
      ])
      | inr hard ↦ rw hard (lost-Accounts buf buf s)
    ])
  ])
]

pub after_read :
    (k : ℕ) (buf : Bytes) (s : Socket)
    → buf ++ pending s ≡ (buf ++ (read k s).bytes) ++ pending (read k s).rest
after_read k buf s = ap (◌++◌ buf) (sym (read-pending k s)) ∙ sym (append_assoc buf _ _)

if-Accounts :
    (all : Bytes) (b : Bool) (x y : Round)
    → RoundAccounts all x
    → RoundAccounts all y
    → RoundAccounts all (if b then x else y)
if-Accounts all true x y p q = p
if-Accounts all false x y p q = q

moved : {a b : Bytes} (r : Round) → a ≡ b → RoundAccounts b r → RoundAccounts a r
moved r e h = rw e h

body_round-Accounts :
    (t : Tick) (n : ℕ) (buf : Bytes) (s : Socket)
    → RoundAccounts (buf ++ pending s) (body_round t n buf s)
unfolding body_round
body_round-Accounts t n buf s =
    let r = read (min receive_chunk_size n) s in
    let go_on = body_after_read t (n - length r.bytes) (buf ++ r.bytes) r.rest r.error in
    let gone = returns (lost (length buf) buf s) in
    if-Accounts _ t.expired gone (if t.stalled then gone else go_on) (lost-Accounts buf buf s) (
      if-Accounts _ t.stalled gone go_on (lost-Accounts buf buf s) (
        moved go_on (after_read (min receive_chunk_size n) buf s)
          (body_after_read-Accounts t (n - length r.bytes) (buf ++ r.bytes) r.rest r.error)))

next-Accounts :
    {all : Bytes} (r : Round) (k : ℕ → Bytes → Socket → Outcome)
    → RoundAccounts all r
    → ((n : ℕ) (buf : Bytes) (s : Socket) → Accounts (buf ++ pending s) (k n buf s))
    → Accounts all (next r k)
next-Accounts (returns o) k a f = a
next-Accounts (continues n buf s) k a f = rw a (f n buf s)

pub read_body-Accounts :
    (ts : List Tick) (n : ℕ) (buf : Bytes) (s : Socket)
    → Accounts (buf ++ pending s) (read_body ts n buf s)
unfolding read_body
read_body-Accounts ts zero buf s = record {
  consumed = buf;
  splits = refl;
  counted = refl;
  means = (refl, refl);
}
read_body-Accounts [] (suc n) buf s = record {
  consumed = buf;
  splits = refl;
  counted = refl;
  means = refl;
}
read_body-Accounts (t ∷ ts) (suc n) buf s =
    next-Accounts (body_round t (suc n) buf s) _ (body_round-Accounts t (suc n) buf s)
      (λ n' buf' s'. read_body-Accounts ts n' buf' s')

prefix_fails-Accounts :
    (benign : Bool) (have : Bytes) (s : Socket)
    → Accounts (have ++ pending s) (prefix_fails benign have s)
unfolding prefix_fails
prefix_fails-Accounts true [] s = record {
  consumed = [];
  splits = refl;
  counted = refl;
  means = (refl, refl);
}
prefix_fails-Accounts true (c ∷ have) s = ground (arith, lost-Accounts (c ∷ have) [] s)
prefix_fails-Accounts false have s = lost-Accounts have [] s

prefix_after_read-Accounts :
    (t : Tick) (have : Bytes) (s : Socket) (e : Option ReadError)
    → RoundAccounts (have ++ pending s) (prefix_after_read t have s e)
unfolding prefix_after_read
prefix_after_read-Accounts t have s none = refl
prefix_after_read-Accounts t have s (some x) =
    prefix_fails-Accounts (is_timeout x || t.expired_after) have s

prefix_round-Accounts :
    (t : Tick) (have : Bytes) (s : Socket)
    → RoundAccounts (have ++ pending s) (prefix_round t have s)
unfolding prefix_round
prefix_round-Accounts t have s =
    let r = read (9 - length have) s in
    let go_on = prefix_after_read t (have ++ r.bytes) r.rest r.error in
    if-Accounts _ t.expired (returns (prefix_fails true have s)) go_on
      (prefix_fails-Accounts true have s)
      (moved go_on (after_read (9 - length have) have s)
        (prefix_after_read-Accounts t (have ++ r.bytes) r.rest r.error))

prefix_nine : (prefix : Bytes) → is_valid_length_prefix prefix ≡ true → length prefix ≡ 9
unfolding is_valid_length_prefix
prefix_nine prefix h = elim (Bool-cases (length prefix == 9)) [
  | inl nine ↦ (==_iff (length prefix) 9).0 nine
  | inr other ↦ cc (rw other at h)
]

module _ (ticks : List Tick) (prefix : Bytes) (s : Socket) where
  -- The step behind the prefix either fails, or reads the body.
  pub after_prefix-cases :
      (P : Outcome → Type 0)
      → P (lost (length prefix) [] s)
      → (length prefix ≡ 9
          → (n : ℕ) → parse_prefix prefix ≡ some (pos n)
          → 9 ≤ n
          → P (read_body ticks (n - 9) prefix s))
      → P (after_prefix ticks prefix s)
  unfolding after_prefix
  after_prefix-cases P failed body = elim (Bool-cases (is_valid_length_prefix prefix)) [
    | inr bad ↦ rw bad failed
    | inl good ↦ rw good (elim (Option-cases (parse_prefix prefix)) [
      | inl e ↦ rw e failed
      | inr (z, e) ↦ rw e (go (prefix_nine prefix good) z e)
    ])
  ]
    where
      go :
          length prefix ≡ 9
          → (z : ℤ) → parse_prefix prefix ≡ some z
          → P (elim z [
            | negsuc n ↦ lost (length prefix) [] s
            | pos n ↦
                if ltb n 9 then lost (length prefix) [] s else read_body ticks (n - 9) prefix s
          ])
      go nine (negsuc n) e = failed
      go nine (pos n) e = elim (Bool-cases (ltb n 9)) [
        | inl small ↦ rw small failed
        | inr big ↦ rw big (body nine n e (ground arith))
      ]

  after_prefix-Accounts : Accounts (prefix ++ pending s) (after_prefix ticks prefix s)
  after_prefix-Accounts =
      after_prefix-cases (Accounts (prefix ++ pending s)) (lost-Accounts prefix [] s)
        (λ nine n e h. read_body-Accounts ticks (n - 9) prefix s)

read_prefix-Accounts :
    (ts : List Tick) (n : ℕ) (have : Bytes) (s : Socket)
    → Accounts (have ++ pending s) (read_prefix ts n have s)
unfolding read_prefix
read_prefix-Accounts ts zero have s = after_prefix-Accounts ts have s
read_prefix-Accounts [] (suc n) have s = record {
  consumed = have;
  splits = refl;
  counted = refl;
  means = refl;
}
read_prefix-Accounts (t ∷ ts) (suc n) have s =
    next-Accounts (prefix_round t have s) _ (prefix_round-Accounts t have s)
      (λ n' have' s'. read_prefix-Accounts ts n' have' s')

-- However the socket and the clock behave, the bytes that were to come are those that `Receive` has
-- counted and those still to come. A complete message is exactly the bytes consumed, and the
-- connection stays up. An idle time-out, and a call on a connection that is down, have consumed
-- nothing; after an idle time-out the connection is up. A lost connection is marked as down.
pub receive-Accounts :
    (connected : Bool) (ts : List Tick) (s : Socket) → Accounts (pending s) (receive connected ts s)
unfolding receive
receive-Accounts true ts s = read_prefix-Accounts ts 9 [] s
receive-Accounts false ts s = record {
  consumed = [];
  splits = refl;
  counted = refl;
  means = (refl, refl);
}
