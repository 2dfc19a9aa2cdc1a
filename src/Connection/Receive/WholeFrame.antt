-- ===== src/Connection/Receive/WholeFrame.antt =====
-- A complete message has the length that its prefix says.
use pod_os_go_client.Prelude.{
  ℕ, zero, suc, ◌+◌, ◌-◌, ◌≤◌, min, ◌≡◌, refl, sym, ap, ◌∙◌, ◌≢◌, Bool, true, false, ◌&&◌, Option,
  none, some, List, [], ◌∷◌, ◌++◌, append-nil, append_assoc, arith, ◌==◌, if◌then◌else◌, Bytes,
  length, take, length-append, take-append_len,
}
use pod_os_go_client.Prelude.Int.{pos}
use pod_os_go_client.Connection.Receive.{
  is_timeout, is_eof, lost, prefix_fails, body_after_read, prefix_after_read, Outcome, Round, Tick,
  after_prefix, body_round, complete, continues, next, parse_prefix, prefix_round, read_body,
  read_prefix, receive, receive_chunk_size, returns,
}
use pod_os_go_client.Connection.Socket.{ReadError, Socket, read, read-length-le}
use pod_os_go_client.Connection.Receive.Verdicts.{after_prefix-cases}

-- If the outcome is complete, its buffer is `buf` and `n` bytes more.
abbrev Extends : Bytes → ℕ → Outcome → Type 0
Extends buf n o = o.verdict ≡ complete → (x : Bytes) × (o.buffer ≡ buf ++ x) × (length x ≡ n)

abbrev RoundExtends : Bytes → ℕ → Round → Type 0
RoundExtends buf n (returns o) = o.verdict ≢ complete
RoundExtends buf n (continues n' buf' s') = (x : Bytes) × (buf' ≡ buf ++ x) × (length x + n' ≡ n)

if-RoundExtends :
    (buf : Bytes) (n : ℕ) (b : Bool) (x y : Round)
    → RoundExtends buf n x
    → RoundExtends buf n y
    → RoundExtends buf n (if b then x else y)
if-RoundExtends buf n true x y p q = p
if-RoundExtends buf n false x y p q = q

body_after_read-Extends :
    (t : Tick) (n n' : ℕ) (buf x : Bytes) (s : Socket) (e : Option ReadError)
    → length x + n' ≡ n
    → RoundExtends buf n (body_after_read t n' (buf ++ x) s e)
unfolding body_after_read
body_after_read-Extends t n n' buf x s none h = (x, refl, h)
body_after_read-Extends t n n' buf x s (some e) h =
    let on : RoundExtends buf n (continues n' (buf ++ x) s) = (x, refl, h) in
    let gone : RoundExtends buf n (returns (lost (length (buf ++ x)) (buf ++ x) s)) = λ c. cc in
    if-RoundExtends buf n t.expired_after _ _ gone (
      if-RoundExtends buf n (is_eof e && n' == 0) _ _ on (
        if-RoundExtends buf n (is_timeout e) _ _ (if-RoundExtends buf n t.stalled_after _ _ gone on)
          gone))

body_round-Extends :
    (t : Tick) (n : ℕ) (buf : Bytes) (s : Socket) → RoundExtends buf n (body_round t n buf s)
unfolding body_round
body_round-Extends t n buf s =
    let gone : RoundExtends buf n (returns (lost (length buf) buf s)) = λ c. cc in
    let r = read (min receive_chunk_size n) s in
    if-RoundExtends buf n t.expired _ _ gone (
      if-RoundExtends buf n t.stalled _ _ gone (
        body_after_read-Extends t n (n - length r.bytes) buf r.bytes r.rest r.error
          (omega (arith, read-length-le (min receive_chunk_size n) s))))

next-Extends :
    (buf : Bytes) (n : ℕ) (r : Round) (k : ℕ → Bytes → Socket → Outcome)
    → RoundExtends buf n r
    → ((n' : ℕ) (buf' : Bytes) (s' : Socket) → Extends buf' n' (k n' buf' s'))
    → Extends buf n (next r k)
next-Extends buf n (returns o) k h f c = absurd (h c)
next-Extends buf n (continues n' buf' s') k (x, e, l) f c =
    let (y, e', l') = f n' buf' s' c in
    (x ++ y, e' ∙ ap (λ b. b ++ y) e ∙ append_assoc buf x y, omega (arith, length-append x y))

read_body-Extends :
    (ts : List Tick) (n : ℕ) (buf : Bytes) (s : Socket) → Extends buf n (read_body ts n buf s)
unfolding read_body
read_body-Extends ts zero buf s c = ([], sym (append-nil buf), refl)
read_body-Extends [] (suc n) buf s c = cc
read_body-Extends (t ∷ ts) (suc n) buf s c =
    next-Extends buf (suc n) (body_round t (suc n) buf s) _ (body_round-Extends t (suc n) buf s)
      (λ n' buf' s'. read_body-Extends ts n' buf' s') c

-- The outcome, if complete, is a whole frame.
abbrev pub IsWhole : Outcome → Type 0
IsWhole o =
    o.verdict ≡ complete
    → (parse_prefix (take 9 o.buffer) ≡ some (pos (length o.buffer))) × (9 ≤ length o.buffer)

after_prefix-IsWhole :
    (ts : List Tick) (prefix : Bytes) (s : Socket) → IsWhole (after_prefix ts prefix s)
after_prefix-IsWhole ts prefix s =
    after_prefix-cases ts prefix s IsWhole (λ c. cc)
      (λ nine n e h c.
        let (x, b, l) = read_body-Extends ts (n - 9) prefix s c in
        let len = length-append prefix x in
        rw b (
          (
            rw (take-append_len prefix x 9 (sym nine))
                (e ∙ ap (λ k. some (pos k)) (omega (arith, len))),
            omega (arith, len),
          )))

-- A return in the loop over the prefix is no complete message.
abbrev RoundStops : Round → Type 0
RoundStops (returns o) = o.verdict ≢ complete
RoundStops (continues n buf s) = Unit {0}

if-RoundStops :
    (b : Bool) (x y : Round) → RoundStops x → RoundStops y → RoundStops (if b then x else y)
if-RoundStops true x y p q = p
if-RoundStops false x y p q = q

prefix_fails-incomplete :
    (b : Bool) (have : Bytes) (s : Socket) → (prefix_fails b have s).verdict ≢ complete
unfolding prefix_fails
prefix_fails-incomplete b have s = ground arith

prefix_after_read-RoundStops :
    (t : Tick) (have : Bytes) (s : Socket) (e : Option ReadError)
    → RoundStops (prefix_after_read t have s e)
unfolding prefix_after_read
prefix_after_read-RoundStops t have s none = tt
prefix_after_read-RoundStops t have s (some e) = prefix_fails-incomplete _ have s

prefix_round-RoundStops :
    (t : Tick) (have : Bytes) (s : Socket) → RoundStops (prefix_round t have s)
unfolding prefix_round
prefix_round-RoundStops t have s =
    let r = read (9 - length have) s in
    if-RoundStops t.expired (returns (prefix_fails true have s))
      (prefix_after_read t (have ++ r.bytes) r.rest r.error) (prefix_fails-incomplete true have s)
      (prefix_after_read-RoundStops t (have ++ r.bytes) r.rest r.error)

next-IsWhole :
    (r : Round) (k : ℕ → Bytes → Socket → Outcome)
    → RoundStops r
    → ((n : ℕ) (buf : Bytes) (s : Socket) → IsWhole (k n buf s))
    → IsWhole (next r k)
next-IsWhole (returns o) k h f c = absurd (h c)
next-IsWhole (continues n buf s) k h f c = f n buf s c

read_prefix-IsWhole :
    (ts : List Tick) (n : ℕ) (have : Bytes) (s : Socket) → IsWhole (read_prefix ts n have s)
unfolding read_prefix
read_prefix-IsWhole ts zero have s = after_prefix-IsWhole ts have s
read_prefix-IsWhole [] (suc n) have s = λ c. cc
read_prefix-IsWhole (t ∷ ts) (suc n) have s =
    next-IsWhole (prefix_round t have s) _ (prefix_round-RoundStops t have s)
      (λ n' have' s'. read_prefix-IsWhole ts n' have' s')

-- When `Receive` succeeds, its buffer is a whole frame: it has nine bytes or more, and the first nine
-- stand for the length of the buffer.
pub receive-IsWhole :
    (connected : Bool) (ts : List Tick) (s : Socket)
    → (receive connected ts s).verdict ≡ complete
    → (parse_prefix (take 9 (receive connected ts s).buffer)
        ≡ some (pos (length (receive connected ts s).buffer)))
      × (9 ≤ length (receive connected ts s).buffer)
unfolding receive
receive-IsWhole true ts s = read_prefix-IsWhole ts 9 [] s
receive-IsWhole false ts s = λ c. cc
