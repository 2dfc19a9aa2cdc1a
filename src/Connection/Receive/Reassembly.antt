-- ===== src/Connection/Receive/Reassembly.antt =====
-- A frame is put together however the network cuts it up.
use pod_os_go_client.Prelude.{
  ℕ, zero, suc, ◌+◌, ◌-◌, ◌≤◌, ◌<◌, min, ◌≡◌, refl, sym, subst, ap, ◌∙◌, inl, inr, true, false,
  none, some, List, [], ◌∷◌, ◌++◌, arith, leb, ltb-false, Bool-cases, Bytes, length, take, drop,
  length-append, take-append_len, drop-append_len, length-drop, length-take, take-append_le,
}
use pod_os_go_client.Prelude.Int.{pos}
use pod_os_go_client.Connection.Receive.WholeFrame.{receive-IsWhole}
use pod_os_go_client.Connection.Receive.Verdicts.{Means, receive-Accounts, after_read}
use pod_os_go_client.Connection.Receive.{
  is_valid_length_prefix, parse_prefix, receive, prefix_after_read, Outcome, after_prefix,
  prefix_round, read_prefix, body_after_read, Tick, body_round, complete, read_body,
  receive_chunk_size,
}
use pod_os_go_client.Connection.Socket.{read-length-le, Socket, pending, read}

-- No error comes, and every arrival holds something.
abbrev pub IsClean : Socket → Type 0
IsClean [] = Unit {0}
IsClean (a ∷ s) = (a.error ≡ none) × (0 < length a.chunk) × IsClean s

-- The context does not expire, and the activity timer does not run out.
abbrev pub AllQuiet : List Tick → Type 0
AllQuiet [] = Unit {0}
AllQuiet (t ∷ ts) = (t.expired ≡ false) × (t.stalled ≡ false) × AllQuiet ts

-- A read of a clean socket that still holds something.
record Progress (k : ℕ) (s : Socket) : Type 0 where
  no_error : (read k s).error ≡ none
  some_bytes : 0 < length (read k s).bytes
  still_clean : IsClean (read k s).rest
  shorter : length (read k s).bytes + length (pending (read k s).rest) ≡ length (pending s)

read-Progress : (k : ℕ) (s : Socket) → 0 < k → IsClean s → 0 < length (pending s) → Progress k s
unfolding read
read-Progress k [] hk c h = absurd (omega arith)
read-Progress k (a ∷ s) hk c h = elim (Bool-cases (leb (length a.chunk) k)) [
  | inl fits ↦ record {
    no_error = rw fits c.0;
    some_bytes = rw fits c.1;
    still_clean = rw fits c.2;
    shorter = rw fits (sym (length-append a.chunk (pending s)));
  }
  | inr more ↦
      let left : k < length a.chunk = ground arith in
      record {
        no_error = rw more refl;
        some_bytes = rw more (omega (arith, length-take k a.chunk));
        still_clean = rw more (c.0, omega (arith, length-drop k a.chunk), c.2);
        shorter = rw more (
            omega (
              arith,
              length-take k a.chunk,
              length-drop k a.chunk,
              length-append (drop k a.chunk) (pending s),
              length-append a.chunk (pending s),
            ));
      }
]

-- Every round reads something, so as many rounds as bytes are missing are enough.
read_body-complete :
    (ts : List Tick) (n : ℕ) (buf : Bytes) (s : Socket)
    → AllQuiet ts
    → IsClean s
    → n ≤ length ts
    → n ≤ length (pending s)
    → (read_body ts n buf s).verdict ≡ complete
unfolding read_body body_round body_after_read
read_body-complete ts zero buf s q c h k = refl
read_body-complete [] (suc n) buf s q c h k = absurd (omega arith)
read_body-complete (t ∷ ts) (suc n) buf s q c h k =
    let p = read-Progress (min receive_chunk_size (suc n)) s (omega arith) c (omega arith) in
    rw q.0 (
      rw q.1 (
        rw p.no_error (
          read_body-complete ts _ _ _ q.2 p.still_clean (omega (arith, p.some_bytes))
            (omega (arith, p.shorter)))))

-- The loop over the prefix ends with nine bytes, and hands on what it has not used: of `size` rounds
-- at most `n` are used.
record Prefixed (size n : ℕ) (o : Outcome) (all : Bytes) : Type 0 where
  prefix : Bytes
  ticks : List Tick
  socket : Socket
  nine : length prefix ≡ 9
  joins : all ≡ prefix ++ pending socket
  quiet : AllQuiet ticks
  clean : IsClean socket
  enough : size ≤ length ticks + n
  hands_on : o ≡ after_prefix ticks prefix socket

read_prefix_round :
    (t : Tick) (ts : List Tick) (n : ℕ) (have : Bytes) (s : Socket)
    → t.expired ≡ false
    → (read (9 - length have) s).error ≡ none
    → read_prefix (t ∷ ts) (suc n) have s
      ≡ read_prefix ts
          (9 - length (have ++ (read (9 - length have) s).bytes))
          (have ++ (read (9 - length have) s).bytes)
          (read (9 - length have) s).rest
unfolding read_prefix prefix_round prefix_after_read
read_prefix_round t ts n have s q e = rw q (rw e)

read_prefix-Prefixed :
    (ts : List Tick) (n : ℕ) (have : Bytes) (s : Socket)
    → AllQuiet ts
    → IsClean s
    → length have + n ≡ 9
    → n ≤ length ts
    → n ≤ length (pending s)
    → Prefixed (length ts) n (read_prefix ts n have s) (have ++ pending s)
unfolding read_prefix
read_prefix-Prefixed ts zero have s q c e h k = record {
  prefix = have;
  ticks = ts;
  socket = s;
  nine = omega arith;
  joins = refl;
  quiet = q;
  clean = c;
  enough = omega arith;
  hands_on = refl;
}
read_prefix-Prefixed [] (suc n) have s q c e h k = absurd (omega arith)
read_prefix-Prefixed (t ∷ ts) (suc n) have s q c e h k =
    let r = read (9 - length have) s in
    let p = read-Progress (9 - length have) s (omega arith) c (omega arith) in
    let len = length-append have r.bytes in
    let bound = read-length-le (9 - length have) s in
    let d =
      read_prefix-Prefixed ts (9 - length (have ++ r.bytes)) (have ++ r.bytes) r.rest q.2
        p.still_clean (omega (arith, len, bound)) (omega (arith, len, p.some_bytes))
        (omega (arith, len, p.shorter)) in
    record {
      prefix = d.prefix;
      ticks = d.ticks;
      socket = d.socket;
      nine = d.nine;
      joins = after_read (9 - length have) have s ∙ d.joins;
      quiet = d.quiet;
      clean = d.clean;
      enough = omega (arith, d.enough, len, p.some_bytes);
      hands_on = read_prefix_round t ts n have s q.0 p.no_error ∙ d.hands_on;
    }

after_prefix-valid :
    (ts : List Tick) (prefix : Bytes) (s : Socket) (n : ℕ)
    → is_valid_length_prefix prefix ≡ true
    → parse_prefix prefix ≡ some (pos n)
    → 9 ≤ n
    → after_prefix ts prefix s ≡ read_body ts (n - 9) prefix s
unfolding after_prefix
after_prefix-valid ts prefix s n v e h = rw v (rw e (rw (ltb-false n 9 h)))

-- The prefix of `frame` is valid and stands for the length of `frame`.
pub record IsFrame (frame : Bytes) : Type 0 where
  pub valid : is_valid_length_prefix (take 9 frame) ≡ true
  pub states_length : parse_prefix (take 9 frame) ≡ some (pos (length frame))
  pub holds_prefix : 9 ≤ length frame

pos-eq : {a b : ℕ} → some (pos a) ≡ some (pos b) → a ≡ b
pos-eq e = cc

complete-Means :
    (o : Outcome) (consumed : Bytes)
    → o.verdict ≡ complete
    → Means o.verdict o consumed
    → (o.connected ≡ true) × (o.buffer ≡ consumed)
complete-Means o consumed e m = subst (λ v. Means v o consumed) e m

-- Of two texts with one frame length in front, both frames are one.
same_frame :
    (b r frame rest : Bytes)
    → b ++ r ≡ frame ++ rest
    → parse_prefix (take 9 b) ≡ some (pos (length b))
    → 9 ≤ length b
    → IsFrame frame
    → (b ≡ frame) × (r ≡ rest)
same_frame b r frame rest e p nine f =
    let front : take 9 b ≡ take 9 frame =
      sym (take-append_le 9 b r nine)
      ∙ ap (take 9) e
      ∙ take-append_le 9 frame rest f.holds_prefix in
    let len : length b ≡ length frame = pos-eq (sym p ∙ ap parse_prefix front ∙ f.states_length) in
    (
      sym (take-append_len b r (length b) refl)
          ∙ ap (take (length b)) e
          ∙ take-append_len frame rest (length b) len,
      sym (drop-append_len b r (length b) refl)
          ∙ ap (drop (length b)) e
          ∙ drop-append_len frame rest (length b) len,
    )

finish :
    (size : ℕ) (o : Outcome) (all frame rest : Bytes)
    → Prefixed size 9 o all
    → all ≡ frame ++ rest
    → IsFrame frame
    → length frame ≤ size
    → o.verdict ≡ complete
finish size o all frame rest d e f h =
    let front : d.prefix ≡ take 9 frame =
      sym (take-append_len d.prefix (pending d.socket) 9 (sym d.nine))
      ∙ ap (take 9) (sym d.joins ∙ e)
      ∙ take-append_le 9 frame rest f.holds_prefix in
    let total = ap length (sym d.joins ∙ e) in
    let body =
      after_prefix-valid d.ticks d.prefix d.socket (length frame) (rw front f.valid)
        (rw front f.states_length) f.holds_prefix in
    rw (d.hands_on ∙ body) (
      read_body-complete d.ticks (length frame - 9) d.prefix d.socket d.quiet d.clean
        (omega (arith, d.enough))
        (omega (
          arith,
          total,
          d.nine,
          length-append d.prefix (pending d.socket),
          length-append frame rest,
        )))

module _ (ts : List Tick) (s : Socket) (frame rest : Bytes) where
  receive-complete :
      AllQuiet ts
      → IsClean s
      → pending s ≡ frame ++ rest
      → IsFrame frame
      → length frame ≤ length ts
      → (receive true ts s).verdict ≡ complete
  unfolding receive
  receive-complete q c e f h =
      let len = ap length e ∙ length-append frame rest in
      finish (length ts) (read_prefix ts 9 [] s) (pending s) frame rest
        (read_prefix-Prefixed ts 9 [] s q c (omega arith) (omega (arith, f.holds_prefix))
          (omega (arith, f.holds_prefix, len)))
        e f h

  -- A frame at the front of what the peer has sent is received whole, and exactly what follows it is
  -- left, however the network cuts the bytes into arrivals: when no error comes, no timer runs out,
  -- and the schedule has as many rounds as the frame has bytes.
  pub receive-frame :
      AllQuiet ts
      → IsClean s
      → pending s ≡ frame ++ rest
      → IsFrame frame
      → length frame ≤ length ts
      → ((receive true ts s).verdict ≡ complete)
        × ((receive true ts s).buffer ≡ frame)
        × ((receive true ts s).connected ≡ true)
        × (pending (receive true ts s).socket ≡ rest)
  receive-frame q c e f h =
      let done = receive-complete q c e f h in
      let o = receive true ts s in
      let a = receive-Accounts true ts s in
      let (up, whole) = complete-Means o a.consumed done a.means in
      let joined : o.buffer ++ pending o.socket ≡ frame ++ rest =
        ap (λ b. b ++ pending o.socket) whole ∙ sym a.splits ∙ e in
      let (w, nine) = receive-IsWhole true ts s done in
      let (same, left) = same_frame o.buffer (pending o.socket) frame rest joined w nine f in
      (done, same, up, left)
