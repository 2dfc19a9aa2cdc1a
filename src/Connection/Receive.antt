-- ===== src/Connection/Receive.antt =====
-- `isValidLengthPrefix` and `Client.Receive` of connection/client.go. The clock is a list of what each
-- round of a loop sees of it; a schedule that ends before the call returns is `blocked`. Tracing,
-- logging, the wire hook and `SetReadDeadline` are left out.
pub mod Verdicts
pub mod WholeFrame
pub mod Reassembly
use pod_os_go_client.Prelude.{
  ℕ, zero, suc, ◌-◌, ◌^◌, min, Bool, true, false, not, ◌&&◌, ◌||◌, Option, none, some, List, [],
  ◌∷◌, ◌++◌, ltb, leb, ◌==◌, if◌then◌else◌, Bytes, length,
}
use pod_os_go_client.Prelude.Int.{ℤ, pos, negsuc}
use pod_os_go_client.Connection.Socket.{timeout, eof, reset, ReadError, Socket, read}
use pod_os_go_client.Strconv.{parse_int}

unfoldable pub is_hex_byte : ℕ → Bool
is_hex_byte b =
    (leb b'0' b && leb b b'9') || (leb b'a' b && leb b b'f') || (leb b'A' b && leb b b'F')

unfoldable pub all_hex : Bytes → Bool
unfolding is_hex_byte
all_hex [] = true
all_hex (b ∷ s) = is_hex_byte b && all_hex s

all_decimal : Bytes → Bool
all_decimal [] = true
all_decimal (b ∷ s) = (not (ltb b b'0') && not (ltb b'9' b)) && all_decimal s

unfoldable pub valid_digits : Bytes → Bool
unfolding all_hex all_decimal
valid_digits [] = true
valid_digits (b ∷ s) = if b == b'x' then all_hex s else all_decimal (b ∷ s)

unfoldable pub is_valid_length_prefix : Bytes → Bool
unfolding valid_digits
is_valid_length_prefix prefix = if length prefix == 9 then valid_digits prefix else false

-- The length in a valid prefix.
unfoldable pub parse_prefix : Bytes → Option ℤ
unfolding parse_int
parse_prefix [] = none
parse_prefix (b ∷ s) = if b == b'x' then parse_int 16 (2 ^ 31) s else parse_int 10 (2 ^ 31) (b ∷ s)

-- What one round of a loop sees: the context has expired before the read, or after it; nothing has
-- arrived for longer than the activity timeout, before the read or after it.
pub record Tick : Type 0 where
  pub expired : Bool
  pub stalled : Bool
  pub expired_after : Bool
  pub stalled_after : Bool

pub data Verdict : Type 0 where
  complete idle_timeout connection_lost not_connected blocked : Verdict

-- The result of `Receive`: how it ends, the number of bytes read, the buffer, the flag `connected`
-- and what is left on the socket.
pub record Outcome : Type 0 where
  pub verdict : Verdict
  pub total_read : ℕ
  pub buffer : Bytes
  pub connected : Bool
  pub socket : Socket

-- `markDisconnected`, and a fatal error
abbrev lost : ℕ → Bytes → Socket → Outcome
lost n b s = record {
  verdict = connection_lost;
  total_read = n;
  buffer = b;
  connected = false;
  socket = s;
}

abbrev pub receive_chunk_size : ℕ
receive_chunk_size = 512

abbrev is_timeout : ReadError → Bool
is_timeout timeout = true
is_timeout eof = false
is_timeout reset = false

abbrev is_eof : ReadError → Bool
is_eof timeout = false
is_eof eof = true
is_eof reset = false

-- One round of the loop over the body: go on, with the bytes still missing, or return.
pub data Round : Type 0 where
  returns : Outcome → Round
  continues : ℕ → Bytes → Socket → Round

abbrev pub next : Round → (ℕ → Bytes → Socket → Outcome) → Outcome
next (returns o) k = o
next (continues n buf s) k = k n buf s

-- after the read of `r` into a buffer that held `buf`, with `remaining` bytes missing
body_after_read : Tick → ℕ → Bytes → Socket → Option ReadError → Round
body_after_read t remaining buf s none = continues remaining buf s
body_after_read t remaining buf s (some e) =
    if t.expired_after
    then returns (lost (length buf) buf s)
    else if is_eof e && remaining == 0
    then continues remaining buf s
    else if is_timeout e
    then if t.stalled_after then returns (lost (length buf) buf s) else continues remaining buf s
    else returns (lost (length buf) buf s)

unfoldable pub body_round : Tick → ℕ → Bytes → Socket → Round
unfolding body_after_read
body_round t remaining buf s =
    if t.expired
    then returns (lost (length buf) buf s)
    else if t.stalled
    then returns (lost (length buf) buf s)
    else let r = read (min receive_chunk_size remaining) s in
      body_after_read t (remaining - length r.bytes) (buf ++ r.bytes) r.rest r.error

-- `for remainingBytes > 0`
unfoldable pub read_body : List Tick → ℕ → Bytes → Socket → Outcome
read_body ticks zero buf s = record {
  verdict = complete;
  total_read = length buf;
  buffer = buf;
  connected = true;
  socket = s;
}
read_body [] (suc n) buf s = record {
  verdict = blocked;
  total_read = length buf;
  buffer = buf;
  connected = true;
  socket = s;
}
read_body (t ∷ ts) (suc n) buf s =
    next (body_round t (suc n) buf s) (λ n' buf' s'. read_body ts n' buf' s')

-- The step between the loops: the prefix is checked, parsed, and counted off.
unfoldable pub after_prefix : List Tick → Bytes → Socket → Outcome
after_prefix ticks prefix s =
    if is_valid_length_prefix prefix
    then elim (parse_prefix prefix) [
      | none ↦ lost (length prefix) [] s
      | some z ↦ elim z [
        | negsuc n ↦ lost (length prefix) [] s
        | pos n ↦ if ltb n 9 then lost (length prefix) [] s else read_body ticks (n - 9) prefix s
      ]
    ]
    else lost (length prefix) [] s

-- a return before the length prefix is complete, with the bytes `have`
prefix_fails : Bool → Bytes → Socket → Outcome
prefix_fails benign have s =
    if benign && length have == 0
    then record {
      verdict = idle_timeout;
      total_read = 0;
      buffer = [];
      connected = true;
      socket = s;
    }
    else lost (length have) [] s

-- after the read, with the bytes `have` of the prefix
prefix_after_read : Tick → Bytes → Socket → Option ReadError → Round
unfolding prefix_fails
prefix_after_read t have s none = continues (9 - length have) have s
prefix_after_read t have s (some e) =
    returns (prefix_fails (is_timeout e || t.expired_after) have s)

unfoldable pub prefix_round : Tick → Bytes → Socket → Round
unfolding prefix_after_read
prefix_round t have s =
    if t.expired
    then returns (prefix_fails true have s)
    else let r = read (9 - length have) s in prefix_after_read t (have ++ r.bytes) r.rest r.error

-- `for totalRead < 9`, with `missing` bytes of the prefix still to come
unfoldable pub read_prefix : List Tick → ℕ → Bytes → Socket → Outcome
read_prefix ticks zero have s = after_prefix ticks have s
read_prefix [] (suc n) have s = record {
  verdict = blocked;
  total_read = length have;
  buffer = [];
  connected = true;
  socket = s;
}
read_prefix (t ∷ ts) (suc n) have s =
    next (prefix_round t have s) (λ n' have' s'. read_prefix ts n' have' s')

unfoldable pub receive : Bool → List Tick → Socket → Outcome
receive connected ticks s = if connected then read_prefix ticks 9 [] s else record {
  verdict = not_connected;
  total_read = 0;
  buffer = [];
  connected = false;
  socket = s;
}
