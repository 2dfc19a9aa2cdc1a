-- ===== src/Connection/Socket.antt =====
-- What the calls of `Read` on a `net.Conn` deliver. The peer, the network and the clock choose it.
use pod_os_go_client.Prelude.{
  ℕ, ◌≤◌, ◌≡◌, refl, inl, inr, Option, none, some, List, [], ◌∷◌, ◌++◌, append_assoc, arith, leb,
  if◌then◌else◌, leb→le, Bool-cases, Bytes, length, take, drop, take-append-drop, length-take,
}

pub data ReadError : Type 0 where
  timeout eof reset : ReadError

-- Bytes that arrive together, and the error that comes with the last of them, if any.
pub record Arrival : Type 0 where
  pub chunk : Bytes
  pub error : Option ReadError

abbrev pub Socket : Type 0
Socket = List Arrival

-- The bytes that are to come.
abbrev pub pending : Socket → Bytes
pending [] = []
pending (a ∷ s) = a.chunk ++ pending s

pub record ReadResult : Type 0 where
  pub bytes : Bytes
  pub error : Option ReadError
  pub rest : Socket

-- `Conn.Read` into a buffer of `k` bytes: what does not fit stays for the next call. Where nothing
-- comes any more, the read deadline passes.
unfoldable pub read : ℕ → Socket → ReadResult
read k [] = record { bytes = []; error = some timeout; rest = [] }
read k (a ∷ s) =
    if leb (length a.chunk) k
    then record { bytes = a.chunk; error = a.error; rest = s }
    else record {
      bytes = take k a.chunk;
      error = none;
      rest = record { chunk = drop k a.chunk; error = a.error } ∷ s;
    }

-- A read takes the next bytes, no more than fit, and loses none.
pub read-pending : (k : ℕ) (s : Socket) → (read k s).bytes ++ pending (read k s).rest ≡ pending s
unfolding read
read-pending k [] = refl
read-pending k (a ∷ s) = elim (Bool-cases (leb (length a.chunk) k)) [
  | inl fits ↦ rw fits
  | inr more ↦ rw more (rw (← append_assoc) (rw (take-append-drop k a.chunk)))
]

pub read-length-le : (k : ℕ) (s : Socket) → length (read k s).bytes ≤ k
unfolding read
read-length-le k [] = omega arith
read-length-le k (a ∷ s) = elim (Bool-cases (leb (length a.chunk) k)) [
  | inl fits ↦ rw fits (leb→le _ _ fits)
  | inr more ↦ rw more (ground (arith, length-take k a.chunk))
]
