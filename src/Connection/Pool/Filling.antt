-- ===== src/Connection/Pool/Filling.antt =====
-- How a pool is filled, and what a ping leaves of it.
use pod_os_go_client.Prelude.{
  ℕ, zero, suc, ◌+◌, ◌≤◌, ◌<◌, ◌≡◌, refl, sym, ap, ◌∙◌, Bool, true, false, Option, none, some, List,
  [], ◌∷◌, ◌++◌, append-nil, append_assoc, arith, ltb, leb, ◌==◌, le→leb, length, length-append,
}
use pod_os_go_client.Prelude.Int.{ℤ, pos}
use pod_os_go_client.Connection.Pool.Lending.{AccountsOf, Event, run, run-Accounts, start}
use pod_os_go_client.Wire.Decoder.{fails}
use pod_os_go_client.Connection.Pool.{
  ping_idle_connections, ping_idle_from, put, put_to, refill, ChannelPool, ConnectionData, close,
  close_all, fill, handles, initialize_channel_pool, new_channel_pool,
}

-- From call `i` on, the factory makes these connections.
abbrev pub Makes : (ℕ → Option ConnectionData) → ℕ → List ConnectionData → Type 0
Makes factory i [] = Unit {0}
Makes factory i (conn ∷ rest) = (factory i ≡ some conn) × Makes factory (suc i) rest

abbrev pub open_pool : List ConnectionData → (semaphore max_cap : ℕ) → List ℕ → ChannelPool
open_pool idle s m cl = record { aip_conns = some idle; semaphore = s; max_cap = m; closed = cl }

fill-Makes :
    (factory : ℕ → Option ConnectionData) (conns idle : List ConnectionData) (i s m : ℕ)
    (cl : List ℕ)
    → Makes factory i conns
    → fill factory (length conns) i (open_pool idle s m cl)
      ≡ (true, open_pool (idle ++ conns) (s + length conns) m cl)
unfolding fill
fill-Makes factory [] idle i s m cl h =
    let same : s ≡ s + 0 = omega arith in
    ap (λ n. (true, open_pool idle n m cl)) same
    ∙ ap (λ l. (true, open_pool l (s + 0) m cl)) (sym (append-nil idle))
fill-Makes factory (conn ∷ rest) idle i s m cl h =
    let same : suc s + length rest ≡ s + suc (length rest) = omega arith in
    rw h.0 (
      fill-Makes factory rest (idle ++ conn ∷ []) (suc i) (suc s) m cl h.1
      ∙ ap (λ n. (true, open_pool ((idle ++ conn ∷ []) ++ rest) n m cl)) same
      ∙ ap (λ l. (true, open_pool l (s + suc (length rest)) m cl))
          (append_assoc idle (conn ∷ []) rest))

-- `InitializeChannelPool` on a new pool, for a count within its capacity and a factory that makes that
-- many connections, leaves them idle in the order in which they were made, with a slot for each.
pub initialize_channel_pool-Makes :
    (factory : ℕ → Option ConnectionData) (conns : List ConnectionData) (max_cap : ℕ)
    → 0 < max_cap
    → length conns ≤ max_cap
    → Makes factory 0 conns
    → initialize_channel_pool factory (pos (length conns)) (new_channel_pool max_cap)
      ≡ (true, open_pool conns (length conns) max_cap [])
unfolding initialize_channel_pool new_channel_pool
initialize_channel_pool-Makes factory conns max_cap h le makes =
    let some_cap : (max_cap == 0) ≡ false = ground arith in
    let fits : leb (length conns) max_cap ≡ true = le→leb _ _ le in
    let same : 0 + length conns ≡ length conns = omega arith in
    rw some_cap (
      rw fits (
        fill-Makes factory conns [] 0 0 max_cap [] makes
        ∙ ap (λ n. (true, open_pool conns n max_cap [])) same))

-- The pool that is left when the factory fails after it has made `conns`.
abbrev pub failed_pool : List ConnectionData → (semaphore max_cap : ℕ) → ChannelPool
failed_pool conns s m = record {
  aip_conns = none;
  semaphore = s;
  max_cap = m;
  closed = handles conns;
}

fill-fails :
    (factory : ℕ → Option ConnectionData) (conns idle : List ConnectionData) (n i s m : ℕ)
    → Makes factory i conns
    → factory (i + length conns) ≡ none
    → length conns < n
    → fill factory n i (open_pool idle s m [])
      ≡ (false, failed_pool (idle ++ conns) (suc (s + length conns)) m)
unfolding fill close close_all
fill-fails factory conns idle zero i s m h e lt = absurd (omega arith)
fill-fails factory [] idle (suc n) i s m h e lt =
    let here : i ≡ i + 0 = omega arith in
    let same : s ≡ s + 0 = omega arith in
    rw (ap factory here ∙ e) (
      ap (λ k. (false, failed_pool idle (suc k) m)) same
      ∙ ap (λ l. (false, failed_pool l (suc (s + 0)) m)) (sym (append-nil idle)))
fill-fails factory (conn ∷ rest) idle (suc n) i s m h e lt =
    let next : suc i + length rest ≡ i + suc (length rest) = omega arith in
    let same : suc s + length rest ≡ s + suc (length rest) = omega arith in
    rw h.0 (
      fill-fails factory rest (idle ++ conn ∷ []) n (suc i) (suc s) m h.1 (ap factory next ∙ e)
        (omega arith)
      ∙ ap (λ k. (false, failed_pool ((idle ++ conn ∷ []) ++ rest) (suc k) m)) same
      ∙ ap (λ l. (false, failed_pool l (suc (s + suc (length rest))) m))
          (append_assoc idle (conn ∷ []) rest))

-- When the factory makes some connections and then fails before the count is reached,
-- `InitializeChannelPool` fails, closes the pool, and closes exactly the connections made.
pub initialize_channel_pool-fails :
    (factory : ℕ → Option ConnectionData) (conns : List ConnectionData) (max_cap n : ℕ)
    → n ≤ max_cap
    → length conns < n
    → Makes factory 0 conns
    → factory (length conns) ≡ none
    → initialize_channel_pool factory (pos n) (new_channel_pool max_cap)
      ≡ (false, failed_pool conns (suc (length conns)) max_cap)
unfolding initialize_channel_pool new_channel_pool
initialize_channel_pool-fails factory conns max_cap n le lt makes fails =
    let some_cap : (max_cap == 0) ≡ false = ground arith in
    let fits : leb n max_cap ≡ true = le→leb _ _ le in
    let same : 0 + length conns ≡ length conns = omega arith in
    rw some_cap (
      rw fits (
        fill-fails factory conns [] n 0 0 max_cap makes (ap factory same ∙ fails) lt
        ∙ ap (λ k. (false, failed_pool conns (suc k) max_cap)) same))

refill-open :
    (conns idle : List ConnectionData) (s m : ℕ) (cl : List ℕ)
    → length idle + length conns ≤ m
    → refill conns (open_pool idle s m cl) ≡ open_pool (idle ++ conns) s m cl
unfolding refill put put_to
refill-open [] idle s m cl h = ap (λ l. open_pool l s m cl) (sym (append-nil idle))
refill-open (conn ∷ rest) idle s m cl h =
    let room : ltb (length idle) m ≡ true = ground arith in
    rw room (
      refill-open rest (idle ++ conn ∷ []) s m cl (omega (arith, length-append idle (conn ∷ [])))
      ∙ ap (λ l. open_pool l s m cl) (append_assoc idle (conn ∷ []) rest))

ping_idle_from-same :
    (ping : ℕ → Bool) (o : Option (List ConnectionData)) (s m : ℕ) (cl : List ℕ) (l k : ℕ)
    → AccountsOf o s m l k
    → let c : ChannelPool = record { aip_conns = o; semaphore = s; max_cap = m; closed = cl } in
      (ping_idle_from ping o c).1 ≡ c
unfolding ping_idle_from
ping_idle_from-same ping none s m cl l k a = refl
ping_idle_from-same ping (some idle) s m cl l k a =
    refill-open idle [] s m cl (omega (arith, a.0, a.1))

-- From a pool that `InitializeChannelPool` has filled, and after any of the calls of `Lending`,
-- `PingIdleConnections` leaves the pool as it was: every idle connection goes back in its place, and
-- none is closed, whatever the pings return.
pub ping_idle_connections-same :
    (factory : ℕ → Option ConnectionData) (n : ℤ) (es : List Event) (max_cap : ℕ)
    (ping : Option (ℕ → Bool))
    → (ping_idle_connections ping (run es (start factory n max_cap)).pool).1
      ≡ (run es (start factory n max_cap)).pool
unfolding ping_idle_connections
ping_idle_connections-same factory n es max_cap none = refl
ping_idle_connections-same factory n es max_cap (some ping) =
    let w = run es (start factory n max_cap) in
    ping_idle_from-same ping w.pool.aip_conns w.pool.semaphore w.pool.max_cap w.pool.closed _ _
      (run-Accounts factory n es max_cap)
