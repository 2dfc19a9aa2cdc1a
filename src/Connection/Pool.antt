-- ===== src/Connection/Pool.antt =====
-- `ChannelPool` and `PoolConn` of connection/pool.go. The pool's operations are atomic steps. The two
-- channels are a list of idle connections, `none` once the pool is closed, and the number of tokens in
-- the semaphore. A `net.Conn` of the factory is a number; a factory that returns no error returns a
-- connection. What a step closes is appended to `closed`. Taking a token
-- from an empty semaphore, which blocks, stops at 0 here.
mod Tests
pub mod Lending
pub mod Starvation
pub mod CloseTwice
pub mod Filling
use pod_os_go_client.Prelude.{
  ℕ, zero, suc, ◌-◌, Bool, true, false, not, ◌&&◌, ◌||◌, Option, none, some, List, [], ◌∷◌, ◌++◌,
  ltb, leb, ◌==◌, if◌then◌else◌, Bytes, length,
}
use pod_os_go_client.Prelude.Int.{ℤ, pos, negsuc}
use pod_os_go_client.Connection.Receive.{next}

pub record ConnectionData : Type 0 where
  pub conns : ℕ
  pub connection_id_uuid : Bytes

pub record ChannelPool : Type 0 where
  pub aip_conns : Option (List ConnectionData)
  pub semaphore : ℕ
  pub max_cap : ℕ
  pub closed : List ℕ

-- What `Get` hands out: a connection wrapped as a `PoolConn`, whose `Close` belongs to the pool, or
-- the connection of the factory itself.
pub data NetConn : Type 0 where
  pool_conn raw_conn : ConnectionData → NetConn

pub data GetResult : Type 0 where
  got : NetConn → GetResult
  err_closed factory_failed ctx_err would_block : GetResult

-- What the world decides in `Get`: what the factory returns, whether the context is done, and which
-- case the second `select` takes when the context is done and a slot is free.
pub record GetInput : Type 0 where
  pub factory : Option ConnectionData
  pub ctx_done : Bool
  pub prefers_ctx : Bool

unfoldable pub new_channel_pool : ℕ → ChannelPool
new_channel_pool max_cap = record {
  aip_conns = some [];
  semaphore = 0;
  max_cap = max_cap;
  closed = [];
}

abbrev pub with_idle : Option (List ConnectionData) → ChannelPool → ChannelPool
with_idle o c = record {
  aip_conns = o;
  semaphore = c.semaphore;
  max_cap = c.max_cap;
  closed = c.closed;
}

abbrev pub with_semaphore : ℕ → ChannelPool → ChannelPool
with_semaphore n c = record {
  aip_conns = c.aip_conns;
  semaphore = n;
  max_cap = c.max_cap;
  closed = c.closed;
}

abbrev pub closing : List ℕ → ChannelPool → ChannelPool
closing ids c = record {
  aip_conns = c.aip_conns;
  semaphore = c.semaphore;
  max_cap = c.max_cap;
  closed = c.closed ++ ids;
}

-- the case of the second `select` that takes a slot; a factory that fails gives it back
abbrev pub create : Option ConnectionData → ChannelPool → GetResult × ChannelPool
create none c = (factory_failed, c)
create (some conn) c = (got (raw_conn conn), with_semaphore (suc c.semaphore) c)

-- the second `select`, of a pool with no idle connection
unfoldable pub get_or_create : GetInput → ChannelPool → GetResult × ChannelPool
get_or_create i c =
    if leb c.max_cap c.semaphore
    then if i.ctx_done then (ctx_err, c) else (would_block, c)
    else if i.ctx_done && i.prefers_ctx
    then (ctx_err, c)
    else create i.factory c

unfoldable pub get_from :
    Option (List ConnectionData) → GetInput → ChannelPool → GetResult × ChannelPool
unfolding get_or_create
get_from none i c = (err_closed, c)
get_from (some []) i c = get_or_create i c
get_from (some (conn ∷ rest)) i c = (got (pool_conn conn), with_idle (some rest) c)

unfoldable pub get : GetInput → ChannelPool → GetResult × ChannelPool
unfolding get_from
get i c = get_from c.aip_conns i c

-- A closed pool closes the connection; a full one gives the slot back and closes it.
unfoldable pub put_to : Option (List ConnectionData) → ConnectionData → ChannelPool → ChannelPool
put_to none conn c = closing (conn.conns ∷ []) c
put_to (some idle) conn c =
    if ltb (length idle) c.max_cap
    then with_idle (some (idle ++ conn ∷ [])) c
    else closing (conn.conns ∷ []) (with_semaphore (c.semaphore - 1) c)

unfoldable pub put : ConnectionData → ChannelPool → ChannelPool
unfolding put_to
put conn c = put_to c.aip_conns conn c

-- `PoolConn.Close`, for a connection that is not nil
unfoldable pub pool_conn_close : (unusable : Bool) → ConnectionData → ChannelPool → ChannelPool
pool_conn_close unusable conn c =
    if unusable then c else put (record { conns = conn.conns; connection_id_uuid = [] }) c

abbrev pub handles : List ConnectionData → List ℕ
handles [] = []
handles (conn ∷ rest) = conn.conns ∷ handles rest

unfoldable pub close_all : Option (List ConnectionData) → ChannelPool → ChannelPool
close_all none c = c
close_all (some idle) c = closing (handles idle) (with_idle none c)

unfoldable pub close : ChannelPool → ChannelPool
unfolding close_all
close c = close_all c.aip_conns c

abbrev idle_length : Option (List ConnectionData) → ℕ
idle_length none = 0
idle_length (some idle) = length idle

unfoldable pub len : ChannelPool → ℕ
len c = idle_length c.aip_conns

unfoldable pub number_of_conns : ChannelPool → ℕ
number_of_conns c = c.semaphore

abbrev pub idle_with : ConnectionData → Option (List ConnectionData) → Option (List ConnectionData)
idle_with conn none = none
idle_with conn (some idle) = some (idle ++ conn ∷ [])

-- after the call of the factory: close the pool, or keep the connection and go on
abbrev pub filled :
    Option ConnectionData → ChannelPool → (ChannelPool → Bool × ChannelPool) → Bool × ChannelPool
filled none c next = (false, close c)
filled (some conn) c next = next (with_idle (idle_with conn c.aip_conns) c)

-- the loop of `InitializeChannelPool`, of which nothing else has the pool yet; `factory` is a function
-- of the number of the call, `left` of which are to come
unfoldable pub fill : (ℕ → Option ConnectionData) → (left i : ℕ) → ChannelPool → Bool × ChannelPool
fill factory zero i c = (true, c)
fill factory (suc left) i c =
    filled (factory i) (with_semaphore (suc c.semaphore) c) (fill factory left (suc i))

unfoldable pub initialize_channel_pool :
    (ℕ → Option ConnectionData) → ℤ → ChannelPool → Bool × ChannelPool
initialize_channel_pool factory (negsuc n) c = (false, c)
initialize_channel_pool factory (pos n) c =
    if c.max_cap == 0 || not (leb n c.max_cap) then (false, c) else fill factory n 0 c

-- the loop of `PingIdleConnections` that counts the pings that succeed
unfoldable pub count_sent : (ℕ → Bool) → List ConnectionData → ℕ
count_sent ping [] = 0
count_sent ping (conn ∷ rest) = let n = count_sent ping rest in if ping conn.conns then suc n else n

-- the loop that returns the drained connections, as `put` does on a pool that is open
unfoldable pub refill : List ConnectionData → ChannelPool → ChannelPool
refill [] c = c
refill (conn ∷ rest) c = refill rest (put conn c)

unfoldable pub ping_idle_from :
    (ℕ → Bool) → Option (List ConnectionData) → ChannelPool → ℕ × ChannelPool
unfolding count_sent refill
ping_idle_from ping none c = (0, c)
ping_idle_from ping (some idle) c = (count_sent ping idle, refill idle (with_idle (some []) c))

unfoldable pub ping_idle_connections : Option (ℕ → Bool) → ChannelPool → ℕ × ChannelPool
unfolding ping_idle_from
ping_idle_connections none c = (0, c)
ping_idle_connections (some ping) c = ping_idle_from ping c.aip_conns c
