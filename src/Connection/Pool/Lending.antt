-- ===== src/Connection/Pool/Lending.antt =====
-- The slots of a pool, over any sequence of calls. The pool is made by `NewChannelPool`, and
-- `InitializeChannelPool` runs once on it, before anything else, for any count and factory; it leaves the
-- new pool as it is when it refuses the count. The calls are `Get`, `PoolConn.Close`, `PingIdleConnections`
-- and `Close`. A client that got a wrapped connection closes it once, after `MarkUnusable` or not; what a
-- second `Close` does is in CloseTwice. A connection that was not wrapped has no way back to the pool.
use pod_os_go_client.Prelude.{
  ℕ, zero, suc, ◌+◌, ◌≤◌, ◌<◌, ◌≡◌, refl, subst, ap, ◌∙◌, Bool, true, false, ◌&&◌, Option, none,
  some, inl, inr, not, ◌||◌, ◌==◌, ◌++◌, Bool-cases, Option-cases, List, [], ◌∷◌, arith, ltb, leb,
  if◌then◌else◌, length, length-append, none_ne_some,
}
use pod_os_go_client.Connection.Pool.{
  close_all, put, put_to, ChannelPool, ConnectionData, GetInput, GetResult, close, create, ctx_err,
  err_closed, factory_failed, get, get_from, get_or_create, got, new_channel_pool, pool_conn,
  pool_conn_close, raw_conn, would_block, fill, refill, ping_idle_from, ping_idle_connections,
  initialize_channel_pool,
}
use pod_os_go_client.Prelude.Int.{ℤ, pos, negsuc}

pub data Event : Type 0 where
  gets : GetInput → Event
  returns : (which : ℕ) → (unusable : Bool) → Event
  pings : Option (ℕ → Bool) → Event
  closes : Event

-- A pool and its clients: the wrapped connections they hold, and `leaked`, the number of slots taken
-- for connections that were handed out unwrapped or were closed after `MarkUnusable`.
pub record World : Type 0 where
  pub pool : ChannelPool
  pub lent : List ConnectionData
  pub leaked : ℕ

abbrev second :
    (List ConnectionData → List ConnectionData)
    → Option (ConnectionData × List ConnectionData)
    → Option (ConnectionData × List ConnectionData)
second f none = none
second f (some (c, rest)) = some (c, f rest)

abbrev pub take_at : ℕ → List ConnectionData → Option (ConnectionData × List ConnectionData)
take_at n [] = none
take_at zero (c ∷ cs) = some (c, cs)
take_at (suc n) (c ∷ cs) = second (λ rest. c ∷ rest) (take_at n cs)

abbrev pub after_get : List ConnectionData → ℕ → GetResult → ChannelPool → World
after_get lent n (got (pool_conn c)) p = record { pool = p; lent = c ∷ lent; leaked = n }
after_get lent n (got (raw_conn c)) p = record { pool = p; lent = lent; leaked = suc n }
after_get lent n err_closed p = record { pool = p; lent = lent; leaked = n }
after_get lent n factory_failed p = record { pool = p; lent = lent; leaked = n }
after_get lent n ctx_err p = record { pool = p; lent = lent; leaked = n }
after_get lent n would_block p = record { pool = p; lent = lent; leaked = n }

abbrev pub after_return : Bool → World → Option (ConnectionData × List ConnectionData) → World
after_return unusable w none = w
after_return unusable w (some (c, rest)) = record {
  pool = pool_conn_close unusable c w.pool;
  lent = rest;
  leaked = if unusable then suc w.leaked else w.leaked;
}

unfoldable pub step : Event → World → World
step (gets i) w = after_get w.lent w.leaked (get i w.pool).0 (get i w.pool).1
step (returns k unusable) w = after_return unusable w (take_at k w.lent)
step (pings ping) w = record {
  pool = (ping_idle_connections ping w.pool).1;
  lent = w.lent;
  leaked = w.leaked;
}
step closes w = record { pool = close w.pool; lent = w.lent; leaked = w.leaked }

unfoldable pub run : List Event → World → World
run [] w = w
run (e ∷ es) w = run es (step e w)

abbrev pub start : (ℕ → Option ConnectionData) → ℤ → (max_cap : ℕ) → World
start factory n max_cap = record {
  pool = (initialize_channel_pool factory n (new_channel_pool max_cap)).1;
  lent = [];
  leaked = 0;
}

-- As long as the pool is open, every taken slot is an idle connection, a lent one or a leaked one.
abbrev pub AccountsOf : Option (List ConnectionData) → (semaphore max_cap lent leaked : ℕ) → Type 0
AccountsOf none s m l k = s ≤ m
AccountsOf (some idle) s m l k = (s ≤ m) × (s ≡ length idle + l + k)

abbrev pub Accounts : World → Type 0
Accounts w = AccountsOf w.pool.aip_conns w.pool.semaphore w.pool.max_cap (length w.lent) w.leaked

abbrev GetAccounts : List ConnectionData → ℕ → GetResult × ChannelPool → Type 0
GetAccounts lent n r = Accounts (after_get lent n r.0 r.1)

if-GetAccounts :
    (lent : List ConnectionData) (n : ℕ) (b : Bool) (x y : GetResult × ChannelPool)
    → (b ≡ true → GetAccounts lent n x)
    → (b ≡ false → GetAccounts lent n y)
    → GetAccounts lent n (if b then x else y)
if-GetAccounts lent n true x y p q = p refl
if-GetAccounts lent n false x y p q = q refl

create-Accounts :
    (lent : List ConnectionData) (n : ℕ) (f : Option ConnectionData) (s m : ℕ) (cl : List ℕ)
    → s < m
    → AccountsOf (some []) s m (length lent) n
    → GetAccounts lent n
        (create f (record { aip_conns = some []; semaphore = s; max_cap = m; closed = cl }))
create-Accounts lent n none s m cl h a = a
create-Accounts lent n (some conn) s m cl h a = (omega arith, omega (arith, a.1))

get_from-Accounts :
    (lent : List ConnectionData) (n : ℕ) (o : Option (List ConnectionData)) (i : GetInput) (s m : ℕ)
    (cl : List ℕ)
    → AccountsOf o s m (length lent) n
    → GetAccounts lent n
        (get_from o i (record { aip_conns = o; semaphore = s; max_cap = m; closed = cl }))
unfolding get_from get_or_create
get_from-Accounts lent n none i s m cl a = a
get_from-Accounts lent n (some (conn ∷ rest)) i s m cl a = (a.0, omega (arith, a.1))
get_from-Accounts lent n (some []) i s m cl a =
    if-GetAccounts lent n (leb m s) _ _
      (λ full. if-GetAccounts lent n i.ctx_done (ctx_err, _) (would_block, _) (λ b. a) (λ b. a))
      (λ free.
        let room : s < m = ground arith in
        if-GetAccounts lent n (i.ctx_done && i.prefers_ctx) (ctx_err, _) _ (λ b. a)
          (λ b. create-Accounts lent n i.factory s m cl room a))

get-Accounts : (i : GetInput) (w : World) → Accounts w → Accounts (step (gets i) w)
unfolding step get
get-Accounts i w a =
    get_from-Accounts w.lent w.leaked w.pool.aip_conns i w.pool.semaphore w.pool.max_cap
      w.pool.closed a

-- With a wrapped connection lent, there is room for it.
put_to-Accounts :
    (o : Option (List ConnectionData)) (conn : ConnectionData) (s m l n : ℕ) (cl : List ℕ)
    → AccountsOf o s m (suc l) n
    → let p = put_to o conn (record { aip_conns = o; semaphore = s; max_cap = m; closed = cl }) in
      AccountsOf p.aip_conns p.semaphore p.max_cap l n
unfolding put_to
put_to-Accounts none conn s m l n cl a = a
put_to-Accounts (some idle) conn s m l n cl a =
    let small : length idle < m = omega (arith, a.0, a.1) in
    let room : ltb (length idle) m ≡ true = ground arith in
    rw room (a.0, omega (arith, a.1, length-append idle (conn ∷ [])))

Second-length :
    (c₀ : ConnectionData) (o : Option (ConnectionData × List ConnectionData)) (n : ℕ)
    (c : ConnectionData) (rest : List ConnectionData)
    → ((d : ConnectionData) (r : List ConnectionData) → o ≡ some (d, r) → n ≡ suc (length r))
    → second (λ r. c₀ ∷ r) o ≡ some (c, rest)
    → suc n ≡ suc (length rest)
Second-length c₀ none n c rest h e = absurd (none_ne_some e)
Second-length c₀ (some (d, r)) n c rest h e =
    let same : c₀ ∷ r ≡ rest = cc in ap suc (h d r refl) ∙ ap (λ x. suc (length x)) same

length-take_at :
    (n : ℕ) (cs : List ConnectionData) (c : ConnectionData) (rest : List ConnectionData)
    → take_at n cs ≡ some (c, rest)
    → length cs ≡ suc (length rest)
length-take_at n [] c rest e = absurd (none_ne_some e)
length-take_at zero (d ∷ cs) c rest e = let same : cs ≡ rest = cc in ap (λ x. suc (length x)) same
length-take_at (suc n) (d ∷ cs) c rest e =
    Second-length d (take_at n cs) (length cs) c rest (length-take_at n cs) e

AccountsOf-leaks :
    (o : Option (List ConnectionData)) (s m l n : ℕ)
    → AccountsOf o s m (suc l) n
    → AccountsOf o s m l (suc n)
AccountsOf-leaks none s m l n a = a
AccountsOf-leaks (some idle) s m l n a = (a.0, omega (arith, a.1))

after_return-Accounts :
    (unusable : Bool) (w : World) (r : Option (ConnectionData × List ConnectionData))
    → ((c : ConnectionData) (rest : List ConnectionData)
        → r ≡ some (c, rest)
        → length w.lent ≡ suc (length rest))
    → Accounts w
    → Accounts (after_return unusable w r)
unfolding pool_conn_close put
after_return-Accounts u w none h a = a
after_return-Accounts true w (some (c, rest)) h a = AccountsOf-leaks w.pool.aip_conns _ _ _ _ (
    subst (λ l. AccountsOf w.pool.aip_conns w.pool.semaphore w.pool.max_cap l w.leaked)
      (h c rest refl) a)
after_return-Accounts false w (some (c, rest)) h a =
    put_to-Accounts w.pool.aip_conns _ w.pool.semaphore w.pool.max_cap _ _ w.pool.closed (
      subst (λ l. AccountsOf w.pool.aip_conns w.pool.semaphore w.pool.max_cap l w.leaked)
        (h c rest refl) a)

close_all-Accounts :
    (o : Option (List ConnectionData)) (s m l n : ℕ) (cl : List ℕ)
    → AccountsOf o s m l n
    → let p = close_all o (record { aip_conns = o; semaphore = s; max_cap = m; closed = cl }) in
      AccountsOf p.aip_conns p.semaphore p.max_cap l n
unfolding close_all
close_all-Accounts none s m l n cl a = a
close_all-Accounts (some idle) s m l n cl a = a.0

lent-AccountsOf :
    (o : Option (List ConnectionData)) (s m k l n : ℕ)
    → k ≡ l
    → AccountsOf o s m k n
    → AccountsOf o s m l n
lent-AccountsOf o s m k l n e a = subst (λ j. AccountsOf o s m j n) e a

-- Each connection that goes back had its slot.
refill-Accounts :
    (conns : List ConnectionData) (c : ChannelPool) (l n : ℕ)
    → AccountsOf c.aip_conns c.semaphore c.max_cap (length conns + l) n
    → let p = refill conns c in AccountsOf p.aip_conns p.semaphore p.max_cap l n
unfolding refill put
refill-Accounts [] c l n a = lent-AccountsOf c.aip_conns _ _ (0 + l) l n (omega arith) a
refill-Accounts (conn ∷ rest) c l n a = refill-Accounts rest (put conn c) l n (
    put_to-Accounts c.aip_conns conn c.semaphore c.max_cap (length rest + l) n c.closed (
      lent-AccountsOf c.aip_conns _ _ (suc (length rest) + l) (suc (length rest + l)) n
        (omega arith) a))

ping_idle_from-Accounts :
    (ping : ℕ → Bool) (o : Option (List ConnectionData)) (s m l n : ℕ) (cl : List ℕ)
    → AccountsOf o s m l n
    → let c : ChannelPool = record { aip_conns = o; semaphore = s; max_cap = m; closed = cl } in
      let p = (ping_idle_from ping o c).1 in AccountsOf p.aip_conns p.semaphore p.max_cap l n
unfolding ping_idle_from
ping_idle_from-Accounts ping none s m l n cl a = a
ping_idle_from-Accounts ping (some idle) s m l n cl a =
    refill-Accounts idle _ l n (a.0, omega (arith, a.1))

ping-Accounts : (ping : Option (ℕ → Bool)) (w : World) → Accounts w → Accounts (step (pings ping) w)
unfolding step ping_idle_connections
ping-Accounts none w a = a
ping-Accounts (some ping) w a =
    ping_idle_from-Accounts ping w.pool.aip_conns w.pool.semaphore w.pool.max_cap _ _ w.pool.closed
      a

fill-Accounts :
    (factory : ℕ → Option ConnectionData) (left i : ℕ) (idle : List ConnectionData) (s m : ℕ)
    (cl : List ℕ)
    → s ≡ length idle
    → s + left ≤ m
    → let c : ChannelPool = record {
      aip_conns = some idle;
      semaphore = s;
      max_cap = m;
      closed = cl;
    } in
      let p = (fill factory left i c).1 in AccountsOf p.aip_conns p.semaphore p.max_cap 0 0
unfolding fill close close_all
fill-Accounts factory zero i idle s m cl e le = (omega arith, omega arith)
fill-Accounts factory (suc left) i idle s m cl e le = elim (Option-cases (factory i)) [
  | inl fails ↦ rw fails (omega arith)
  | inr (conn, makes) ↦ rw makes (
      fill-Accounts factory left (suc i) (idle ++ conn ∷ []) (suc s) m cl
        (omega (arith, e, length-append idle (conn ∷ []))) (omega arith))
]

start-Accounts :
    (factory : ℕ → Option ConnectionData) (n : ℤ) (max_cap : ℕ) → Accounts (start factory n max_cap)
unfolding initialize_channel_pool new_channel_pool
start-Accounts factory (negsuc n) max_cap = (omega arith, omega arith)
start-Accounts factory (pos n) max_cap = elim (Bool-cases (max_cap == 0 || not (leb n max_cap))) [
  | inl refused ↦ rw refused (omega arith, omega arith)
  | inr fits ↦ rw fits (fill-Accounts factory n 0 [] 0 max_cap [] refl (ground arith))
]

pub step-Accounts : (e : Event) (w : World) → Accounts w → Accounts (step e w)
unfolding step close
step-Accounts (gets i) w a = get-Accounts i w a
step-Accounts (returns k u) w a =
    after_return-Accounts u w (take_at k w.lent) (length-take_at k w.lent) a
step-Accounts (pings ping) w a = ping-Accounts ping w a
step-Accounts closes w a =
    close_all-Accounts w.pool.aip_conns w.pool.semaphore w.pool.max_cap _ _ w.pool.closed a

pub run-Accounts-from : (es : List Event) (w : World) → Accounts w → Accounts (run es w)
unfolding run
run-Accounts-from [] w a = a
run-Accounts-from (e ∷ es) w a = run-Accounts-from es (step e w) (step-Accounts e w a)

-- From a pool that `InitializeChannelPool` has filled, with any count and factory, and after any calls in
-- any order of `Get`, `PoolConn.Close` (once for each wrapped connection, after `MarkUnusable` or not),
-- `PingIdleConnections` and `Close`, no more slots are taken than the pool's capacity; and as long as
-- the pool is open, the taken slots are the idle connections, the wrapped ones that clients hold, and
-- those leaked by `MarkUnusable` or by a connection handed out unwrapped.
pub run-Accounts :
    (factory : ℕ → Option ConnectionData) (n : ℤ) (es : List Event) (max_cap : ℕ)
    → Accounts (run es (start factory n max_cap))
run-Accounts factory n es max_cap =
    run-Accounts-from es (start factory n max_cap) (start-Accounts factory n max_cap)
