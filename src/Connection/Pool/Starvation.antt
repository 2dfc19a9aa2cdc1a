-- ===== src/Connection/Pool/Starvation.antt =====
-- What becomes of a pool whose slots have all leaked.
use pod_os_go_client.Prelude.{
  ℕ, ◌≤◌, ◌≡◌, refl, ◌∙◌, ◌≢◌, inl, inr, Bool, true, false, ◌&&◌, Option, none, some, List, [], ◌∷◌,
  arith, ltb, leb, if◌then◌else◌, le→leb, Bool-cases, Option-cases, length, zero, suc, not, ◌||◌,
  ◌==◌,
}
use pod_os_go_client.Prelude.Int.{ℤ, pos, negsuc}
use pod_os_go_client.Connection.Pool.Lending.{
  returns, pings, AccountsOf, Event, World, after_get, after_return, closes, gets, run,
  run-Accounts, run-Accounts-from, start, step, take_at,
}
use pod_os_go_client.Connection.Pool.{
  ChannelPool, ConnectionData, GetInput, GetResult, NetConn, close, close_all, create, ctx_err,
  err_closed, factory_failed, get, get_from, get_or_create, got, new_channel_pool, pool_conn,
  pool_conn_close, put, put_to, raw_conn, would_block, fill, refill, ping_idle_from,
  ping_idle_connections, initialize_channel_pool,
}

abbrev pub NoConnection : GetResult → Type 0
NoConnection r = (c : NetConn) → r ≢ got c

-- A step keeps the capacity and gives no leaked slot back.
abbrev Keeps : World → World → Type 0
Keeps w w' = (w'.pool.max_cap ≡ w.pool.max_cap) × (w.leaked ≤ w'.leaked)

after_get-Keeps :
    (w : World) (r : GetResult) (p : ChannelPool)
    → p.max_cap ≡ w.pool.max_cap
    → Keeps w (after_get w.lent w.leaked r p)
after_get-Keeps w (got (pool_conn c)) p h = (h, omega arith)
after_get-Keeps w (got (raw_conn c)) p h = (h, omega arith)
after_get-Keeps w err_closed p h = (h, omega arith)
after_get-Keeps w factory_failed p h = (h, omega arith)
after_get-Keeps w ctx_err p h = (h, omega arith)
after_get-Keeps w would_block p h = (h, omega arith)

if-pool :
    (m : ℕ) (b : Bool) (x y : GetResult × ChannelPool)
    → x.1.max_cap ≡ m
    → y.1.max_cap ≡ m
    → (if b then x else y).1.max_cap ≡ m
if-pool m true x y p q = p
if-pool m false x y p q = q

create-max_cap : (f : Option ConnectionData) (c : ChannelPool) → (create f c).1.max_cap ≡ c.max_cap
create-max_cap none c = refl
create-max_cap (some conn) c = refl

get_from-max_cap :
    (o : Option (List ConnectionData)) (i : GetInput) (c : ChannelPool)
    → (get_from o i c).1.max_cap ≡ c.max_cap
unfolding get_from get_or_create
get_from-max_cap none i c = refl
get_from-max_cap (some (conn ∷ rest)) i c = refl
get_from-max_cap (some []) i c =
    if-pool c.max_cap (leb c.max_cap c.semaphore) _ _
      (if-pool c.max_cap i.ctx_done (ctx_err, c) (would_block, c) refl refl)
      (if-pool c.max_cap (i.ctx_done && i.prefers_ctx) (ctx_err, c) _ refl
        (create-max_cap i.factory c))

put_to-max_cap :
    (o : Option (List ConnectionData)) (conn : ConnectionData) (c : ChannelPool)
    → (put_to o conn c).max_cap ≡ c.max_cap
unfolding put_to
put_to-max_cap none conn c = refl
put_to-max_cap (some idle) conn c = elim (Bool-cases (ltb (length idle) c.max_cap)) [
  | inl e ↦ rw e refl
  | inr e ↦ rw e refl
]

after_return-Keeps :
    (unusable : Bool) (w : World) (r : Option (ConnectionData × List ConnectionData))
    → Keeps w (after_return unusable w r)
unfolding pool_conn_close put
after_return-Keeps u w none = (refl, omega arith)
after_return-Keeps true w (some (c, rest)) = (refl, omega arith)
after_return-Keeps false w (some (c, rest)) =
    (put_to-max_cap w.pool.aip_conns _ w.pool, omega arith)

close_all-max_cap :
    (o : Option (List ConnectionData)) (c : ChannelPool) → (close_all o c).max_cap ≡ c.max_cap
unfolding close_all
close_all-max_cap none c = refl
close_all-max_cap (some idle) c = refl

refill-max_cap :
    (conns : List ConnectionData) (c : ChannelPool) → (refill conns c).max_cap ≡ c.max_cap
unfolding refill put
refill-max_cap [] c = refl
refill-max_cap (conn ∷ rest) c =
    refill-max_cap rest (put conn c) ∙ put_to-max_cap c.aip_conns conn c

ping_idle_from-max_cap :
    (ping : ℕ → Bool) (o : Option (List ConnectionData)) (c : ChannelPool)
    → (ping_idle_from ping o c).1.max_cap ≡ c.max_cap
unfolding ping_idle_from
ping_idle_from-max_cap ping none c = refl
ping_idle_from-max_cap ping (some idle) c = refill-max_cap idle _

ping-max_cap :
    (ping : Option (ℕ → Bool)) (c : ChannelPool)
    → (ping_idle_connections ping c).1.max_cap ≡ c.max_cap
unfolding ping_idle_connections
ping-max_cap none c = refl
ping-max_cap (some ping) c = ping_idle_from-max_cap ping c.aip_conns c

fill-max_cap :
    (factory : ℕ → Option ConnectionData) (left i : ℕ) (c : ChannelPool)
    → (fill factory left i c).1.max_cap ≡ c.max_cap
unfolding fill close
fill-max_cap factory zero i c = refl
fill-max_cap factory (suc left) i c = elim (Option-cases (factory i)) [
  | inl fails ↦ rw fails (close_all-max_cap c.aip_conns _)
  | inr (conn, makes) ↦ rw makes (fill-max_cap factory left (suc i) _)
]

initialize-max_cap :
    (factory : ℕ → Option ConnectionData) (n : ℤ) (c : ChannelPool)
    → (initialize_channel_pool factory n c).1.max_cap ≡ c.max_cap
unfolding initialize_channel_pool
initialize-max_cap factory (negsuc n) c = refl
initialize-max_cap factory (pos n) c = elim (Bool-cases (c.max_cap == 0 || not (leb n c.max_cap))) [
  | inl refused ↦ rw refused refl
  | inr fits ↦ rw fits (fill-max_cap factory n 0 c)
]

step-Keeps : (e : Event) (w : World) → Keeps w (step e w)
unfolding step get close
step-Keeps (gets i) w = after_get-Keeps w _ _ (get_from-max_cap w.pool.aip_conns i w.pool)
step-Keeps (returns k u) w = after_return-Keeps u w (take_at k w.lent)
step-Keeps (pings ping) w = (ping-max_cap ping w.pool, omega arith)
step-Keeps closes w = (close_all-max_cap w.pool.aip_conns w.pool, omega arith)

run-Keeps : (es : List Event) (w : World) → Keeps w (run es w)
unfolding run
run-Keeps [] w = (refl, omega arith)
run-Keeps (e ∷ es) w =
    let (m, l) = step-Keeps e w in let (m', l') = run-Keeps es (step e w) in (m' ∙ m, omega arith)

get_from-NoConnection :
    (o : Option (List ConnectionData)) (i : GetInput) (c : ChannelPool) (l n : ℕ)
    → AccountsOf o c.semaphore c.max_cap l n
    → c.max_cap ≤ n
    → NoConnection (get_from o i c).0
unfolding get_from get_or_create
get_from-NoConnection none i c l n a h = λ x e. cc
get_from-NoConnection (some (conn ∷ rest)) i c l n a h = absurd (omega (arith, a.0, a.1))
get_from-NoConnection (some []) i c l n a h =
    let full : leb c.max_cap c.semaphore ≡ true = le→leb _ _ (omega (arith, a.1)) in
    rw full (elim (Bool-cases i.ctx_done) [ inl e ↦ rw e (λ x e'. cc) | inr e ↦ rw e (λ x e'. cc) ])

-- Once as many slots of a pool as it has have leaked, `Get` never hands out a connection again, whatever
-- calls of `Get`, `PoolConn.Close` (once for each wrapped connection), `PingIdleConnections` and `Close`
-- come in between. (The pool is one that `InitializeChannelPool` has filled, with any count and factory, and
-- the calls before are any of these.)
pub run-Starves :
    (factory : ℕ → Option ConnectionData) (n : ℤ) (es later : List Event) (max_cap : ℕ)
    (i : GetInput)
    → max_cap ≤ (run es (start factory n max_cap)).leaked
    → NoConnection (get i (run later (run es (start factory n max_cap))).pool).0
unfolding get new_channel_pool
run-Starves factory n es later max_cap i h =
    let w = run es (start factory n max_cap) in
    let w' = run later w in
    let a = run-Accounts-from later w (run-Accounts factory n es max_cap) in
    let (m, l) = run-Keeps later w in
    let (m₀, l₀) = run-Keeps es (start factory n max_cap) in
    let m₁ = initialize-max_cap factory n (new_channel_pool max_cap) in
    get_from-NoConnection w'.pool.aip_conns i w'.pool (length w'.lent) w'.leaked a
      (omega (arith, m, m₀, m₁, l, h))
