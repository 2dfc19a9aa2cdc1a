-- ===== src/Connection/Pool/CloseTwice.antt =====
-- What a second `Close` of a wrapped connection does.
use pod_os_go_client.Prelude.{
  ℕ, ◌≤◌, ◌<◌, ◌≡◌, refl, ap, true, false, List, [], ◌∷◌, ◌++◌, arith, ltb, length,
}
use pod_os_go_client.Connection.Pool.{
  ConnectionData, GetInput, get, get_from, got, pool_conn, pool_conn_close, put, put_to,
}
use pod_os_go_client.Connection.Pool.Filling.{open_pool}

abbrev pub without_id : ConnectionData → ConnectionData
without_id conn = record { conns = conn.conns; connection_id_uuid = [] }

put-open :
    (conn : ConnectionData) (idle : List ConnectionData) (s m : ℕ) (cl : List ℕ)
    → length idle < m
    → pool_conn_close false conn (open_pool idle s m cl)
      ≡ open_pool (idle ++ without_id conn ∷ []) s m cl
unfolding pool_conn_close put put_to
put-open conn idle s m cl h = let room : ltb (length idle) m ≡ true = ground arith in rw room refl

get-first :
    (i : GetInput) (conn : ConnectionData) (idle : List ConnectionData) (s m : ℕ) (cl : List ℕ)
    → get i (open_pool (conn ∷ idle) s m cl) ≡ (got (pool_conn conn), open_pool idle s m cl)
unfolding get get_from
get-first i conn idle s m cl = refl

-- When a client closes a wrapped connection twice and the pool, with nothing idle, has room for two,
-- the next two calls of `Get` hand out that same connection to two clients, without its identifier.
pub pool_conn_close-twice :
    (i j : GetInput) (conn : ConnectionData) (s m : ℕ) (cl : List ℕ)
    → 2 ≤ m
    → let closed_twice =
        pool_conn_close false conn (pool_conn_close false conn (open_pool [] s m cl)) in
      let first = get i closed_twice in
      (first.0 ≡ got (pool_conn (without_id conn)))
      × ((get j first.1).0 ≡ got (pool_conn (without_id conn)))
pool_conn_close-twice i j conn s m cl h =
    let twice = put-open conn [] s m cl (omega arith) in
    let again = put-open conn (without_id conn ∷ []) s m cl (omega arith) in
    rw twice (
      rw again (
        rw (get-first i (without_id conn) (without_id conn ∷ []) s m cl)
          (refl, ap (λ r. r.0) (get-first j (without_id conn) [] s m cl))))
