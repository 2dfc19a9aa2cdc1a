-- ===== src/Connection/Pool/Tests.antt =====
-- The theorems on the pool at a pool of capacity one or two.
use pod_os_go_client.Prelude.{ℕ, ◌≡◌, false, true, none, some, Option, List, [], ◌∷◌, arith, codes}
use pod_os_go_client.Connection.Pool.CloseTwice.{pool_conn_close-twice, without_id}
use pod_os_go_client.Connection.Pool.{
  got, pool_conn, pool_conn_close, ConnectionData, GetInput, get, get_from, get_or_create,
  new_channel_pool, initialize_channel_pool, fill,
}
use pod_os_go_client.Prelude.Int.{pos}
use pod_os_go_client.Connection.Pool.Starvation.{run-Starves, NoConnection}
use pod_os_go_client.Connection.Pool.Lending.{
  Event, returns, pings, Accounts, gets, run, run-Accounts, start, step,
}
use pod_os_go_client.Connection.Pool.Filling.{open_pool}

abbrev conn : ℕ → ConnectionData
conn n = record { conns = n; connection_id_uuid = codes "id" }

abbrev makes : ℕ → GetInput
makes n = record { factory = some (conn n); ctx_done = false; prefers_ctx = false }

-- The pool of capacity two starts with connection 1. It is lent, another one is made, the first comes
-- back and is lent again, and is closed as unusable.
abbrev fetches : ℕ → Option ConnectionData
fetches i = some (conn 1)

abbrev lend_return_leak : List Event
lend_return_leak =
    gets (makes 7)
    ∷ gets (makes 2)
    ∷ returns 0 false
    ∷ pings (some (λ c. false))
    ∷ gets (makes 8)
    ∷ returns 0 true
    ∷ []

run-Accounts_example : Accounts (run lend_return_leak (start fetches (pos 1) 2))
run-Accounts_example = run-Accounts fetches (pos 1) lend_return_leak 2

-- A pool of capacity one lends its only connection, which is closed as unusable.
run-Starves_example :
    NoConnection
      (get
        (makes 2)
        (run
          (pings none ∷ gets (makes 3) ∷ [])
          (run (gets (makes 7) ∷ returns 0 true ∷ []) (start fetches (pos 1) 1))).pool).0
unfolding run step get get_from get_or_create new_channel_pool initialize_channel_pool fill
    pool_conn_close
run-Starves_example =
    run-Starves fetches (pos 1) (gets (makes 7) ∷ returns 0 true ∷ [])
      (pings none ∷ gets (makes 3) ∷ []) 1 (makes 2) (omega arith)

pool_conn_close-twice_example :
    let closed_twice =
      pool_conn_close false (conn 1) (pool_conn_close false (conn 1) (open_pool [] 1 2 [])) in
    let first = get (makes 2) closed_twice in
    (first.0 ≡ got (pool_conn (without_id (conn 1))))
    × ((get (makes 3) first.1).0 ≡ got (pool_conn (without_id (conn 1))))
pool_conn_close-twice_example =
    pool_conn_close-twice (makes 2) (makes 3) (conn 1) 1 2 [] (omega arith)
