-- ===== src/Client/Reconnect/Reports.antt =====
-- What the state handler is told of a reconnection.
use pod_os_go_client.Prelude.{
  ℕ, suc, ◌≡◌, refl, Bool, true, false, Option, none, some, List, [], ◌∷◌, ◌++◌, if◌then◌else◌,
}
use pod_os_go_client.Prelude.Int.{ℤ}
use pod_os_go_client.Client.Reconnect.{
  ConnectionState, ReconnectConfig, Reconnection, Round, Run, attempt_reconnection, client_closed,
  context_done, ends, finish_reconnect, goes_on, next_backoff, not_dialled, not_identified, pause,
  meets, try_round, reconnect_loop, restored, sleeps, state_connected, state_reconnect_failed,
  state_reconnecting,
}

module _ {E : Type 0} where
  -- The handler has been told one thing more, and it is what the call returns.
  pub data Reports (before : List (ConnectionState × Option E)) (r : Run E) : Type 0 where
    unfinished : r.result ≡ none → r.client.emitted ≡ before → Reports before r
    success :
        r.result ≡ some true
        → r.client.connected ≡ true
        → r.client.reconnecting ≡ false
        → r.client.emitted ≡ before ++ (state_connected, none) ∷ []
        → Reports before r
    failure :
        (e : Option E)
        → r.result ≡ some false
        → r.client.reconnecting ≡ false
        → r.client.emitted ≡ before ++ (state_reconnect_failed, e) ∷ []
        → Reports before r

  sleeps-Reports :
      (before : List (ConnectionState × Option E)) (d : ℤ) (r : Run E)
      → Reports before r
      → Reports before (sleeps d r)
  sleeps-Reports before d r (unfinished a b) = unfinished a b
  sleeps-Reports before d r (success a b c e) = success a b c e
  sleeps-Reports before d r (failure e a b c) = failure e a b c

  fails-Reports : (e : Option E) (c : Reconnection E) → Reports c.emitted (ends false e c)
  unfolding finish_reconnect
  fails-Reports e c = failure e refl refl refl

  pause-Reports :
      (done : Option E) (backoff : ℤ) (c : Reconnection E) (rest : Run E)
      → Reports c.emitted rest
      → Reports c.emitted (pause done backoff c rest)
  pause-Reports none backoff c rest h = sleeps-Reports c.emitted backoff rest h
  pause-Reports (some done) backoff c rest h = fails-Reports (some done) c

  either-Reports :
      (b : Bool) (before : List (ConnectionState × Option E)) (r s : Run E)
      → Reports before r
      → Reports before s
      → Reports before (if b then r else s)
  either-Reports true before r s h k = h
  either-Reports false before r s h k = k

  try_round-Reports :
      (r : Round E) (attempt : ℕ) (backoff : ℤ) (c : Reconnection E)
      (rest : E → Reconnection E → Run E)
      → ((e : E) (d : Reconnection E) → Reports d.emitted (rest e d))
      → Reports c.emitted (try_round r attempt backoff c rest)
  unfolding try_round finish_reconnect
  try_round-Reports (context_done e) attempt backoff c rest h = fails-Reports (some e) c
  try_round-Reports (client_closed e) attempt backoff c rest h = failure (some e) refl refl refl
  try_round-Reports restored attempt backoff c rest h = success refl refl refl refl
  try_round-Reports (not_dialled e done) attempt backoff c rest h =
      let tried = record c { reconnect_attempt = attempt; connected = false } in
      pause-Reports done backoff tried _ (h e tried)
  try_round-Reports (not_identified e done) attempt backoff c rest h =
      let tried = record c { reconnect_attempt = attempt; connected = false; addressed = false } in
      pause-Reports done backoff tried _ (h e tried)

  reconnect_loop-Reports :
      (no_address : E) (grow : ℤ → ℤ) (max_retries max_backoff : ℤ) (rounds : List (Round E))
      (attempt : ℕ) (backoff : ℤ) (last : Option E) (c : Reconnection E)
      → Reports c.emitted
          (reconnect_loop no_address grow max_retries max_backoff rounds attempt backoff last c)
  unfolding reconnect_loop
  reconnect_loop-Reports u grow n max [] attempt backoff last c =
      either-Reports (goes_on n attempt) c.emitted _ _ (unfinished refl refl) (fails-Reports last c)
  reconnect_loop-Reports u grow n max (r ∷ rounds) attempt backoff last c =
      either-Reports (goes_on n attempt) c.emitted _ _
        (try_round-Reports (meets u c.addressed r) attempt backoff c _ (λ e d.
          reconnect_loop-Reports u grow n max rounds (suc attempt) (next_backoff grow max backoff)
            (some e) d))
        (fails-Reports last c)

  -- The state handler is told the truth about a reconnection. It is told first that one starts, and
  -- when the call returns, exactly one thing more: that the client is connected, when the call returns
  -- true and the connection is up, or that the reconnection has failed, when it returns false. No
  -- reconnection is in progress then. (The client is not closed, and none is in progress before.)
  pub attempt_reconnection-Reports :
      (no_address : E) (grow : ℤ → ℤ) (config : ReconnectConfig) (rounds : List (Round E))
      (trigger : Option E) (c : Reconnection E)
      → c.closed ≡ false
      → c.reconnecting ≡ false
      → Reports
          (c.emitted ++ (state_reconnecting, trigger) ∷ [])
          (attempt_reconnection no_address grow config rounds trigger c)
  unfolding attempt_reconnection
  attempt_reconnection-Reports u grow config rounds trigger c up idle =
      rw up (rw idle (reconnect_loop-Reports u grow config.max_retries _ rounds 1 _ none _))
