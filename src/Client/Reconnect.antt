-- ===== src/Client/Reconnect.antt =====
-- `attemptReconnection` of client.go, with the options of `ReconnectConfig` in config/config.go. Dialling,
-- identifying to the gateway, the context and the clock are a list of what each round of the loop meets.
-- `Close` of connection/client.go, which the loop calls when identifying fails, forgets the address of the
-- gateway, and the next dial is to the network "", which `net.Dial` refuses: `no_address` is its error.
-- A duration is a signed number of nanoseconds; its product with the multiplier, a `float64`, is the
-- parameter `grow`.
pub mod Reports
pub mod Restores
pub mod NeverRestored
mod Tests
use pod_os_go_client.Prelude.{
  ℕ, suc, ◌*◌, ◌^◌, Bool, true, false, not, ◌&&◌, ◌||◌, Option, none, some, List, [], ◌∷◌, ◌++◌,
  ltb, if◌then◌else◌, ◌==◌, leb,
}
use pod_os_go_client.Prelude.Int.{ℤ, pos, negsuc, leb_ℤ}

pub data ConnectionState : Type 0 where
  state_connected state_disconnected state_reconnecting state_reconnect_failed : ConnectionState

-- The durations and the number of attempts; no attempt is the last one if it is 0.
pub record ReconnectConfig : Type 0 where
  pub enabled : Option Bool
  pub max_retries : ℤ
  pub initial_backoff : ℤ
  pub max_backoff : ℤ

abbrev pub second : ℕ
second = 10 ^ 9

unfoldable pub is_enabled : ReconnectConfig → Bool
is_enabled r = elim r.enabled [ none ↦ true | some b ↦ b ]

abbrev pub or_default : ℕ → ℤ → ℤ
or_default d (negsuc n) = pos d
or_default d (pos n) = if n == 0 then pos d else pos n

unfoldable pub get_initial_backoff : ReconnectConfig → ℤ
get_initial_backoff r = or_default (1 * second) r.initial_backoff

unfoldable pub get_max_backoff : ReconnectConfig → ℤ
get_max_backoff r = or_default (60 * second) r.max_backoff

-- What a round meets, if the connection has the address of the gateway: the receiver's context is done, or the client is closed, before the attempt;
-- the attempt succeeds; dialling fails, or identifying does, and the context is done during the pause
-- after it or not.
pub data Round (E : Type 0) : Type 0 where
  context_done : E → Round E
  client_closed : E → Round E
  restored : Round E
  not_dialled not_identified : (why : E) → (done_in_pause : Option E) → Round E

-- The fields of the client that the reconnection keeps, with what the handler has been told.
pub record Reconnection (E : Type 0) : Type 0 where
  pub closed : Bool
  pub reconnecting : Bool
  pub reconnect_attempt : ℕ
  pub connected : Bool
  pub addressed : Bool
  pub emitted : List (ConnectionState × Option E)

-- `none` while the rounds do not suffice, and for a caller that waits for another's reconnection.
pub record Run (E : Type 0) : Type 0 where
  pub result : Option Bool
  pub slept : List ℤ
  pub client : Reconnection E

abbrev pub emit_state : {E : Type 0} → ConnectionState → Option E → Reconnection E → Reconnection E
emit_state s e c = record c { emitted = c.emitted ++ (s, e) ∷ [] }

unfoldable pub finish_reconnect : {E : Type 0} → Bool → Option E → Reconnection E → Reconnection E
finish_reconnect success e c =
    let idle = record c { reconnecting = false } in
    if success
    then emit_state state_connected none idle
    else emit_state state_reconnect_failed e idle

abbrev pub ends : {E : Type 0} → Bool → Option E → Reconnection E → Run E
ends success e c = record {
  result = some success;
  slept = [];
  client = finish_reconnect success e c;
}

-- `backoff = time.Duration(float64(backoff) * multiplier)`, and the cap.
unfoldable pub next_backoff : (ℤ → ℤ) → (max_backoff backoff : ℤ) → ℤ
next_backoff grow max_backoff backoff =
    let longer = grow backoff in if leb_ℤ longer max_backoff then longer else max_backoff

abbrev pub sleeps : {E : Type 0} → ℤ → Run E → Run E
sleeps d r = record r { slept = d ∷ r.slept }

-- `unlimited || attempt <= maxRetries`
abbrev pub goes_on : ℤ → ℕ → Bool
goes_on (negsuc n) attempt = false
goes_on (pos n) attempt = n == 0 || leb attempt n

-- After a failed attempt: the pause, unless the context is done during it.
abbrev pub pause : {E : Type 0} → Option E → ℤ → Reconnection E → Run E → Run E
pause none backoff c rest = sleeps backoff rest
pause (some done) backoff c rest = ends false (some done) c

-- What a round is for a connection: without an address every dial fails.
abbrev pub meets : {E : Type 0} → (no_address : E) → (addressed : Bool) → Round E → Round E
meets no_address true r = r
meets no_address false (context_done e) = context_done e
meets no_address false (client_closed e) = client_closed e
meets no_address false restored = not_dialled no_address none
meets no_address false (not_dialled e done) = not_dialled no_address done
meets no_address false (not_identified e done) = not_dialled no_address done

-- One attempt; `rest` is the loop after it, given the error and the client.
unfoldable pub try_round :
    {E : Type 0}
    → Round E
    → (attempt : ℕ) → (backoff : ℤ) → Reconnection E
    → (rest : E → Reconnection E → Run E) → Run E
unfolding finish_reconnect
try_round (context_done e) attempt backoff c rest = ends false (some e) c
try_round (client_closed e) attempt backoff c rest =
    ends false (some e) (record c { closed = true })
try_round restored attempt backoff c rest =
    ends true none (record c { reconnect_attempt = attempt; connected = true })
try_round (not_dialled e done) attempt backoff c rest =
    let tried = record c { reconnect_attempt = attempt; connected = false } in
    pause done backoff tried (rest e tried)
try_round (not_identified e done) attempt backoff c rest =
    let tried = record c { reconnect_attempt = attempt; connected = false; addressed = false } in
    pause done backoff tried (rest e tried)

-- The loop from attempt number `attempt` on.
unfoldable pub reconnect_loop :
    {E : Type 0}
    → (no_address : E) → (ℤ → ℤ)
    → (max_retries max_backoff : ℤ) → List (Round E)
    → (attempt : ℕ) → (backoff : ℤ) → Option E
    → Reconnection E
    → Run E
unfolding finish_reconnect next_backoff try_round
reconnect_loop no_address grow max_retries max_backoff [] attempt backoff last c =
    if goes_on max_retries attempt
    then record { result = none; slept = []; client = c }
    else ends false last c
reconnect_loop no_address grow max_retries max_backoff (r ∷ rounds) attempt backoff last c =
    if goes_on max_retries attempt
    then try_round (meets no_address c.addressed r) attempt backoff c (λ e tried.
      reconnect_loop no_address grow max_retries max_backoff rounds (suc attempt)
        (next_backoff grow max_backoff backoff) (some e) tried)
    else ends false last c

-- A closed client does not reconnect; while another goroutine reconnects, the caller waits for it.
unfoldable pub attempt_reconnection :
    {E : Type 0}
    → (no_address : E) → (ℤ → ℤ)
    → ReconnectConfig
    → List (Round E)
    → Option E
    → Reconnection E
    → Run E
unfolding reconnect_loop get_initial_backoff get_max_backoff
attempt_reconnection no_address grow r rounds trigger c =
    let begun =
      emit_state state_reconnecting trigger
        (record c { reconnecting = true; reconnect_attempt = 0 }) in
    if c.closed
    then record { result = some false; slept = []; client = c }
    else if c.reconnecting
    then record { result = none; slept = []; client = c }
    else reconnect_loop no_address grow r.max_retries (get_max_backoff r) rounds 1
        (get_initial_backoff r) none begun
