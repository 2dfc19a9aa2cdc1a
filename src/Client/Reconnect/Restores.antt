-- ===== src/Client/Reconnect/Restores.antt =====
-- A gateway that comes back is found again.
use pod_os_go_client.Prelude.{
  ℕ, suc, ◌+◌, ◌<◌, ◌≤◌, ◌≡◌, refl, ap, ◌⊎◌, inl, inr, true, false, Option, none, some, List, [],
  ◌∷◌, ◌++◌, arith, length, sym, true_ne_false, Bool,
}
use pod_os_go_client.Prelude.Int.{ℤ, pos}
use pod_os_go_client.Client.Reconnect.{
  ReconnectConfig, Reconnection, Round, Run, attempt_reconnection, client_closed, context_done,
  finish_reconnect, goes_on, next_backoff, not_dialled, not_identified, meets, try_round,
  reconnect_loop, restored, sleeps,
}

-- Every round is a dial that fails, and the context is not done in the pause after it.
abbrev pub AllFail : {E : Type 0} → List (Round E) → Type 0
AllFail [] = Unit {0}
AllFail (not_dialled e none ∷ rounds) = AllFail rounds
AllFail (_ ∷ rounds) = ⊥

-- The attempt after `k` others is allowed.
abbrev pub Allows : ℤ → ℕ → Type 0
Allows max_retries k = (max_retries ≡ pos 0) ⊎ ((n : ℕ) × (max_retries ≡ pos n) × (k < n))

goes_on-Allows :
    (max_retries : ℤ) (k attempt : ℕ)
    → attempt ≤ suc k
    → Allows max_retries k
    → goes_on max_retries attempt ≡ true
goes_on-Allows max_retries k attempt h (inl unlimited) = rw unlimited refl
goes_on-Allows max_retries k attempt h (inr (n, is, below)) = rw is (ground arith)

module _ {E : Type 0} where
  -- The call returns true, with the connection up, after this number of attempts and pauses.
  pub record IsRestored (attempts pauses : ℕ) (r : Run E) : Type 0 where
    pub result : r.result ≡ some true
    pub connected : r.client.connected ≡ true
    pub attempt : r.client.reconnect_attempt ≡ attempts
    pub slept : length r.slept ≡ pauses

  another :
      {attempts pauses : ℕ} {r : Run E} (d : ℤ)
      → IsRestored attempts pauses r
      → IsRestored attempts (suc pauses) (sleeps d r)
  another d i = record {
    result = i.result;
    connected = i.connected;
    attempt = i.attempt;
    slept = ap suc i.slept;
  }

  known-IsRestored :
      {attempts pauses : ℕ} (u : E) (known : Bool) (r : Round E) (attempt : ℕ) (backoff : ℤ)
      (c : Reconnection E) (rest : E → Reconnection E → Run E)
      → known ≡ true
      → IsRestored attempts pauses (try_round r attempt backoff c rest)
      → IsRestored attempts pauses (try_round (meets u known r) attempt backoff c rest)
  known-IsRestored u true r attempt backoff c rest is h = h
  known-IsRestored u false r attempt backoff c rest is h = absurd (true_ne_false (sym is))

  reconnect_loop-IsRestored :
      (no_address : E) (grow : ℤ → ℤ) (max_retries max_backoff : ℤ) (fails more : List (Round E))
      (attempt : ℕ) (backoff : ℤ) (last : Option E) (c : Reconnection E) (total : ℕ)
      → c.addressed ≡ true
      → total ≡ attempt + length fails
      → AllFail fails
      → ((k : ℕ) → k ≤ total → goes_on max_retries k ≡ true)
      → IsRestored total (length fails) (
          reconnect_loop no_address grow max_retries max_backoff
            (fails ++ restored ∷ more)
            attempt
            backoff
            last
            c)
  unfolding reconnect_loop try_round finish_reconnect
  reconnect_loop-IsRestored u grow n max [] more attempt backoff last c total known sum h allowed =
      rw (allowed attempt (omega (arith, sum))) (
        known-IsRestored u c.addressed restored attempt backoff c _ known
          (record { result = refl; connected = refl; attempt = omega (arith, sum); slept = refl }))
  reconnect_loop-IsRestored u grow n max (not_dialled e none ∷ fails) more attempt backoff last c
        total known sum h allowed =
      let tried = record c { reconnect_attempt = attempt; connected = false } in
      let rest =
        reconnect_loop-IsRestored u grow n max fails more (suc attempt)
          (next_backoff grow max backoff) (some e) tried total known (omega (arith, sum)) h
          allowed in
      rw (allowed attempt (omega (arith, sum))) (
        known-IsRestored u c.addressed (not_dialled e none) attempt backoff c _ known
          (another backoff rest))
  reconnect_loop-IsRestored u grow n max (context_done _ ∷ fails) more attempt backoff last c total
        known sum h allowed =
      absurd h
  reconnect_loop-IsRestored u grow n max (client_closed _ ∷ fails) more attempt backoff last c total
        known sum h allowed =
      absurd h
  reconnect_loop-IsRestored u grow n max (restored ∷ fails) more attempt backoff last c total known
        sum h allowed =
      absurd h
  reconnect_loop-IsRestored u grow n max (not_dialled e (some _) ∷ fails) more attempt backoff last
        c total known sum h allowed =
      absurd h
  reconnect_loop-IsRestored u grow n max (not_identified e _ ∷ fails) more attempt backoff last c
        total known sum h allowed =
      absurd h

  -- When some dials fail and the next attempt succeeds, and the configuration allows that many, the call
  -- returns true with the connection up, after one pause for each failure. (The client is not closed, its
  -- connection has the address of the gateway, no reconnection is in progress, and the context is not
  -- done until then.)
  pub attempt_reconnection-IsRestored :
      (no_address : E) (grow : ℤ → ℤ) (config : ReconnectConfig) (fails more : List (Round E))
      (trigger : Option E) (c : Reconnection E)
      → c.closed ≡ false
      → c.reconnecting ≡ false
      → c.addressed ≡ true
      → AllFail fails
      → Allows config.max_retries (length fails)
      → IsRestored
          (suc (length fails))
          (length fails)
          (attempt_reconnection no_address grow config (fails ++ restored ∷ more) trigger c)
  unfolding attempt_reconnection
  attempt_reconnection-IsRestored u grow config fails more trigger c up idle known h allows =
      rw up (
        rw idle (
          reconnect_loop-IsRestored u grow config.max_retries _ fails more 1 _ none _ _ known
            (omega arith) h
            (λ k b. goes_on-Allows config.max_retries (length fails) k (omega arith) allows)))
