-- ===== src/Client/Reconnect/NeverRestored.antt =====
-- A connection that was closed because identifying failed is not found again.
use pod_os_go_client.Prelude.{
  ℕ, suc, ◌≡◌, refl, ◌∙◌, ◌≢◌, Bool, true, false, Option, none, some, List, [], ◌∷◌, ◌++◌,
  if◌then◌else◌, true_ne_false,
}
use pod_os_go_client.Prelude.Int.{ℤ}
use pod_os_go_client.Client.Reconnect.{
  ReconnectConfig, Reconnection, Round, Run, attempt_reconnection, client_closed, context_done,
  ends, goes_on, meets, next_backoff, not_dialled, not_identified, pause, reconnect_loop, restored,
  try_round,
}

-- No round is an attempt that succeeds.
abbrev pub NoneRestored : {E : Type 0} → List (Round E) → Type 0
NoneRestored [] = Unit {0}
NoneRestored (restored ∷ rounds) = ⊥
NoneRestored (_ ∷ rounds) = NoneRestored rounds

module _ {E : Type 0} where
  abbrev pub NotRestored : Run E → Type 0
  NotRestored r = r.result ≢ some true

  ends-NotRestored : (e : Option E) (c : Reconnection E) → NotRestored (ends false e c)
  ends-NotRestored e c = λ same. cc

  pause-NotRestored :
      (done : Option E) (backoff : ℤ) (c : Reconnection E) (rest : Run E)
      → NotRestored rest
      → NotRestored (pause done backoff c rest)
  pause-NotRestored none backoff c rest h = h
  pause-NotRestored (some e) backoff c rest h = ends-NotRestored (some e) c

  either-NotRestored :
      (b : Bool) (r s : Run E) → NotRestored r → NotRestored s → NotRestored (if b then r else s)
  either-NotRestored true r s h k = h
  either-NotRestored false r s h k = k

  no_address-NotRestored :
      (u : E) (known : Bool) (r : Round E) (attempt : ℕ) (backoff : ℤ) (c : Reconnection E)
      (rest : E → Reconnection E → Run E)
      → known ≡ false
      → ((e : E) (d : Reconnection E) → d.addressed ≡ c.addressed → NotRestored (rest e d))
      → NotRestored (try_round (meets u known r) attempt backoff c rest)
  unfolding try_round
  no_address-NotRestored u true r attempt backoff c rest lost h = absurd (true_ne_false lost)
  no_address-NotRestored u false (context_done e) attempt backoff c rest lost h =
      ends-NotRestored (some e) c
  no_address-NotRestored u false (client_closed e) attempt backoff c rest lost h =
      ends-NotRestored (some e) (record c { closed = true })
  no_address-NotRestored u false restored attempt backoff c rest lost h = h u _ refl
  no_address-NotRestored u false (not_dialled e p) attempt backoff c rest lost h =
      pause-NotRestored p backoff _ _ (h u _ refl)
  no_address-NotRestored u false (not_identified e p) attempt backoff c rest lost h =
      pause-NotRestored p backoff _ _ (h u _ refl)

  reconnect_loop-no_address :
      (u : E) (grow : ℤ → ℤ) (n max : ℤ) (rounds : List (Round E)) (attempt : ℕ) (backoff : ℤ)
      (last : Option E) (c : Reconnection E)
      → c.addressed ≡ false
      → NotRestored (reconnect_loop u grow n max rounds attempt backoff last c)
  unfolding reconnect_loop
  reconnect_loop-no_address u grow n max [] attempt backoff last c lost =
      either-NotRestored (goes_on n attempt) _ _ (λ same. cc) (ends-NotRestored last c)
  reconnect_loop-no_address u grow n max (r ∷ rounds) attempt backoff last c lost =
      either-NotRestored (goes_on n attempt) _ _
        (no_address-NotRestored u c.addressed r attempt backoff c _ lost (λ e d same.
          reconnect_loop-no_address u grow n max rounds (suc attempt)
            (next_backoff grow max backoff) (some e) d (same ∙ lost)))
        (ends-NotRestored last c)

  failing-NotRestored :
      (u : E) (known : Bool) (r : Round E) (attempt : ℕ) (backoff : ℤ) (c : Reconnection E)
      (rest : E → Reconnection E → Run E)
      → NoneRestored (r ∷ [])
      → ((e : E) (d : Reconnection E) → NotRestored (rest e d))
      → NotRestored (try_round (meets u known r) attempt backoff c rest)
  unfolding try_round
  failing-NotRestored u false r attempt backoff c rest f h =
      no_address-NotRestored u false r attempt backoff c rest refl (λ e d same. h e d)
  failing-NotRestored u true (context_done e) attempt backoff c rest f h =
      ends-NotRestored (some e) c
  failing-NotRestored u true (client_closed e) attempt backoff c rest f h =
      ends-NotRestored (some e) (record c { closed = true })
  failing-NotRestored u true restored attempt backoff c rest f h = absurd f
  failing-NotRestored u true (not_dialled e p) attempt backoff c rest f h =
      pause-NotRestored p backoff _ _ (h e _)
  failing-NotRestored u true (not_identified e p) attempt backoff c rest f h =
      pause-NotRestored p backoff _ _ (h e _)

  -- After it the connection has no address, with one before or without.
  refused-NotRestored :
      (u why : E) (p : Option E) (known : Bool) (attempt : ℕ) (backoff : ℤ) (c : Reconnection E)
      (rest : E → Reconnection E → Run E)
      → c.addressed ≡ known
      → ((e : E) (d : Reconnection E) → d.addressed ≡ false → NotRestored (rest e d))
      → NotRestored (try_round (meets u known (not_identified why p)) attempt backoff c rest)
  unfolding try_round
  refused-NotRestored u why p true attempt backoff c rest is h =
      pause-NotRestored p backoff _ _ (h why _ refl)
  refused-NotRestored u why p false attempt backoff c rest is h =
      pause-NotRestored p backoff _ _ (h u _ is)

  NoneRestored-cons :
      (r : Round E) (rounds : List (Round E))
      → NoneRestored (r ∷ rounds)
      → NoneRestored (r ∷ []) × NoneRestored rounds
  NoneRestored-cons (context_done e) rounds h = (tt, h)
  NoneRestored-cons (client_closed e) rounds h = (tt, h)
  NoneRestored-cons restored rounds h = absurd h
  NoneRestored-cons (not_dialled e p) rounds h = (tt, h)
  NoneRestored-cons (not_identified e p) rounds h = (tt, h)

  reconnect_loop-NotRestored :
      (u : E) (grow : ℤ → ℤ) (n max : ℤ) (fails later : List (Round E)) (why : E) (done : Option E)
      (attempt : ℕ) (backoff : ℤ) (last : Option E) (c : Reconnection E)
      → NoneRestored fails
      → NotRestored (
          reconnect_loop u grow n max
            (fails ++ not_identified why done ∷ later)
            attempt
            backoff
            last
            c)
  unfolding reconnect_loop try_round
  reconnect_loop-NotRestored u grow n max [] later why p attempt backoff last c h =
      either-NotRestored (goes_on n attempt) _ _
        (refused-NotRestored u why p c.addressed attempt backoff c _ refl (λ e d lost.
          reconnect_loop-no_address u grow n max later (suc attempt) (next_backoff grow max backoff)
            (some e) d lost))
        (ends-NotRestored last c)
  reconnect_loop-NotRestored u grow n max (r ∷ fails) later why p attempt backoff last c h =
      let (first, others) = NoneRestored-cons r fails h in
      either-NotRestored (goes_on n attempt) _ _
        (failing-NotRestored u c.addressed r attempt backoff c _ first (λ e d.
          reconnect_loop-NotRestored u grow n max fails later why p (suc attempt)
            (next_backoff grow max backoff) (some e) d others))
        (ends-NotRestored last c)

  -- Once the gateway has been dialled and identifying has failed, the call never returns true, whatever the
  -- later rounds are: the connection that was closed then has lost its address. (No attempt before has
  -- succeeded.)
  pub attempt_reconnection-NotRestored :
      (no_address : E) (grow : ℤ → ℤ) (config : ReconnectConfig) (fails later : List (Round E))
      (why : E) (done : Option E) (trigger : Option E) (c : Reconnection E)
      → NoneRestored fails
      → NotRestored (
          attempt_reconnection no_address grow config
            (fails ++ not_identified why done ∷ later)
            trigger
            c)
  unfolding attempt_reconnection
  attempt_reconnection-NotRestored u grow config fails later why done trigger c h =
      either-NotRestored c.closed _ _ (λ same. cc)
        (either-NotRestored c.reconnecting _ _ (λ same. cc)
          (reconnect_loop-NotRestored u grow config.max_retries _ fails later why done 1 _ none _
            h))
