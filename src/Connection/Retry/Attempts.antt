-- ===== src/Connection/Retry/Attempts.antt =====
-- How often `Retry` calls the callback, and what it makes of it.
use pod_os_go_client.Prelude.{
  ℕ, zero, suc, ◌+◌, ◌≤◌, ◌≡◌, refl, sym, subst, ap, ◌∙◌, ◌⊎◌, inl, inr, Option, none, some, [],
  ◌∷◌, arith, length,
}
use pod_os_go_client.Prelude.Int.{ℤ, pos}
use pod_os_go_client.Connection.Retry.{
  after_attempt, attempts, Attempt, RetryConfig, RetryRun, backoff_duration, failed, object,
  retries_exhausted, retry, retry_loop, returned,
}

-- Attempt `i` fails.
abbrev pub Fails : {A E : Type 0} → (ℕ → Attempt A E) → ℕ → Type 0
Fails {E = E} callback i = (e : E) × (callback i ≡ failed e)

-- The attempts from `first` on, `n` of them, all fail.
abbrev pub AllFail : {A E : Type 0} → (ℕ → Attempt A E) → (first n : ℕ) → Type 0
AllFail callback first zero = Unit {0}
AllFail callback first (suc n) = Fails callback first × AllFail callback (suc first) n

-- The run of the attempts from `first` on, `m` retries at most: the first success is returned, after
-- `n` failures and a delay for each; or all attempts fail, and the error is that of the last.
abbrev pub Runs : {A E : Type 0} → (ℕ → Attempt A E) → (first m : ℕ) → RetryRun A E → Type 0
Runs {A = A} {E = E} callback first m r =
    ((n : ℕ) × (a : A) × (n ≤ m)
      × AllFail callback first n
      × (callback (first + n) ≡ returned a)
      × (r.result ≡ object a)
      × (length r.slept ≡ n))
    ⊎ (AllFail callback first (suc m)
        × ((e : E) × (callback (first + m) ≡ failed e)
            × (r.result ≡ retries_exhausted (first + suc m) (some e)))
        × (length r.slept ≡ suc m))

-- one more failure in front
Runs-failed :
    {A E : Type 0}
    → (callback : ℕ → Attempt A E) (d : ℤ) (first m : ℕ) (r : RetryRun A E) → Fails callback first
    → Runs callback (suc first) m r
    → Runs callback first (suc m) (record { result = r.result; slept = d ∷ r.slept })
Runs-failed callback d first m r fail (inl (n, a, le, all, e, res, len)) =
    let shift : first + suc n ≡ suc first + n = omega arith in
    inl (suc n, a, omega arith, (fail, all), ap callback shift ∙ e, res, ap suc len)
Runs-failed callback d first m r fail (inr (all, (x, e, res), len)) =
    let shift : first + suc m ≡ suc first + m = omega arith in
    let end : suc first + suc m ≡ first + suc (suc m) = omega arith in
    inr (
      (fail, all),
      (x, ap callback shift ∙ e, res ∙ ap (λ k. retries_exhausted k (some x)) end),
      ap suc len,
    )

-- the last attempt
last-Runs :
    {A E : Type 0}
    → (callback : ℕ → Attempt A E) (d : ℤ) (first : ℕ) (x : Attempt A E) → callback first ≡ x
    → Runs callback first 0 (
        after_attempt x d
          (λ e. record { result = retries_exhausted (suc first) (some e); slept = [] }))
last-Runs callback d first (returned a) e =
    let here : first + 0 ≡ first = omega arith in
    inl (0, a, omega arith, tt, ap callback here ∙ e, refl, refl)
last-Runs callback d first (failed x) e =
    let here : first + 0 ≡ first = omega arith in
    let next : suc first ≡ first + 1 = omega arith in
    inr (((x, e), tt), (x, ap callback here ∙ e, ap (λ k. retries_exhausted k (some x)) next), refl)

-- an attempt with more to come
after_attempt-Runs :
    {A E : Type 0}
    → (callback : ℕ → Attempt A E) (d : ℤ) (first m : ℕ) (x : Attempt A E) (rest : E → RetryRun A E)
    → callback first ≡ x
    → ((e : E) → Runs callback (suc first) m (rest e))
    → Runs callback first (suc m) (after_attempt x d rest)
after_attempt-Runs callback d first m (returned a) rest e f =
    let here : first + 0 ≡ first = omega arith in
    inl (0, a, omega arith, tt, ap callback here ∙ e, refl, refl)
after_attempt-Runs callback d first m (failed x) rest e f =
    Runs-failed callback d first m (rest x) (x, e) (f x)

retry_loop-Runs :
    {A E : Type 0}
    → (callback : ℕ → Attempt A E) (delay : ℕ → ℤ) (m first : ℕ) (last : Option E)
    → Runs callback first m (retry_loop callback delay (suc m) first last)
unfolding retry_loop
retry_loop-Runs callback delay zero first last =
    last-Runs callback (delay first) first (callback first) refl
retry_loop-Runs callback delay (suc m) first last =
    after_attempt-Runs callback (delay first) first m (callback first) _ refl
      (λ e. retry_loop-Runs callback delay m (suc first) (some e))

-- `Retry` with `m` retries makes at most m + 1 attempts. It returns the object of the first attempt
-- that succeeds, having slept once after each failure before it; or, when all m + 1 attempts fail,
-- `ErrRetriesExhausted` with that number and the error of the last one, having slept after each of
-- them, the last included.
pub retry-Runs :
    {F A E : Type 0}
    → (power : F → ℕ → ℕ) (r : RetryConfig F) (callback : ℕ → Attempt A E) (m : ℕ)
    → r.retries ≡ pos m
    → Runs callback 0 m (retry power (some r) (some callback))
unfolding retry
retry-Runs power r callback m e =
    let run : RetryRun _ _ = retry_loop callback (backoff_duration power r) (suc m) 0 none in
    let same : retry power (some r) (some callback) ≡ run =
      ap (λ n. retry_loop callback (backoff_duration power r) (attempts n) 0 none) e in
    subst (Runs callback 0 m) (sym same)
      (retry_loop-Runs callback (backoff_duration power r) m 0 none)
