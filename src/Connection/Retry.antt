-- ===== src/Connection/Retry.antt =====
-- `NewRetry` and `Retry.Retry` of connection/retry.go. The callback is a function of the number of
-- the attempt. `math.Pow` on the multiplier, converted to a whole number, is the parameter `power`.
-- Logging is left out; the backoff is
-- not negative, and a duration is a number of nanoseconds.
mod Tests
pub mod Backoff
pub mod Attempts
use pod_os_go_client.Prelude.{
  ℕ, zero, suc, ◌-◌, ◌*◌, ◌%◌, ◌^◌, Bool, not, ◌&&◌, Option, none, some, List, [], ◌∷◌, ltb,
  if◌then◌else◌,
}
use pod_os_go_client.Prelude.Int.{ℤ, pos, negsuc, neg, leb_ℤ}

-- `BackoffDurationCap`, a minute
abbrev pub backoff_duration_cap : ℕ
backoff_duration_cap = 60 * 10 ^ 9

-- The fields of `Retry`; `F` stands for `float64`.
pub record RetryConfig (F : Type 0) : Type 0 where
  pub retries : ℤ
  pub backoff : ℕ
  pub backoff_multiplier : F
  pub disable_backoff_caps : Bool

-- `gt` is the order `>` of the floats, `backoff_multiplier_cap` the float 10.
unfoldable pub new_retry : {F : Type 0} → (F → F → Bool) → F → RetryConfig F → RetryConfig F
new_retry gt backoff_multiplier_cap rty = record {
  retries = if leb_ℤ (pos 0) rty.retries then rty.retries else pos 0;
  backoff = rty.backoff;
  backoff_multiplier =
      if not rty.disable_backoff_caps && gt rty.backoff_multiplier backoff_multiplier_cap
      then backoff_multiplier_cap
      else rty.backoff_multiplier;
  disable_backoff_caps = rty.disable_backoff_caps;
}

-- A product as `int64` keeps it.
unfoldable pub wrap_int64 : ℕ → ℤ
wrap_int64 n = let m = n % 2 ^ 64 in if ltb m (2 ^ 63) then pos m else neg (2 ^ 64 - m)

-- The delay after attempt `retry`; `power m n` is the multiplier `m` to the power `n`.
unfoldable pub backoff_duration : {F : Type 0} → (F → ℕ → ℕ) → RetryConfig F → ℕ → ℤ
unfolding wrap_int64
backoff_duration power r retry =
    let d = wrap_int64 (r.backoff * power r.backoff_multiplier retry) in
    if not r.disable_backoff_caps && not (leb_ℤ d (pos backoff_duration_cap))
    then pos backoff_duration_cap
    else d

-- What a call of the callback returns.
pub data Attempt (A E : Type 0) : Type 0 where
  returned : A → Attempt A E
  failed : E → Attempt A E

-- What `Retry` returns: the object, `ErrRetriesExhausted` with the number of attempts and the last
-- error, the callback's own error, or the error for a callback that is nil.
pub data RetryResult (A E : Type 0) : Type 0 where
  object : A → RetryResult A E
  retries_exhausted : ℕ → Option E → RetryResult A E
  callback_error : E → RetryResult A E
  callback_is_nil : RetryResult A E

-- The result, and the delays slept through.
pub record RetryRun (A E : Type 0) : Type 0 where
  pub result : RetryResult A E
  pub slept : List ℤ

-- after the call: return the object, or sleep and go on
abbrev pub after_attempt : {A E : Type 0} → Attempt A E → ℤ → (E → RetryRun A E) → RetryRun A E
after_attempt (returned a) d rest = record { result = object a; slept = [] }
after_attempt (failed e) d rest = record { result = (rest e).result; slept = d ∷ (rest e).slept }

-- the loop, with `left` attempts still to make
unfoldable pub retry_loop :
    {A E : Type 0} → (ℕ → Attempt A E) → (ℕ → ℤ) → (left retry : ℕ) → Option E → RetryRun A E
retry_loop callback delay zero retry last = record {
  result = retries_exhausted retry last;
  slept = [];
}
retry_loop callback delay (suc left) retry last =
    after_attempt (callback retry) (delay retry)
      (λ e. retry_loop callback delay left (suc retry) (some e))

-- the number of attempts
unfoldable pub attempts : ℤ → ℕ
attempts (pos n) = suc n
attempts (negsuc n) = 0

abbrev once : {A E : Type 0} → Attempt A E → RetryResult A E
once (returned a) = object a
once (failed e) = callback_error e

unfoldable pub retry :
    {F A E : Type 0}
    → (F → ℕ → ℕ)
    → Option (RetryConfig F)
    → Option (ℕ → Attempt A E)
    → RetryRun A E
unfolding attempts
retry power r none = record { result = callback_is_nil; slept = [] }
retry power none (some callback) = record { result = once (callback 0); slept = [] }
retry power (some r) (some callback) =
    retry_loop callback (backoff_duration power r) (attempts r.retries) 0 none
