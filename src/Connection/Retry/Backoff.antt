-- ===== src/Connection/Retry/Backoff.antt =====
-- The delays of `Retry`.
use pod_os_go_client.Prelude.{
  ℕ, ◌-◌, ◌*◌, ◌%◌, ◌^◌, ◌≤◌, ◌<◌, ◌≡◌, refl, Bool, true, false, not, ◌&&◌, arith, ltb,
  if◌then◌else◌, le→leb,
}
use pod_os_go_client.Prelude.Int.{ℤ, pos, negsuc, pos_part, neg_part, leb_ℤ}
use pod_os_go_client.Connection.Retry.{
  RetryConfig, backoff_duration, backoff_duration_cap, retry, wrap_int64,
}

cap_ℤ-le : (d : ℤ) (n : ℕ) → pos_part (if not (leb_ℤ d (pos n)) then pos n else d) ≤ n
cap_ℤ-le (pos k) n = ground arith
cap_ℤ-le (negsuc k) n = ground arith

-- With the caps on, no delay is longer than a minute.
pub backoff_duration-le_cap :
    {F : Type 0}
    → (power : F → ℕ → ℕ) (r : RetryConfig F) (retry : ℕ) → r.disable_backoff_caps ≡ false
    → pos_part (backoff_duration power r retry) ≤ backoff_duration_cap
unfolding backoff_duration
backoff_duration-le_cap power r retry e =
    rw e (cap_ℤ-le (wrap_int64 (r.backoff * power r.backoff_multiplier retry)) backoff_duration_cap)

wrapped : (n : ℕ) → 2 ^ 63 ≤ n → n < 2 ^ 64 → wrap_int64 n ≡ negsuc (2 ^ 64 - n - 1)
unfolding wrap_int64
wrapped n lo hi =
    let same : n % 2 ^ 64 ≡ n = omega arith in
    let large : ltb n (2 ^ 63) ≡ false = ground arith in
    let some_left : ltb 0 (2 ^ 64 - n) ≡ true = ground arith in
    rw same (rw large (rw some_left refl))

negative_kept :
    (b : Bool) (m n : ℕ)
    → (if b && not (leb_ℤ (negsuc m) (pos n)) then pos n else negsuc m) ≡ negsuc m
negative_kept true m n =
    let below : leb_ℤ (negsuc m) (pos n) ≡ true = le→leb _ _ (omega arith) in rw below refl
negative_kept false m n = refl

-- A product of the backoff and the power from 2^63 up to 2^64 makes no delay at all, whether the caps
-- are on or off: it wraps to a negative duration, which is below the cap and for which no sleep waits.
pub backoff_duration-overflow :
    {F : Type 0}
    → (power : F → ℕ → ℕ) (r : RetryConfig F) (retry : ℕ)
    → 2 ^ 63 ≤ r.backoff * power r.backoff_multiplier retry
    → r.backoff * power r.backoff_multiplier retry < 2 ^ 64
    → (pos_part (backoff_duration power r retry) ≡ 0)
      × (0 < neg_part (backoff_duration power r retry))
unfolding backoff_duration
backoff_duration-overflow power r retry lo hi =
    rw (wrapped (r.backoff * power r.backoff_multiplier retry) lo hi)
      (rw (negative_kept (not r.disable_backoff_caps) _ backoff_duration_cap) (refl, omega arith))
