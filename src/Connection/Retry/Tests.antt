-- ===== src/Connection/Retry/Tests.antt =====
-- The theorems on retries at concrete configurations.
use pod_os_go_client.Prelude.{ℕ, ◌^◌, ◌<◌, ◌≡◌, refl, Bool, false, some, arith, ◌==◌, if◌then◌else◌}
use pod_os_go_client.Prelude.Int.{ℤ, pos, pos_part, neg_part}
use pod_os_go_client.Connection.Retry.Backoff.{backoff_duration-overflow}
use pod_os_go_client.Connection.Retry.{
  Attempt, RetryConfig, backoff_duration, failed, retry, returned,
}
use pod_os_go_client.Connection.Retry.Attempts.{Runs, retry-Runs}

-- A second that is doubled, or multiplied by ten, each time.
abbrev config : ℤ → ℕ → RetryConfig ℕ
config n m = record {
  retries = n;
  backoff = 10 ^ 9;
  backoff_multiplier = m;
  disable_backoff_caps = false;
}

-- The third attempt succeeds.
abbrev third : ℕ → Attempt ℕ Bool
third n = if n == 2 then returned 7 else failed (n == 1)

retry-Runs_example : Runs third 0 3 (retry (λ m n. m ^ n) (some (config (pos 3) 2)) (some third))
retry-Runs_example = retry-Runs (λ m n. m ^ n) (config (pos 3) 2) third 3 refl

backoff_duration-overflow_example :
    (pos_part (backoff_duration (λ m n. m ^ n) (config (pos 20) 10) 10) ≡ 0)
    × (0 < neg_part (backoff_duration (λ m n. m ^ n) (config (pos 20) 10) 10))
backoff_duration-overflow_example =
    backoff_duration-overflow (λ m n. m ^ n) (config (pos 20) 10) 10 (omega arith) (omega arith)
