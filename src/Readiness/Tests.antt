-- ===== src/Readiness/Tests.antt =====
-- The theorems on the readiness gate at concrete probes.
use pod_os_go_client.Prelude.{◌≡◌, refl, true, false, List, [], ◌∷◌}
use pod_os_go_client.Readiness.Opens.{wait_for_aip_ready-opens}
use pod_os_go_client.Readiness.Streak.{HasStreak, wait_for_aip_ready-HasStreak}
use pod_os_go_client.Readiness.{
  Probe, ReadinessConfig, normalized, poll, probe_succeeded, ready, responds, send_error,
  wait_for_aip_ready,
}

abbrev config : ReadinessConfig
config = record {
  timeout = 60;
  initial_backoff = 2;
  max_backoff = 8;
  required_consecutive = 2;
  success_interval = 1;
}

abbrev good : Probe
good = record { reply = responds false; ctx_done = false }

abbrev bad : Probe
bad = record { reply = send_error; ctx_done = false }

-- A success alone, a failure, and then two successes.
abbrev flapping : List Probe
flapping = good ∷ bad ∷ good ∷ good ∷ []

wait_for_aip_ready-HasStreak_example : HasStreak 2 flapping
unfolding normalized wait_for_aip_ready poll
wait_for_aip_ready-HasStreak_example = wait_for_aip_ready-HasStreak true config flapping refl

wait_for_aip_ready-opens_example : (wait_for_aip_ready true config flapping).result ≡ ready
unfolding normalized probe_succeeded
wait_for_aip_ready-opens_example =
    wait_for_aip_ready-opens config (good ∷ bad ∷ []) (good ∷ good ∷ []) [] (refl, (refl, tt))
      (refl, (refl, tt)) (refl, (refl, tt)) refl
