-- ===== src/Client/Reconnect/Tests.antt =====
-- The theorems on the reconnection, for a gateway that comes back at the third attempt.
use pod_os_go_client.Prelude.{ℕ, refl, inr, none, some, true, false, List, [], ◌∷◌, ◌++◌, arith}
use pod_os_go_client.Prelude.Int.{pos}
use pod_os_go_client.Client.Reconnect.{
  ReconnectConfig, Reconnection, Round, attempt_reconnection, not_dialled, not_identified, restored,
  state_reconnecting,
}
use pod_os_go_client.Client.Reconnect.Reports.{Reports, attempt_reconnection-Reports}
use pod_os_go_client.Client.Reconnect.NeverRestored.{NotRestored, attempt_reconnection-NotRestored}
use pod_os_go_client.Client.Reconnect.Restores.{IsRestored, attempt_reconnection-IsRestored}

abbrev config : ReconnectConfig
config = record {
  enabled = none;
  max_retries = pos 5;
  initial_backoff = pos 5;
  max_backoff = pos 7;
}

abbrev lost_client : Reconnection ℕ
lost_client = record {
  closed = false;
  reconnecting = false;
  reconnect_attempt = 0;
  connected = false;
  addressed = true;
  emitted = [];
}

abbrev two_fail : List (Round ℕ)
two_fail = not_dialled 1 none ∷ not_dialled 2 none ∷ []

attempt_reconnection-Reports_example :
    Reports
      ((state_reconnecting, some 9) ∷ [])
      (attempt_reconnection 404 (λ d. d) config (two_fail ++ restored ∷ []) (some 9) lost_client)
attempt_reconnection-Reports_example =
    attempt_reconnection-Reports 404 (λ d. d) config (two_fail ++ restored ∷ []) (some 9)
      lost_client refl refl

attempt_reconnection-IsRestored_example :
    IsRestored 3 2
      (attempt_reconnection 404 (λ d. d) config (two_fail ++ restored ∷ []) (some 9) lost_client)
attempt_reconnection-IsRestored_example =
    attempt_reconnection-IsRestored 404 (λ d. d) config two_fail [] (some 9) lost_client refl refl
      refl tt (inr (5, refl, omega arith))

-- The gateway refuses the client once, and would accept it the next time.
attempt_reconnection-NotRestored_example : NotRestored (
    attempt_reconnection 404
      (λ d. d)
      config
      (two_fail ++ not_identified 3 none ∷ restored ∷ [])
      (some 9)
      lost_client)
attempt_reconnection-NotRestored_example =
    attempt_reconnection-NotRestored 404 (λ d. d) config two_fail (restored ∷ []) 3 none (some 9)
      lost_client tt
