-- ===== src/Readiness.antt =====
-- `waitForAIPReady` of readiness/gate.go with `normalized`, and `ActorHealthProbeSucceeded` of
-- readiness/health_probe.go. Each attempt that starts before the deadline is an element of a list,
-- which the clock, the context and the actor choose; the list ends when the deadline has passed. The
-- probe message itself and the texts of the errors are left out. Durations are whole numbers of one
-- unit (nanoseconds), where zero stands for every value that is not positive.
pub mod Streak
pub mod Opens
mod Tests
use pod_os_go_client.Prelude.{
  ℕ, zero, suc, ◌*◌, ◌^◌, Bool, true, false, not, ◌&&◌, List, [], ◌∷◌, ltb, leb, if◌then◌else◌,
}

pub record ReadinessConfig : Type 0 where
  pub timeout : ℕ
  pub initial_backoff : ℕ
  pub max_backoff : ℕ
  pub required_consecutive : ℕ
  pub success_interval : ℕ

abbrev second : ℕ
second = 10 ^ 9

abbrev pub or_default : ℕ → ℕ → ℕ
or_default zero d = d
or_default (suc n) d = suc n

unfoldable pub normalized : ReadinessConfig → ReadinessConfig
normalized c = record {
  timeout = or_default c.timeout (60 * second);
  initial_backoff = or_default c.initial_backoff (2 * second);
  max_backoff = or_default c.max_backoff (8 * second);
  required_consecutive = or_default c.required_consecutive 1;
  success_interval = or_default c.success_interval (2 * second);
}

-- What `send` returns: an error, nothing, or a message, of which only its processing status counts.
pub data Reply : Type 0 where
  send_error no_response : Reply
  responds : (is_error : Bool) → Reply

-- An attempt: the reply, and whether the context is done in the pause after it.
pub record Probe : Type 0 where
  pub reply : Reply
  pub ctx_done : Bool

-- `ActorHealthProbeSucceeded`
unfoldable pub probe_succeeded : Reply → Bool
probe_succeeded send_error = false
probe_succeeded no_response = true
probe_succeeded (responds is_error) = not is_error

-- `lastErr`
pub data LastError : Type 0 where
  deadline_exceeded from_send returned_error no_response_error : LastError

abbrev pub reason : Reply → LastError
reason send_error = from_send
reason no_response = no_response_error
reason (responds is_error) = returned_error

pub data GateResult : Type 0 where
  ready : GateResult
  aborted : (tries : ℕ) → GateResult
  not_reachable : LastError → GateResult
  nil_send : GateResult

-- The result, and the pauses that were made.
pub record GateRun : Type 0 where
  pub result : GateResult
  pub pauses : List ℕ

-- the pause between two attempts, unless the context ends it
abbrev pub pause : Bool → (tries d : ℕ) → GateRun → GateRun
pause true tries d rest = record { result = aborted tries; pauses = d ∷ [] }
pause false tries d rest = record { result = rest.result; pauses = d ∷ rest.pauses }

unfoldable pub next_backoff : ReadinessConfig → ℕ → ℕ
next_backoff rc backoff =
    if ltb backoff rc.max_backoff
    then if ltb rc.max_backoff (backoff * 2) then rc.max_backoff else backoff * 2
    else backoff

-- the loop, with `consecutive` successes, `attempt` as its counter, and the error `last`
unfoldable pub poll :
    ReadinessConfig → List Probe → (consecutive attempt backoff : ℕ) → LastError → GateRun
unfolding probe_succeeded next_backoff
poll rc [] consecutive attempt backoff last = record { result = not_reachable last; pauses = [] }
poll rc (p ∷ ps) consecutive attempt backoff last =
    let good = probe_succeeded p.reply in
    let rest =
      poll rc ps (if good then suc consecutive else 0) (suc attempt)
        (if good then rc.initial_backoff else next_backoff rc backoff)
        (if good then last else reason p.reply) in
    if good && leb rc.required_consecutive (suc consecutive)
    then record { result = ready; pauses = [] }
    else pause p.ctx_done attempt (if good then rc.success_interval else backoff) rest

unfoldable pub wait_for_aip_ready : (send_given : Bool) → ReadinessConfig → List Probe → GateRun
unfolding normalized
wait_for_aip_ready send_given rc probes =
    if send_given
    then poll (normalized rc) probes 0 1 (normalized rc).initial_backoff deadline_exceeded
    else record { result = nil_send; pauses = [] }
