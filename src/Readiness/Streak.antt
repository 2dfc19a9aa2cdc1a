-- ===== src/Readiness/Streak.antt =====
-- The gate opens after a streak of successes, and only then.
use pod_os_go_client.Prelude.{
  ℕ, zero, suc, ◌<◌, ◌≡◌, sym, subst, ap, ◌∙◌, ◌≢◌, inl, inr, Bool, true, false, List, [], ◌∷◌,
  ◌++◌, append_assoc, arith, leb, Bool-cases, length, length-append,
}
use pod_os_go_client.Readiness.{
  GateRun, LastError, ReadinessConfig, deadline_exceeded, next_backoff, nil_send, normalized,
  not_reachable, or_default, pause, poll, ready, reason, wait_for_aip_ready, Probe, probe_succeeded,
}

-- Every probe succeeds.
abbrev pub AllSucceed : List Probe → Type 0
AllSucceed [] = Unit {0}
AllSucceed (p ∷ ps) = (probe_succeeded p.reply ≡ true) × AllSucceed ps

-- A run of `k` successes, one after the other, stands somewhere in the probes.
abbrev pub HasStreak : ℕ → List Probe → Type 0
HasStreak k ps =
    (before : List Probe) × (streak : List Probe) × (after : List Probe) × (ps
      ≡ before ++ (streak ++ after))
    × (length streak ≡ k)
    × AllSucceed streak

AllSucceed-append : (xs ys : List Probe) → AllSucceed xs → AllSucceed ys → AllSucceed (xs ++ ys)
AllSucceed-append [] ys h k = k
AllSucceed-append (x ∷ xs) ys h k = (h.0, AllSucceed-append xs ys h.1 k)

HasStreak-behind : (k : ℕ) (xs ys : List Probe) → HasStreak k ys → HasStreak k (xs ++ ys)
HasStreak-behind k xs ys (b, m, a, e, l, s) =
    (xs ++ b, m, a, ap (λ t. xs ++ t) e ∙ sym (append_assoc xs b (m ++ a)), l, s)

pause-ready :
    (done : Bool) (n d : ℕ) (rest : GateRun)
    → (pause done n d rest).result ≡ ready
    → rest.result ≡ ready
pause-ready true n d rest e = cc
pause-ready false n d rest e = e

no_ready : {l : LastError} → not_reachable l ≢ ready
no_ready e = cc

no_send : nil_send ≢ ready
no_send e = cc

-- `done` are the successes that the loop has just seen.
poll-HasStreak :
    (rc : ReadinessConfig) (ps done : List Probe) (n b : ℕ) (last : LastError)
    → AllSucceed done
    → length done < rc.required_consecutive
    → (poll rc ps (length done) n b last).result ≡ ready
    → HasStreak rc.required_consecutive (done ++ ps)
unfolding poll
poll-HasStreak rc [] done n b last h lt e = absurd (no_ready e)
poll-HasStreak rc (p ∷ ps) done n b last h lt e = elim (Bool-cases (probe_succeeded p.reply)) [
  | inl good ↦
      let more : length (done ++ p ∷ []) ≡ suc (length done) =
        omega (arith, length-append done (p ∷ [])) in
      let all = AllSucceed-append done (p ∷ []) h (good, tt) in
      let shift = append_assoc done (p ∷ []) ps in
      elim (Bool-cases (leb rc.required_consecutive (suc (length done)))) [
        | inl full ↦
            let size : length (done ++ p ∷ []) ≡ rc.required_consecutive = ground arith in
            ([], done ++ p ∷ [], ps, sym shift, size, all)
        | inr part ↦
            let small : length (done ++ p ∷ []) < rc.required_consecutive = ground arith in
            subst (HasStreak rc.required_consecutive) shift (
              poll-HasStreak rc ps (done ++ p ∷ []) (suc n) rc.initial_backoff last all small
                (rw more (pause-ready p.ctx_done n rc.success_interval _ (rw (good, part) at e))))
      ]
  | inr bad ↦
      let rest =
        poll-HasStreak rc ps [] (suc n) (next_backoff rc b) (reason p.reply) tt (omega arith)
          (pause-ready p.ctx_done n b _ (rw bad at e)) in
      subst (HasStreak rc.required_consecutive) (append_assoc done (p ∷ []) ps)
        (HasStreak-behind rc.required_consecutive (done ++ p ∷ []) ps rest)
]

pub positive_default : (n d : ℕ) → 0 < d → 0 < or_default n d
positive_default zero d h = h
positive_default (suc n) d h = omega arith

-- When the gate opens, the probes hold as many successes in a row as the configuration requires.
pub wait_for_aip_ready-HasStreak :
    (send_given : Bool) (rc : ReadinessConfig) (probes : List Probe)
    → (wait_for_aip_ready send_given rc probes).result ≡ ready
    → HasStreak (normalized rc).required_consecutive probes
unfolding wait_for_aip_ready
wait_for_aip_ready-HasStreak false rc probes e = absurd (no_send e)
wait_for_aip_ready-HasStreak true rc probes e =
    poll-HasStreak (normalized rc) probes [] 1 _ deadline_exceeded tt
      (positive_default rc.required_consecutive 1 (omega arith)) e
