-- ===== src/Readiness/Opens.antt =====
-- The gate opens once there is a streak, and its pauses are bounded.
use pod_os_go_client.Prelude.{
  ℕ, suc, ◌+◌, ◌≤◌, ◌<◌, max, ◌≡◌, refl, sym, ◌∙◌, inl, inr, Bool, true, false, List, [], ◌∷◌, ◌++◌,
  arith, leb, Bool-cases, length, true_ne_false,
}
use pod_os_go_client.Readiness.{
  deadline_exceeded, GateRun, LastError, Probe, ReadinessConfig, next_backoff, normalized, pause,
  poll, probe_succeeded, ready, reason, wait_for_aip_ready,
}
use pod_os_go_client.Readiness.Streak.{AllSucceed, positive_default}

-- The context is never done in the pauses after these probes.
abbrev pub AllOpen : List Probe → Type 0
AllOpen [] = Unit {0}
AllOpen (p ∷ ps) = (p.ctx_done ≡ false) × AllOpen ps

-- One round: what follows opens the gate where it does not open already.
poll-ready_round :
    (rc : ReadinessConfig) (p : Probe) (ps : List Probe) (c n b : ℕ) (last : LastError)
    → p.ctx_done ≡ false
    → c < rc.required_consecutive
    → ((c' n' b' : ℕ) (l : LastError)
        → c' < rc.required_consecutive
        → (probe_succeeded p.reply ≡ true → c' ≡ suc c)
        → (poll rc ps c' n' b' l).result ≡ ready)
    → (poll rc (p ∷ ps) c n b last).result ≡ ready
unfolding poll
poll-ready_round rc p ps c n b last o lt f = elim (Bool-cases (probe_succeeded p.reply)) [
  | inl good ↦ elim (Bool-cases (leb rc.required_consecutive (suc c))) [
    | inl full ↦ rw (good, full) refl
    | inr part ↦
        let small : suc c < rc.required_consecutive = ground arith in
        rw (good, part, o) (f (suc c) (suc n) rc.initial_backoff last small (λ g. refl))
  ]
  | inr bad ↦
      rw (bad, o)
        (f 0 (suc n) (next_backoff rc b) (reason p.reply) (omega arith)
          (λ g. absurd (true_ne_false (sym g ∙ bad))))
]

streak_opens :
    (rc : ReadinessConfig) (streak after : List Probe) (c n b : ℕ) (last : LastError)
    → AllSucceed streak
    → AllOpen streak
    → c < rc.required_consecutive
    → rc.required_consecutive ≤ c + length streak
    → (poll rc (streak ++ after) c n b last).result ≡ ready
streak_opens rc [] after c n b last s o lt h = absurd (omega arith)
streak_opens rc (p ∷ ps) after c n b last s o lt h =
    poll-ready_round rc p (ps ++ after) c n b last o.0 lt (λ c' n' b' l lt' next.
      let step = next s.0 in streak_opens rc ps after c' n' b' l s.1 o.1 lt' (omega arith))

before_opens :
    (rc : ReadinessConfig) (before streak after : List Probe) (c n b : ℕ) (last : LastError)
    → AllOpen before
    → AllSucceed streak
    → AllOpen streak
    → c < rc.required_consecutive
    → rc.required_consecutive ≤ length streak
    → (poll rc (before ++ (streak ++ after)) c n b last).result ≡ ready
before_opens rc [] streak after c n b last o s o' lt h =
    streak_opens rc streak after c n b last s o' lt (omega arith)
before_opens rc (p ∷ ps) streak after c n b last o s o' lt h =
    poll-ready_round rc p (ps ++ (streak ++ after)) c n b last o.0 lt
      (λ c' n' b' l lt' next. before_opens rc ps streak after c' n' b' l o.1 s o' lt' h)

-- When the probes before the deadline hold as many successes in a row as the configuration requires,
-- and the context is not done until their end, the gate opens.
pub wait_for_aip_ready-opens :
    (rc : ReadinessConfig) (before streak after : List Probe)
    → AllOpen before
    → AllSucceed streak
    → AllOpen streak
    → length streak ≡ (normalized rc).required_consecutive
    → (wait_for_aip_ready true rc (before ++ (streak ++ after))).result ≡ ready
unfolding wait_for_aip_ready
wait_for_aip_ready-opens rc before streak after o s o' h =
    before_opens (normalized rc) before streak after 0 1 _ deadline_exceeded o s o'
      (positive_default rc.required_consecutive 1 (omega arith)) (omega arith)

-- Every number is at most `m`.
abbrev pub AllAtMost : ℕ → List ℕ → Type 0
AllAtMost m [] = Unit {0}
AllAtMost m (d ∷ ds) = (d ≤ m) × AllAtMost m ds

next_backoff-le :
    (rc : ReadinessConfig) (b m : ℕ) → b ≤ m → rc.max_backoff ≤ m → next_backoff rc b ≤ m
unfolding next_backoff
next_backoff-le rc b m h k = ground arith

pause-AllAtMost :
    (done : Bool) (n d m : ℕ) (rest : GateRun)
    → d ≤ m
    → AllAtMost m rest.pauses
    → AllAtMost m (pause done n d rest).pauses
pause-AllAtMost true n d m rest h k = (h, tt)
pause-AllAtMost false n d m rest h k = (h, k)

module _ (rc : ReadinessConfig) (m : ℕ) (initial : rc.initial_backoff ≤ m)
    (largest : rc.max_backoff ≤ m) (between : rc.success_interval ≤ m) where
  poll-AllAtMost :
      (ps : List Probe) (c n b : ℕ) (last : LastError)
      → b ≤ m
      → AllAtMost m (poll rc ps c n b last).pauses
  unfolding poll
  poll-AllAtMost [] c n b last h = tt
  poll-AllAtMost (p ∷ ps) c n b last h = elim (Bool-cases (probe_succeeded p.reply)) [
    | inl good ↦ elim (Bool-cases (leb rc.required_consecutive (suc c))) [
      | inl full ↦ rw (good, full) tt
      | inr part ↦
          rw (good, part)
            (pause-AllAtMost p.ctx_done n rc.success_interval m _ between
              (poll-AllAtMost ps (suc c) (suc n) rc.initial_backoff last initial))
    ]
    | inr bad ↦ rw bad (
        pause-AllAtMost p.ctx_done n b m _ h (
          poll-AllAtMost ps 0 (suc n) (next_backoff rc b) (reason p.reply)
            (next_backoff-le rc b m h largest)))
  ]

-- However often the backoff is doubled, no pause is longer than the largest of the three durations
-- that the configuration gives.
pub wait_for_aip_ready-AllAtMost :
    (send_given : Bool) (rc : ReadinessConfig) (probes : List Probe)
    → AllAtMost
        (max
          (normalized rc).initial_backoff
          (max (normalized rc).max_backoff (normalized rc).success_interval))
        (wait_for_aip_ready send_given rc probes).pauses
unfolding wait_for_aip_ready
wait_for_aip_ready-AllAtMost false rc probes = tt
wait_for_aip_ready-AllAtMost true rc probes =
    poll-AllAtMost (normalized rc) _ (omega arith) (omega arith) (omega arith) probes 0 1 _
      deadline_exceeded (omega arith)
