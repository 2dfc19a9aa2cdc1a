-- ===== src/Client/ReceiveLoop/Ends.antt =====
-- What the receive loop leaves behind when it ends by itself.
use pod_os_go_client.Prelude.{
  ℕ, ◌≤◌, ◌≡◌, refl, subst, ap, ◌∙◌, inl, inr, Bool, true, false, List, [], ◌∷◌, ◌⊎◌, if◌then◌else◌,
  arith, Option-cases, Bool-cases, Bytes, str_eq,
}
use pod_os_go_client.Prelude.Result.{Result, ok, ok-eq, >>=-eq-ok}
use pod_os_go_client.Client.{
  Call, Client, Disabled, Event, Outcome, PendingMap, channel_outcome, close_all, failed, finish,
  leave, lose_connection, notify_connection_lost, receive, register, register_call, remove, running,
  step, take_reply,
}
use pod_os_go_client.Client.Lost.{run}
use pod_os_go_client.Client.ReceiveLoop.{
  LoopConfig, Phase, Received, Turn, after_turn, broken, decoded, ended, handle, idle, is_healthy,
  lost, nothing, receiving, recovering, turn, undecodable, whole_turn,
}

-- Each entry is of a call that registered as number `n` or later.
abbrev pub Late : ℕ → PendingMap → Type 0
Late n [] = Unit {0}
Late n ((id, k) ∷ m) = (n ≤ k) × Late n m

-- Every registered call has done so as number `n` or later.
pub record OnlyLate (n : ℕ) (c : Client) : Type 0 where
  pub plain : Late n c.pending
  pub raw : Late n c.pending_with_raw
  pub later : n ≤ c.next

-- What a caller does, not the loop.
abbrev pub IsCaller : Event → Type 0
IsCaller (register id raw) = Unit {0}
IsCaller (receive r) = ⊥
IsCaller lose_connection = ⊥
IsCaller (take_reply n) = Unit {0}
IsCaller (leave n why) = Unit {0}

abbrev pub AllCallers : List Event → Type 0
AllCallers [] = Unit {0}
AllCallers (e ∷ es) = IsCaller e × AllCallers es

Late-remove : (n : ℕ) (id : Bytes) (m : PendingMap) → Late n m → Late n (remove id m)
unfolding remove
Late-remove n id [] h = tt
Late-remove n id ((j, k) ∷ m) h = elim (Bool-cases (str_eq j id)) [
  | inl hit ↦ rw hit (Late-remove n id m h.1)
  | inr miss ↦ rw miss (h.0, Late-remove n id m h.1)
]

register-OnlyLate :
    (n : ℕ) (id : Bytes) (raw : Bool) (c : Client)
    → OnlyLate n c
    → OnlyLate n (register_call id raw c)
unfolding register_call
register-OnlyLate n id true c h = record {
  plain = h.plain;
  raw = (h.later, Late-remove n id c.pending_with_raw h.raw);
  later = omega (arith, h.later);
}
register-OnlyLate n id false c h = record {
  plain = (h.later, Late-remove n id c.pending h.plain);
  raw = h.raw;
  later = omega (arith, h.later);
}

if-OnlyLate :
    (n : ℕ) (b : Bool) (c d : Client)
    → OnlyLate n c
    → OnlyLate n d
    → OnlyLate n (if b then c else d)
if-OnlyLate n true c d h k = h
if-OnlyLate n false c d h k = k

finish-OnlyLate :
    (n i : ℕ) (k : Call) (o : Outcome) (c : Client) → OnlyLate n c → OnlyLate n (finish i k o c)
unfolding finish
finish-OnlyLate n i k o c h =
    if-OnlyLate n k.raw _ _
      (record {
        plain = h.plain;
        raw = Late-remove n k.id c.pending_with_raw h.raw;
        later = h.later;
      })
      (record { plain = Late-remove n k.id c.pending h.plain; raw = h.raw; later = h.later })

step-OnlyLate :
    (n : ℕ) (e : Event) (c d : Client) → IsCaller e → OnlyLate n c → step e c ≡ ok d → OnlyLate n d
unfolding step
step-OnlyLate n (register id raw) c d caller h e =
    subst (OnlyLate n) (ok-eq e) (register-OnlyLate n id raw c h)
step-OnlyLate n (receive r) c d caller h e = absurd caller
step-OnlyLate n lose_connection c d caller h e = absurd caller
step-OnlyLate n (take_reply i) c d caller h e = elim (Option-cases (running i c)) [
  | inl gone ↦ let clash = rw (gone, step) at e in cc
  | inr (k, is) ↦ elim (Option-cases (channel_outcome k)) [
    | inl empty ↦ let clash = rw empty at (rw (is, step) at e) in cc
    | inr (o, has) ↦
        subst (OnlyLate n) (ok-eq (rw has at (rw (is, step) at e))) (finish-OnlyLate n i k o c h)
  ]
]
step-OnlyLate n (leave i why) c d caller h e = elim (Option-cases (running i c)) [
  | inl gone ↦ let clash = rw (gone, step) at e in cc
  | inr (k, is) ↦
      subst (OnlyLate n) (ok-eq (rw (is, step) at e)) (finish-OnlyLate n i k (failed why) c h)
]

run-OnlyLate :
    (n : ℕ) (es : List Event) (c d : Client)
    → AllCallers es
    → OnlyLate n c
    → run es c ≡ ok d
    → OnlyLate n d
unfolding run
run-OnlyLate n [] c d callers h e = subst (OnlyLate n) (ok-eq e) h
run-OnlyLate n (x ∷ es) c d callers h e =
    let (b, first, rest) = >>=-eq-ok (step x c) _ e in
    run-OnlyLate n es b d callers.1 (step-OnlyLate n x c b callers.0 h first) rest

-- Right after the loss, no call is registered.
notify_connection_lost-OnlyLate :
    (c d : Client) → notify_connection_lost c ≡ ok d → OnlyLate c.next d
unfolding notify_connection_lost
notify_connection_lost-OnlyLate c d e =
    let (s, _, rest) = >>=-eq-ok (close_all c.pending c.calls) _ e in
    let (t, _, last) = >>=-eq-ok (close_all c.pending_with_raw s) _ rest in
    subst (OnlyLate c.next) (ok-eq last) (record { plain = tt; raw = tt; later = omega arith })

-- The loop goes on, or it has told the callers of the loss.
abbrev GoesOnOrTells : Client → Client × Phase → Type 0
GoesOnOrTells c r = (r.1 ≡ receiving) ⊎ ((r.1 ≡ recovering) × OnlyLate c.next r.0)

lost-GoesOnOrTells : (c : Client) (r : Client × Phase) → lost c ≡ ok r → GoesOnOrTells c r
unfolding step
lost-GoesOnOrTells c r e =
    let (x, is, last) = >>=-eq-ok (step lose_connection c) _ e in
    subst (GoesOnOrTells c) (ok-eq last) (inr (refl, notify_connection_lost-OnlyLate c x is))

on-GoesOnOrTells :
    (c d : Client) (r : Client × Phase)
    → ◌≡◌ {A = Result Disabled (Client × Phase)} (ok (d, receiving)) (ok r)
    → GoesOnOrTells c r
on-GoesOnOrTells c d r e = subst (GoesOnOrTells c) (ok-eq e) (inl refl)

handle-GoesOnOrTells :
    (config : LoopConfig) (t : Turn) (c : Client) (x : Received) (r : Client × Phase)
    → t.cancelled_in_receive ≡ false
    → handle config t c x ≡ ok r
    → GoesOnOrTells c r
handle-GoesOnOrTells config t c idle r still e = elim (Bool-cases (is_healthy config t c)) [
  | inl healthy ↦ on-GoesOnOrTells c c r (rw (still, healthy) at e)
  | inr overdue ↦ lost-GoesOnOrTells c r (rw (still, overdue) at e)
]
handle-GoesOnOrTells config t c broken r still e = lost-GoesOnOrTells c r (rw still at e)
handle-GoesOnOrTells config t c nothing r still e = on-GoesOnOrTells c c r e
handle-GoesOnOrTells config t c undecodable r still e = on-GoesOnOrTells c c r e
handle-GoesOnOrTells config t c (decoded m) r still e =
    let (x, is, last) = >>=-eq-ok (step (receive m) c) _ e in on-GoesOnOrTells c x r last

turn-GoesOnOrTells :
    (config : LoopConfig) (t : Turn) (c : Client) (r : Client × Phase)
    → t.cancelled ≡ false
    → t.cancelled_in_receive ≡ false
    → turn config t c ≡ ok r
    → GoesOnOrTells c r
unfolding turn
turn-GoesOnOrTells config t c r on still e = elim (Bool-cases t.is_connected) [
  | inl up ↦ handle-GoesOnOrTells config t c t.received r still (rw (on, up) at e)
  | inr down ↦ lost-GoesOnOrTells c r (rw (on, down) at e)
]

after_turn-OnlyLate :
    (config : LoopConfig) (during : List Event) (recovered : Bool) (c d : Client)
    (r : Client × Phase)
    → AllCallers during
    → GoesOnOrTells c r
    → after_turn config during recovered r ≡ ok (d, ended)
    → OnlyLate c.next d
after_turn-OnlyLate config during recovered c d (b, receiving) callers g e =
    let same = ok-eq e in let phase = ap (λ r. r.1) same in cc
after_turn-OnlyLate config during recovered c d (b, recovering) callers (inl other) e = cc
after_turn-OnlyLate config during recovered c d (b, recovering) callers (inr (tells, only)) e =
    let (x, ran, last) = >>=-eq-ok (run during b) _ e in
    run-OnlyLate c.next during b d callers only (ran ∙ ap ok (ap (λ r. r.0) (ok-eq last)))
after_turn-OnlyLate config during recovered c d (b, ended) callers (inl other) e = cc
after_turn-OnlyLate config during recovered c d (b, ended) callers (inr (other, only)) e = cc

-- When the receive loop ends after a turn in which its context has not been cancelled, no call that
-- was registered when it noticed the loss is registered any more: those that are have registered
-- since, while the loop tried to reconnect. During the reconnection only callers run: they
-- register, take replies and leave, in any order.
pub whole_turn-OnlyLate :
    (config : LoopConfig) (t : Turn) (during : List Event) (recovered : Bool) (c d : Client)
    → t.cancelled ≡ false
    → t.cancelled_in_receive ≡ false
    → AllCallers during
    → whole_turn config t during recovered c ≡ ok (d, ended)
    → OnlyLate c.next d
unfolding whole_turn
whole_turn-OnlyLate config t during recovered c d on still callers e =
    let (r, first, rest) = >>=-eq-ok (turn config t c) _ e in
    after_turn-OnlyLate config during recovered c d r callers
      (turn-GoesOnOrTells config t c r on still first) rest
