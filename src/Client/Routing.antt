-- ===== src/Client/Routing.antt =====
-- The client carries out the protocol: every event moves each call by the allowed steps only.
use pod_os_go_client.Prelude.{
  ℕ, ◌≡◌, refl, sym, ap, ◌∙◌, ◌≢◌, inl, inr, Bool, true, false, none, some, [], if◌then◌else◌,
  Bool-cases, Option-cases, str_eq, some-eq, none_ne_some,
}
use pod_os_go_client.Prelude.Result.{Result, ok, panic}
use pod_os_go_client.Client.{
  failed, put, receive, step, Outcome, Event, Call, Client, Disabled, Store, channel_outcome,
  finish, initial, leave, lose_connection, register, running, take_reply,
}
use pod_os_go_client.Client.Preserved.{
  Calm-IsWellFormed, IsFine, put-Calm, register-IsFine, route-IsFine,
}
use pod_os_go_client.Client.Invariant.{Distinct-remove, Entries-remove, IsWellFormed}
use pod_os_go_client.Client.Protocol.{Follows, Moves, return-Moves, stop, take-Moves, view_call}
use pod_os_go_client.Client.Closing.{notify_connection_lost-IsFine}

running-some :
    (n : ℕ) (c : Client) {k : Call}
    → running n c ≡ some k
    → (c.calls n ≡ some k) × (k.outcome ≡ none)
unfolding running
running-some n c {k} e = elim (Option-cases (c.calls n)) [
  | inl nobody ↦ absurd (none_ne_some (rw (nobody, running) at e))
  | inr (l, is) ↦ elim (Option-cases l.outcome) [
    | inr (o, gone) ↦ absurd (none_ne_some (rw (is, gone, running) at e))
    | inl still ↦
        let same : l ≡ k = some-eq (rw (is, still, running) at e) in
        (is ∙ ap some same, sym (ap (λ j. j.outcome) same) ∙ still)
  ]
]

if-holds : (P : Client → Type 0) (b : Bool) {x y : Client} → P x → P y → P (if b then x else y)
if-holds P true px py = px
if-holds P false px py = py

finish-IsFine :
    (n : ℕ) (k : Call) (o : Outcome) (c : Client)
    → IsWellFormed c
    → c.calls n ≡ some k
    → Moves (view_call k) (view_call (record k { outcome = some o }))
    → IsFine c.calls (ok (finish n k o c))
unfolding finish
finish-IsFine n k o c w is go =
    let l = record k { outcome = some o } in
    let calm = put-Calm n k l c.calls is refl refl refl go in
    let v = Calm-IsWellFormed c (put n l c.calls) w calm in
    if-holds (λ d. IsWellFormed d × Follows c.calls d.calls) k.raw
      (
        record {
          unused = v.unused;
          entries = v.entries;
          raw_entries = Entries-remove true (put n l c.calls) k.id c.pending_with_raw v.raw_entries;
          distinct = v.distinct;
          raw_distinct = Distinct-remove k.id c.pending_with_raw v.raw_distinct;
        },
        calm.1,
      )
      (
        record {
          unused = v.unused;
          entries = Entries-remove false (put n l c.calls) k.id c.pending v.entries;
          raw_entries = v.raw_entries;
          distinct = Distinct-remove k.id c.pending v.distinct;
          raw_distinct = v.raw_distinct;
        },
        calm.1,
      )

step-IsFine : (e : Event) (c : Client) → IsWellFormed c → IsFine c.calls (step e c)
unfolding step
step-IsFine (register id raw) c w = register-IsFine id raw c w
step-IsFine (receive r) c w = elim (Bool-cases (str_eq r.message_id [])) [
  | inl empty ↦ rw (empty, IsFine) (w, λ n. stop)
  | inr named ↦ rw (named, IsFine) (route-IsFine r c w)
]
step-IsFine lose_connection c w = notify_connection_lost-IsFine c w
step-IsFine (take_reply n) c w = elim (Option-cases (running n c)) [
  | inl gone ↦ rw (gone, IsFine) tt
  | inr (k, is) ↦ elim (Option-cases (channel_outcome k)) [
    | inl nothing ↦ rw (is, nothing, IsFine) tt
    | inr (o, has) ↦
        let (at_n, still) = running-some n c is in
        rw (is, has, IsFine) (finish-IsFine n k o c w at_n (take-Moves k o still has))
  ]
]
step-IsFine (leave n why) c w = elim (Option-cases (running n c)) [
  | inl gone ↦ rw (gone, IsFine) tt
  | inr (k, is) ↦
      let (at_n, still) = running-some n c is in
      rw (is, IsFine) (finish-IsFine n k (failed why) c w at_n (return-Moves k why still))
]

-- The states that the client can come to.
pub data IsReachable : Client → Type 0 where
  start : IsReachable initial
  after : {c d : Client} → IsReachable c → (e : Event) → step e c ≡ ok d → IsReachable d

IsFine-ok :
    (s : Store) (r : Result Disabled Client) {d : Client}
    → IsFine s r
    → r ≡ ok d
    → IsWellFormed d × Follows s d.calls
IsFine-ok s r fine is = rw (is, IsFine) at fine

pub IsReachable-IsWellFormed : (c : Client) → IsReachable c → IsWellFormed c
IsReachable-IsWellFormed _ start = record {
  unused = λ n h. refl;
  entries = tt;
  raw_entries = tt;
  distinct = tt;
  raw_distinct = tt;
}
IsReachable-IsWellFormed d (after {c} r e is) =
    (IsFine-ok c.calls (step e c) (step-IsFine e c (IsReachable-IsWellFormed c r)) is).0

-- In every state that the client can come to, an event moves each call only by steps that the protocol
-- allows: a reply to a call that waits has the call's own MessageId, a call returns at most once, and
-- then with what was delivered to it, with the lost connection, or for a reason of its own.
pub step-Follows :
    (c d : Client) (e : Event) → IsReachable c → step e c ≡ ok d → Follows c.calls d.calls
step-Follows c d e r is =
    (IsFine-ok c.calls (step e c) (step-IsFine e c (IsReachable-IsWellFormed c r)) is).1

-- In every state that the client can come to, no event sends on a closed channel or closes a channel
-- twice.
pub step-ne-panic : (c : Client) (e : Event) → IsReachable c → step e c ≢ panic
step-ne-panic c e r is = rw (is, IsFine) at (step-IsFine e c (IsReachable-IsWellFormed c r))
