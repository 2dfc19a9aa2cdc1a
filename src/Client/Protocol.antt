-- ===== src/Client/Protocol.antt =====
-- What the client promises each caller, without the maps and the channels: one call goes through these
-- views, and a reply can only come with the call's own MessageId.
use pod_os_go_client.Prelude.{
  ℕ, ◌≡◌, subst, inl, inr, true, false, Option, none, some, arith, ◌==◌, if◌then◌else◌, Bool-cases,
  Option-cases, Bytes, some-eq, none_ne_some,
}
use pod_os_go_client.Client.{
  connection_lost, Outcome, Reply, put, failed, Call, Reason, Store, channel_outcome, outcome_of,
  running,
}

-- A call as its caller sees it.
pub data View : Type 0 where
  unused : View
  waiting : (id : Bytes) → View
  delivered : (id : Bytes) → Reply → View
  lost : (id : Bytes) → View
  returned : (id : Bytes) → Outcome → View

-- The steps of one call that the specification allows.
pub data Move : View → View → Type 0 where
  begin : (id : Bytes) → Move unused (waiting id)
  reply : (id : Bytes) (r : Reply) → r.message_id ≡ id → Move (waiting id) (delivered id r)
  lose : (id : Bytes) → Move (waiting id) (lost id)
  take : (id : Bytes) (r : Reply) → Move (delivered id r) (returned id (outcome_of r))
  take_lost : (id : Bytes) → Move (lost id) (returned id connection_lost)
  give_up : (id : Bytes) (why : Reason) → Move (waiting id) (returned id (failed why))
  give_up_delivered :
      (id : Bytes) (r : Reply) (why : Reason) → Move (delivered id r) (returned id (failed why))
  give_up_lost : (id : Bytes) (why : Reason) → Move (lost id) (returned id (failed why))

pub data Moves (v : View) : View → Type 0 where
  stop : Moves v v
  more : {w u : View} → Moves v w → Move w u → Moves v u

pub Moves-trans : {v w u : View} → Moves v w → Moves w u → Moves v u
Moves-trans a stop = a
Moves-trans a (more b m) = more (Moves-trans a b) m

pub Moves-refl : {v w : View} → v ≡ w → Moves v w
Moves-refl {v} e = subst (λ w. Moves v w) e stop

-- The view of a call of the client.
unfoldable pub view_call : Call → View
view_call k = elim k.outcome [
  | some o ↦ returned k.id o
  | none ↦ elim k.buffer [
    | some r ↦ delivered k.id r
    | none ↦ if k.closed then lost k.id else waiting k.id
  ]
]

unfoldable pub view : Option Call → View
unfolding view_call
view none = unused
view (some k) = view_call k

-- Every call of the one store goes to that of the other.
abbrev pub Follows : Store → Store → Type 0
Follows s t = (n : ℕ) → Moves (view (s n)) (view (t n))

pub put-Follows :
    (n : ℕ) (l : Call) (s : Store) → Moves (view (s n)) (view_call l) → Follows s (put n l s)
unfolding view
put-Follows n l s go m = elim (Bool-cases (m == n)) [
  | inl same ↦
      let e : n ≡ m = ground arith in rw same (subst (λ i. Moves (view (s i)) (view_call l)) e go)
  | inr miss ↦ rw miss stop
]

-- Closing a channel, whatever is in it.
pub close-Moves :
    (k : Call) → k.closed ≡ false → Moves (view_call k) (view_call (record k { closed = true }))
unfolding view_call
close-Moves k still = elim (Option-cases k.outcome) [
  | inr (o, is) ↦ rw is stop
  | inl running ↦ elim (Option-cases k.buffer) [
    | inr (r, is) ↦ rw running (rw is stop)
    | inl empty ↦ rw running (rw empty (rw still (more stop (lose k.id))))
  ]
]

-- A reply into an open channel.
pub send-Moves :
    (k : Call) (r : Reply)
    → k.closed ≡ false
    → k.buffer ≡ none
    → r.message_id ≡ k.id
    → Moves (view_call k) (view_call (record k { buffer = some r }))
unfolding view_call
send-Moves k r still empty same = elim (Option-cases k.outcome) [
  | inr (o, is) ↦ rw is stop
  | inl running ↦ rw running (rw empty (rw still (more stop (reply k.id r same))))
]

pub return-Moves :
    (k : Call) (why : Reason)
    → k.outcome ≡ none
    → Moves (view_call k) (view_call (record k { outcome = some (failed why) }))
unfolding view_call
return-Moves k why running = elim (Option-cases k.buffer) [
  | inr (r, is) ↦ rw running (rw is (more stop (give_up_delivered k.id r why)))
  | inl empty ↦ elim (Bool-cases k.closed) [
    | inl closed ↦ rw running (rw empty (rw closed (more stop (give_up_lost k.id why))))
    | inr still ↦ rw running (rw empty (rw still (more stop (give_up k.id why))))
  ]
]

pub take-Moves :
    (k : Call) (o : Outcome)
    → k.outcome ≡ none
    → channel_outcome k ≡ some o
    → Moves (view_call k) (view_call (record k { outcome = some o }))
unfolding view_call channel_outcome
take-Moves k o running has = elim (Option-cases k.buffer) [
  | inr (r, is) ↦
      let e : outcome_of r ≡ o = some-eq (rw is at has) in
      rw running (
        rw is (subst (λ q. Moves (delivered k.id r) (returned k.id q)) e (more stop (take k.id r))))
  | inl empty ↦ elim (Bool-cases k.closed) [
    | inl closed ↦
        let e : connection_lost ≡ o = some-eq (rw closed at (rw empty at has)) in
        rw running (
          rw empty (
            rw closed
              (subst (λ q. Moves (lost k.id) (returned k.id q)) e (more stop (take_lost k.id)))))
    | inr still ↦ absurd (none_ne_some (rw still at (rw empty at has)))
  ]
]
