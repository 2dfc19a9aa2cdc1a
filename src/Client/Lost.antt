-- ===== src/Client/Lost.antt =====
-- Which calls get their reply, and which never do: the map of the waiting callers has one place for a
-- MessageId.
use pod_os_go_client.Prelude.{
  ℕ, suc, ◌≡◌, refl, sym, ap, ◌∙◌, ◌≢◌, ap₂, inl, inr, Bool, true, false, if◌then◌else◌, Option,
  none, some, List, [], ◌∷◌, arith, Bool-cases, Bytes, str_eq, str_eq-eq,
}
use pod_os_go_client.Prelude.Result.{Result, ok, ◌>>=◌}
use pod_os_go_client.Client.{
  Call, Client, Disabled, Event, Outcome, PendingMap, Reason, Reply, failed, find, finish, leave,
  new_call, Store, outcome_of, put, receive, register, register_call, remove, route, running,
  send_to, step, take_reply, channel_outcome,
}
use pod_os_go_client.Client.Invariant.{put-other, put-same}
use pod_os_go_client.Client.Protocol.{returned, view, view_call, waiting}

-- Events one after the other.
unfoldable pub run : List Event → Client → Result Disabled Client
run [] c = ok c
run (e ∷ es) c = step e c >>= λ d. run es d

find-remove : (id : Bytes) (m : PendingMap) → find id (remove id m) ≡ none
unfolding find remove
find-remove id [] = refl
find-remove id ((j, n) ∷ m) = elim (Bool-cases (str_eq j id)) [
  | inl hit ↦ rw hit (find-remove id m)
  | inr miss ↦ rw miss (rw miss (find-remove id m))
]

-- The state after two calls have registered under one MessageId and the first has returned.
displaced : Client → Bytes → Reason → Client
displaced c id why =
    finish c.next (new_call id false) (failed why)
      (register_call id false (register_call id false c))

first-running :
    (c : Client) (id : Bytes)
    → running c.next (register_call id false (register_call id false c)) ≡ some (new_call id false)
unfolding running register_call
first-running c id =
    let k = new_call id false in
    let one = put c.next k c.calls in
    rw (put-other (suc c.next) c.next k one (λ e. omega arith) ∙ put-same c.next k c.calls, running)
      refl

leave-finish :
    (n : ℕ) (why : Reason) (k : Call) (c : Client)
    → running n c ≡ some k
    → step (leave n why) c ≡ ok (finish n k (failed why) c)
unfolding step
leave-finish n why k c is = rw (is, step) refl

displaced-runs :
    (c : Client) (id : Bytes) (why : Reason)
    → run (register id false ∷ register id false ∷ leave c.next why ∷ []) c
      ≡ ok (displaced c id why)
unfolding run displaced register_call step
displaced-runs c id why =
    ap (λ (r : Result Disabled Client). r >>= λ d. ok d)
      (leave-finish c.next why (new_call id false)
        (register_call id false (register_call id false c)) (first-running c id))

-- A message that nobody waits for.
receive-nobody :
    (r : Reply) (c : Client)
    → find r.message_id c.pending_with_raw ≡ none
    → find r.message_id c.pending ≡ none
    → step (receive r) c ≡ ok c
unfolding step route
receive-nobody r c no_raw nobody = elim (Bool-cases (str_eq r.message_id [])) [
  | inl empty ↦ rw empty refl
  | inr named ↦ simp (named, no_raw, nobody, route)
]

displaced-waits :
    (c : Client) (id : Bytes) (why : Reason)
    → view ((displaced c id why).calls (suc c.next)) ≡ waiting id
unfolding displaced finish register_call view view_call
displaced-waits c id why =
    let k = new_call id false in
    let l = record k { outcome = some (failed why) } in
    let one = put c.next k c.calls in
    let two = put (suc c.next) k one in
    ap view (put-other c.next (suc c.next) l two (λ e. omega arith) ∙ put-same (suc c.next) k one)

displaced-unknown :
    (c : Client) (id : Bytes) (why : Reason)
    → (find id (displaced c id why).pending ≡ none)
      × ((displaced c id why).pending_with_raw ≡ c.pending_with_raw)
unfolding displaced finish register_call
displaced-unknown c id why =
    (find-remove id (register_call id false (register_call id false c)).pending, refl)

displaced-dropped :
    (c : Client) (id : Bytes) (why : Reason) (r : Reply)
    → r.message_id ≡ id
    → find id c.pending_with_raw ≡ none
    → step (receive r) (displaced c id why) ≡ ok (displaced c id why)
displaced-dropped c id why r same no_raw =
    let (nobody, kept) = displaced-unknown c id why in
    receive-nobody r (displaced c id why) (ap₂ find same kept ∙ no_raw)
      (ap (λ i. find i (displaced c id why).pending) same ∙ nobody)

-- Two calls that register under one MessageId share its place in the map. Once the first has returned,
-- the second still waits, and the reply with its MessageId changes nothing: it is dropped. (No raw call
-- has that MessageId.)
pub displaced-Loses :
    (c : Client) (id : Bytes) (why : Reason) (r : Reply)
    → r.message_id ≡ id
    → find id c.pending_with_raw ≡ none
    → (d : Client) × (run (register id false ∷ register id false ∷ leave c.next why ∷ []) c ≡ ok d)
      × (view (d.calls (suc c.next)) ≡ waiting id)
      × (step (receive r) d ≡ ok d)
displaced-Loses c id why r same no_raw = (
  displaced c id why,
  displaced-runs c id why,
  displaced-waits c id why,
  displaced-dropped c id why r same no_raw,
)

-- Delivery

receive-sent :
    (r : Reply) (c : Client) (n : ℕ) (k : Call)
    → r.message_id ≢ []
    → find r.message_id c.pending_with_raw ≡ none
    → find r.message_id c.pending ≡ some n
    → c.calls n ≡ some k
    → k.closed ≡ false
    → k.buffer ≡ none
    → step (receive r) c ≡ ok (record c { calls = put n (record k { buffer = some r }) c.calls })
unfolding step route send_to
receive-sent r c n k named no_raw found is still empty =
    elim (Bool-cases (str_eq r.message_id [])) [
      | inl no_name ↦ absurd (named (str_eq-eq r.message_id [] no_name))
      | inr name ↦ simp (name, no_raw, found, is, still, empty, route, send_to)
    ]

take-finish :
    (n : ℕ) (k : Call) (o : Outcome) (c : Client)
    → running n c ≡ some k
    → channel_outcome k ≡ some o
    → step (take_reply n) c ≡ ok (finish n k o c)
unfolding step
take-finish n k o c is has = rw (is, step) (rw has refl)

if-calls :
    (b : Bool) (x y : Client) (s : Store)
    → x.calls ≡ s
    → y.calls ≡ s
    → (if b then x else y).calls ≡ s
if-calls true x y s p q = p
if-calls false x y s p q = q

finished-view :
    (n : ℕ) (k : Call) (o : Outcome) (c : Client)
    → view ((finish n k o c).calls n) ≡ returned k.id o
unfolding finish view view_call
finished-view n k o c =
    let l = record k { outcome = some o } in
    ap (λ (s : Store). view (s n)) (if-calls k.raw _ _ (put n l c.calls) refl refl)
    ∙ ap view (put-same n l c.calls)

is-running :
    (n : ℕ) (k : Call) (c : Client) → c.calls n ≡ some k → k.outcome ≡ none → running n c ≡ some k
unfolding running
is-running n k c is runs = simp (is, runs, running)

-- A call that waits has an open and empty channel.
record IsWaiting (id : Bytes) (k : Call) : Type 0 where
  named : k.id ≡ id
  empty : k.buffer ≡ none
  still : k.closed ≡ false
  runs : k.outcome ≡ none

waiting-call :
    (id : Bytes) (o : Option Call)
    → view o ≡ waiting id
    → (k : Call) × (o ≡ some k) × IsWaiting id k
unfolding view view_call
waiting-call id none e = cc
waiting-call id (some k) e = (k, refl, ground arith)

-- A plain call that waits gets the reply with its MessageId, and returns with it, as an error if its
-- status is `ERROR`. (The MessageId is not empty, the map has the call under it, and no raw call.)
pub reply-Returns :
    (c : Client) (n : ℕ) (id : Bytes) (r : Reply)
    → id ≢ []
    → r.message_id ≡ id
    → find id c.pending_with_raw ≡ none
    → find id c.pending ≡ some n
    → view (c.calls n) ≡ waiting id
    → (d : Client) × (run (receive r ∷ take_reply n ∷ []) c ≡ ok d)
      × (view (d.calls n) ≡ returned id (outcome_of r))
unfolding run
reply-Returns c n id r named same no_raw found waits =
    let (k, is, w) = waiting-call id (c.calls n) waits in
    let l = record k { buffer = some r } in
    let sent = record c { calls = put n l c.calls } in
    let now = is-running n l sent (put-same n l c.calls) w.runs in
    let has : channel_outcome l ≡ some (outcome_of r) = unfold channel_outcome in refl in
    (
      finish n l (outcome_of r) sent,
      rw
          (receive-sent r c n k (λ e. named (sym same ∙ e))
            (ap (λ i. find i c.pending_with_raw) same ∙ no_raw)
            (ap (λ i. find i c.pending) same ∙ found) is w.still w.empty)
          (rw (take-finish n l (outcome_of r) sent now has) refl),
      finished-view n l (outcome_of r) sent ∙ ap (λ i. returned i (outcome_of r)) w.named,
    )
