-- ===== src/Client.antt =====
-- The requests that wait for a reply, of client.go: `sendMessageWithCorrelation` and its raw form, and
-- the part of `receiveLoop` that routes a response or tells every caller that the connection is lost.
-- Callers and the loop are goroutines; what one of them does at a time is one event. The lookup of a
-- channel and the send into it are one: in between only callers run, and no caller closes a channel.
-- The closing of the channels by `StopReceiver` after its time-out is left out.
pub mod Protocol
pub mod Invariant
pub mod Preserved
pub mod Closing
pub mod Routing
pub mod Lost
pub mod Reconnect
pub mod ReceiveLoop
mod Tests
use pod_os_go_client.Prelude.{
  ℕ, suc, Bool, true, false, Option, none, some, List, [], ◌∷◌, ◌==◌, if◌then◌else◌, Bytes, codes,
  str_eq,
}
use pod_os_go_client.Prelude.Result.{Result, ok, err, panic, ◌>>=◌, ◌>>◌}

-- What the loop and the callers look at in a decoded message.
pub record Reply : Type 0 where
  pub message_id : Bytes
  pub status : Bytes
  pub text : Bytes

-- Why a call returns before its channel has something.
pub data Reason : Type 0 where
  not_encoded not_connected not_sent timed_out : Reason

-- What a call returns.
pub data Outcome : Type 0 where
  response : Reply → Outcome
  processing_error : Reply → (text : Bytes) → Outcome
  connection_lost : Outcome
  failed : Reason → Outcome

-- A call, with its channel of one place.
pub record Call : Type 0 where
  pub id : Bytes
  pub raw : Bool
  pub buffer : Option Reply
  pub closed : Bool
  pub outcome : Option Outcome

-- A map from a MessageId to the number of the call whose channel it holds.
abbrev pub PendingMap : Type 0
PendingMap = List (Bytes × ℕ)

abbrev pub Store : Type 0
Store = ℕ → Option Call

pub record Client : Type 0 where
  pub next : ℕ
  pub calls : Store
  pub pending : PendingMap
  pub pending_with_raw : PendingMap

pub data Event : Type 0 where
  -- a caller registers its channel, under a MessageId that is not empty
  register : (id : Bytes) → (raw : Bool) → Event
  -- the loop has decoded a message
  receive : Reply → Event
  -- `notifyPendingCallersConnectionLost`
  lose_connection : Event
  -- the caller takes what its channel has
  take_reply : ℕ → Event
  -- the caller returns for another reason
  leave : ℕ → Reason → Event

abbrev pub initial : Client
initial = record { next = 0; calls = λ n. none; pending = []; pending_with_raw = [] }

abbrev pub put : ℕ → Call → Store → Store
put n c s = λ m. if m == n then some c else s m

-- `delete(pending, id)`
unfoldable pub remove : Bytes → PendingMap → PendingMap
remove id [] = []
remove id ((j, n) ∷ m) = let rest = remove id m in if str_eq j id then rest else (j, n) ∷ rest

unfoldable pub find : Bytes → PendingMap → Option ℕ
find id [] = none
find id ((j, n) ∷ m) = if str_eq j id then some n else find id m

abbrev pub new_call : Bytes → Bool → Call
new_call id raw = record { id = id; raw = raw; buffer = none; closed = false; outcome = none }

unfoldable pub register_call : Bytes → Bool → Client → Client
unfolding remove
register_call id raw c =
    let calls = put c.next (new_call id raw) c.calls in
    if raw
    then record c {
      next = suc c.next;
      calls = calls;
      pending_with_raw = (id, c.next) ∷ remove id c.pending_with_raw;
    }
    else record c { next = suc c.next; calls = calls; pending = (id, c.next) ∷ remove id c.pending }

-- Why an event does not happen.
pub data Disabled : Type 0 where
  no_such_call nothing_to_take : Disabled

-- The non-blocking send of `select`: a full channel drops the message, a closed one panics.
unfoldable pub send_to : ℕ → Reply → Store → Result Disabled Store
send_to n r s = elim (s n) [
  | none ↦ err no_such_call
  | some k ↦
      if k.closed
      then panic
      else elim k.buffer [ none ↦ ok (put n (record k { buffer = some r }) s) | some old ↦ ok s ]
]

-- The raw callers come first; a message that no one waits for goes to the handler.
unfoldable pub route : Reply → Client → Result Disabled Client
unfolding find send_to
route r c = elim (find r.message_id c.pending_with_raw) [
  | some n ↦ do calls ← send_to n r c.calls; ok (record c { calls = calls })
  | none ↦ elim (find r.message_id c.pending) [
    | some n ↦ do calls ← send_to n r c.calls; ok (record c { calls = calls })
    | none ↦ ok c
  ]
]

-- `close(ch)`, which panics on a closed channel.
unfoldable pub close_channel : ℕ → Store → Result Disabled Store
close_channel n s = elim (s n) [
  | none ↦ err no_such_call
  | some k ↦ if k.closed then panic else ok (put n (record k { closed = true }) s)
]

unfoldable pub close_all : PendingMap → Store → Result Disabled Store
unfolding close_channel
close_all [] s = ok s
close_all ((id, n) ∷ m) s = close_channel n s >>= λ closed. close_all m closed

unfoldable pub notify_connection_lost : Client → Result Disabled Client
unfolding close_all
notify_connection_lost c = do
  calls ← close_all c.pending c.calls
  calls_raw ← close_all c.pending_with_raw calls
  ok (record c { calls = calls_raw; pending = []; pending_with_raw = [] })

-- A reply with the status ERROR is returned with an error.
unfoldable pub outcome_of : Reply → Outcome
outcome_of r =
    if str_eq r.status (codes "ERROR")
    then processing_error r
        (if str_eq r.text [] then codes "unknown error from Pod-OS actor" else r.text)
    else response r

-- A call returns, and its deferred function deletes the entry of its MessageId.
unfoldable pub finish : ℕ → Call → Outcome → Client → Client
unfolding remove
finish n k o c =
    let calls = put n (record k { outcome = some o }) c.calls in
    if k.raw
    then record c { calls = calls; pending_with_raw = remove k.id c.pending_with_raw }
    else record c { calls = calls; pending = remove k.id c.pending }

-- What a channel gives its reader: a buffered reply, else that it is closed, else nothing yet.
unfoldable pub channel_outcome : Call → Option Outcome
unfolding outcome_of
channel_outcome k = elim k.buffer [
  | some r ↦ some (outcome_of r)
  | none ↦ if k.closed then some connection_lost else none
]

-- A call that has not returned.
unfoldable pub running : ℕ → Client → Option Call
running n c = elim (c.calls n) [
  | none ↦ none
  | some k ↦ elim k.outcome [ none ↦ some k | some o ↦ none ]
]

unfoldable pub step : Event → Client → Result Disabled Client
unfolding register_call route notify_connection_lost finish channel_outcome running
step (register id raw) c = ok (register_call id raw c)
step (receive r) c = if str_eq r.message_id [] then ok c else route r c
step lose_connection c = notify_connection_lost c
step (take_reply n) c = elim (running n c) [
  | none ↦ err no_such_call
  | some k ↦ elim (channel_outcome k) [ none ↦ err nothing_to_take | some o ↦ ok (finish n k o c) ]
]
step (leave n why) c = elim (running n c) [
  | none ↦ err no_such_call
  | some k ↦ ok (finish n k (failed why) c)
]
