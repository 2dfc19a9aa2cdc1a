-- ===== src/Client/ReceiveLoop.antt =====
-- One turn of `receiveLoop` of client.go: when it ends, goes on, tells the callers that the connection is
-- lost, or routes a message; and the reconnection after a loss, during which callers register, take what
-- their channels have, and leave. What the context, the socket and the clock do in a turn is given, and
-- so are the callers' events and the result of the reconnection. The client of a turn is the one at
-- the moment at which the loop acts on what `Receive` returned.
pub mod Ends
use pod_os_go_client.Prelude.{
  ℕ, ◌+◌, Bool, true, false, ◌&&◌, ◌||◌, ◌==◌, leb, if◌then◌else◌, length, List,
}
use pod_os_go_client.Prelude.Result.{Result, ok, err, panic, ◌>>=◌}
use pod_os_go_client.Client.Lost.{run}
use pod_os_go_client.Client.{Client, Disabled, Event, Reply, lose_connection, receive, step}

-- What `Receive` returns, and `DecodeMessage` of it: an idle time-out, another error, no bytes, bytes
-- that are no message, or a message.
pub data Received : Type 0 where
  idle broken nothing undecodable : Received
  decoded : Reply → Received

-- `quiet` is the time since the last activity.
pub record Turn : Type 0 where
  pub cancelled : Bool
  pub is_connected : Bool
  pub received : Received
  pub cancelled_in_receive : Bool
  pub quiet : ℕ

-- Whether the client reconnects, and the liveness time-out, 0 for none.
pub record LoopConfig : Type 0 where
  pub reconnects : Bool
  pub liveness : ℕ

unfoldable pub pending_count : Client → ℕ
pending_count c = length c.pending + length c.pending_with_raw

-- Where the loop is: at the start of a turn, past `handleConnectionLost`, or at its end.
pub data Phase : Type 0 where
  receiving recovering ended : Phase

-- The callers fail, and the loop goes on to recover the connection.
abbrev pub lost : Client → Result Disabled (Client × Phase)
lost c = step lose_connection c >>= λ d. ok (d, recovering)

abbrev pub is_healthy : LoopConfig → Turn → Client → Bool
is_healthy config t c =
    config.liveness == 0 || (pending_count c == 0 || leb t.quiet config.liveness)

abbrev pub handle : LoopConfig → Turn → Client → Received → Result Disabled (Client × Phase)
handle config t c idle =
    if t.cancelled_in_receive
    then ok (c, ended)
    else if is_healthy config t c
    then ok (c, receiving)
    else lost c
handle config t c broken = if t.cancelled_in_receive then ok (c, ended) else lost c
handle config t c nothing = ok (c, receiving)
handle config t c undecodable = ok (c, receiving)
handle config t c (decoded r) = step (receive r) c >>= λ d. ok (d, receiving)

-- The client after the turn, and where the loop is.
unfoldable pub turn : LoopConfig → Turn → Client → Result Disabled (Client × Phase)
unfolding step pending_count
turn config t c =
    if t.cancelled
    then ok (c, ended)
    else if t.is_connected
    then handle config t c t.received
    else lost c

-- The result of `attemptReconnection`, which is not called without reconnection.
unfoldable pub recover : LoopConfig → (recovered : Bool) → Phase
recover config recovered = if config.reconnects && recovered then receiving else ended

-- After a loss the callers go on, and then the reconnection is over.
abbrev pub after_turn :
    LoopConfig
    → (during : List Event) → (recovered : Bool) → Client × Phase
    → Result Disabled (Client × Phase)
after_turn config during recovered (c, receiving) = ok (c, receiving)
after_turn config during recovered (c, ended) = ok (c, ended)
after_turn config during recovered (c, recovering) =
    run during c >>= λ d. ok (d, recover config recovered)

-- A turn to its end.
unfoldable pub whole_turn :
    LoopConfig
    → Turn
    → (during : List Event) → (recovered : Bool) → Client
    → Result Disabled (Client × Phase)
unfolding turn run recover
whole_turn config t during recovered c =
    turn config t c >>= λ r. after_turn config during recovered r
