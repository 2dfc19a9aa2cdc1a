-- ===== src/Client/Tests.antt =====
-- The theorems on the waiting requests, at two calls, one plain and one raw.
use pod_os_go_client.Prelude.{◌≡◌, refl, ◌≢◌, List, [], ◌∷◌, Bytes, codes, true, false}
use pod_os_go_client.Prelude.Result.{ok, panic}
use pod_os_go_client.Client.{
  Client, Event, Reply, channel_outcome, connection_lost, finish, notify_connection_lost, running,
  find, initial, leave, lose_connection, new_call, outcome_of, put, receive, register,
  register_call, step, take_reply, timed_out,
}
use pod_os_go_client.Client.Lost.{displaced-Loses, reply-Returns, run}
use pod_os_go_client.Client.ReceiveLoop.{Turn, broken, recover, turn, whole_turn}
use pod_os_go_client.Client.ReceiveLoop.Ends.{OnlyLate, whole_turn-OnlyLate}
use pod_os_go_client.Client.Protocol.{Follows, returned, view, view_call, waiting}
use pod_os_go_client.Client.Routing.{IsReachable, after, start, step-Follows, step-ne-panic}

abbrev id : Bytes
id = codes "m1"

abbrev answer : Reply
answer = record { message_id = id; status = codes "ERROR"; text = codes "no such event" }

one_call : Client
one_call = register_call id false initial

two_calls : Client
unfolding one_call
two_calls = register_call (codes "m2") true one_call

two_calls-IsReachable : IsReachable two_calls
unfolding two_calls one_call step
two_calls-IsReachable =
    after (after start (register id false) refl) (register (codes "m2") true) refl

-- Both channels are closed.
both_lost : Client
unfolding two_calls one_call register_call
both_lost = record {
  next = 2;
  calls =
      put 1 (record (new_call (codes "m2") true) { closed = true })
        (put 0 (record (new_call id false) { closed = true }) two_calls.calls);
  pending = [];
  pending_with_raw = [];
}

step-Follows_example : Follows two_calls.calls both_lost.calls
step-Follows_example =
    step-Follows two_calls both_lost lose_connection two_calls-IsReachable
      (unfold two_calls one_call both_lost step in refl)

step-ne-panic_example : step lose_connection two_calls ≢ panic
step-ne-panic_example = step-ne-panic two_calls lose_connection two_calls-IsReachable

reply-Returns_example :
    (d : Client) × (run (receive answer ∷ take_reply 0 ∷ []) two_calls ≡ ok d)
    × (view (d.calls 0) ≡ returned id (outcome_of answer))
reply-Returns_example =
    reply-Returns two_calls 0 id answer (λ e. cc e) refl
      (unfold two_calls one_call register_call find in refl)
      (unfold two_calls one_call register_call find in refl)
      (unfold two_calls one_call register_call view view_call in refl)

displaced-Loses_example :
    (d : Client) × (run (register id false ∷ register id false ∷ leave 0 timed_out ∷ []) initial
      ≡ ok d)
    × (view (d.calls 1) ≡ waiting id)
    × (step (receive answer) d ≡ ok d)
displaced-Loses_example = displaced-Loses initial id timed_out answer refl (unfold find in refl)

-- A read fails while two calls wait. During the reconnection a third one registers, and one of the first
-- two returns; the reconnection fails.
abbrev broken_turn : Turn
broken_turn = record {
  cancelled = false;
  is_connected = true;
  received = broken;
  cancelled_in_receive = false;
  quiet = 0;
}

abbrev one_more : List Event
one_more = register (codes "late") false ∷ take_reply 0 ∷ []

failed_recovery : Client
unfolding both_lost two_calls one_call register_call finish
failed_recovery =
    finish 0 (record (new_call id false) { closed = true }) connection_lost
      (register_call (codes "late") false both_lost)

whole_turn-OnlyLate_example : OnlyLate 2 failed_recovery
unfolding two_calls one_call register_call
whole_turn-OnlyLate_example =
    whole_turn-OnlyLate (record { reconnects = true; liveness = 90 }) broken_turn one_more false
      two_calls failed_recovery refl refl (tt, (tt, tt))
      (unfold whole_turn turn run recover step register_call notify_connection_lost finish
          channel_outcome running two_calls one_call both_lost failed_recovery in
        refl)
