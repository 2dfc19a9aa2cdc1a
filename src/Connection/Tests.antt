-- ===== src/Connection/Tests.antt =====
-- The theorems on the connection at concrete messages, sockets and pools.
use pod_os_go_client.Prelude.{
  ℕ, zero, suc, ◌≤◌, ◌≡◌, refl, ap, ◌∙◌, ◌≢◌, true, false, none, some, List, [], ◌∷◌, arith, Bytes,
  codes, length, take,
}
use pod_os_go_client.Prelude.Int.{pos}
use pod_os_go_client.Prelude.Result.{ok}
use pod_os_go_client.Text.Laws.{every-Every, is_ascii}
use pod_os_go_client.Wire.Encoder.{total_length, encode_frame, frame_bytes}
use pod_os_go_client.Text.{after, before, contains_byte, force_ascii, trim_space}
use pod_os_go_client.Wire.Decoder.{
  command_of, decode_header, decode_message, find_intent, parse_payload, strip_routing,
}
use pod_os_go_client.Wire.Encoder.Layout.{IsPlain, total_length-IsPlain}
use pod_os_go_client.Wire.Decoder.Parts.{data_of}
use pod_os_go_client.Strconv.{format_08x, format_09d}
use pod_os_go_client.Intents.{get_event}
use pod_os_go_client.Connection.EndToEnd.{receive-send-encode_frame}
use pod_os_go_client.Connection.Send.{send_loop, send_round, Write, send, unfinished}
use pod_os_go_client.Connection.Receive.Verdicts.{Accounts, receive-Accounts}
use pod_os_go_client.Connection.Receive.Reassembly.{receive-frame, AllQuiet, IsFrame}
use pod_os_go_client.Connection.Send.Delivery.{Sends, send-Sends}
use pod_os_go_client.Wire.{Frame}
use pod_os_go_client.Connection.Socket.{Socket, pending}
use pod_os_go_client.Connection.Receive.{
  Tick, complete, is_valid_length_prefix, parse_prefix, receive,
}
use pod_os_go_client.Connection.Receive.WholeFrame.{receive-IsWhole}
use pod_os_go_client.Connection.Send.Ends.{send-returns}

-- a quiet schedule of `n` rounds
abbrev quiet_tick : Tick
quiet_tick = record {
  expired = false;
  stalled = false;
  expired_after = false;
  stalled_after = false;
}

quiet_ticks : ℕ → List Tick
quiet_ticks zero = []
quiet_ticks (suc n) = quiet_tick ∷ quiet_ticks n

quiet_ticks-AllQuiet : (n : ℕ) → AllQuiet (quiet_ticks n)
unfolding quiet_ticks
quiet_ticks-AllQuiet zero = tt
quiet_ticks-AllQuiet (suc n) = (refl, refl, quiet_ticks-AllQuiet n)

length-quiet_ticks : (n : ℕ) → length (quiet_ticks n) ≡ n
unfolding quiet_ticks
length-quiet_ticks zero = refl
length-quiet_ticks (suc n) = ap suc (length-quiet_ticks n)

-- a frame of twelve bytes that arrives in two pieces, with bytes of the next one
abbrev small_frame : Bytes
small_frame = codes "x0000000cabc"

abbrev pieces : Socket
pieces =
    record { chunk = codes "x0000"; error = none }
    ∷ record { chunk = codes "000cabcx0"; error = none }
    ∷ []

small_frame-IsFrame : IsFrame small_frame
unfolding is_valid_length_prefix parse_prefix
small_frame-IsFrame = record { valid = refl; states_length = refl; holds_prefix = omega arith }

receive-frame_example :
    ((receive true (quiet_ticks 12) pieces).verdict ≡ complete)
    × ((receive true (quiet_ticks 12) pieces).buffer ≡ small_frame)
    × ((receive true (quiet_ticks 12) pieces).connected ≡ true)
    × (pending (receive true (quiet_ticks 12) pieces).socket ≡ codes "x0")
receive-frame_example =
    receive-frame (quiet_ticks 12) pieces small_frame (codes "x0") (quiet_ticks-AllQuiet 12)
      (refl, omega arith, (refl, omega arith, tt)) refl small_frame-IsFrame
      (omega (arith, length-quiet_ticks 12))

receive-Accounts_example : Accounts (pending pieces) (receive true (quiet_ticks 12) pieces)
receive-Accounts_example = receive-Accounts true (quiet_ticks 12) pieces

receive-IsWhole_example :
    (parse_prefix (take 9 (receive true (quiet_ticks 12) pieces).buffer)
      ≡ some (pos (length (receive true (quiet_ticks 12) pieces).buffer)))
    × (9 ≤ length (receive true (quiet_ticks 12) pieces).buffer)
receive-IsWhole_example = receive-IsWhole true (quiet_ticks 12) pieces (receive-frame_example.0)

-- The socket takes four bytes, then nothing twice, then the rest.
abbrev writes : List Write
writes =
    record { accepts = 4; fails = false }
    ∷ record { accepts = 0; fails = false }
    ∷ record { accepts = 0; fails = false }
    ∷ record { accepts = 500; fails = false }
    ∷ []

send-Sends_example :
    Sends
      (codes "hello")
      (send true writes (codes "hello"))
      (send true writes (codes "hello")).verdict
send-Sends_example = send-Sends true writes (codes "hello")

send-returns_example : (send true writes (codes "h")).verdict ≢ unfinished
send-returns_example = send-returns true writes (codes "h") (omega arith)

-- a request of the Neural Memory, written in one piece
abbrev small_store : Frame
small_store = record {
  to = codes "m@g";
  from = codes "u@g";
  header = codes "_db_cmd=get";
  message_type = 1000;
  data_type = 0;
  payload = [];
}

small_store-IsPlain : IsPlain small_store
small_store-IsPlain = record {
  to_ascii = every-Every is_ascii small_store.to refl;
  from_ascii = every-Every is_ascii small_store.from refl;
  header_ascii = every-Every is_ascii small_store.header refl;
  type_fits = omega arith;
  data_type_fits = omega arith;
}

small_store_total : total_length small_store ≡ 80
small_store_total = total_length-IsPlain small_store small_store-IsPlain ∙ omega arith

-- The same bytes, computed.
abbrev small_store_bytes : Bytes
small_store_bytes =
    codes "x00000050x00000003x00000003x0000000b000001000000000000x00000000m@gu@g_db_cmd=get"

small_store_encoded : encode_frame small_store ≡ ok small_store_bytes
unfolding encode_frame contains_byte before after format_08x format_09d force_ascii frame_bytes
small_store_encoded = refl

abbrev one_write : List Write
one_write = record { accepts = 500; fails = false } ∷ []

abbrev one_piece : Socket
one_piece = record { chunk = small_store_bytes; error = none } ∷ []

receive-send-encode_frame_example :
    ((receive true (quiet_ticks 80) one_piece).verdict ≡ complete)
    × (decode_message (receive true (quiet_ticks 80) one_piece).buffer
        ≡ ok (record {
          to = small_store.to;
          from = strip_routing small_store.from;
          headers = decode_header small_store.header;
          intent = get_event;
          data_type = pos 0;
          payload = data_of (decode_header small_store.header) [];
        }))
    × (pending (receive true (quiet_ticks 80) one_piece).socket ≡ [])
unfolding send send_loop send_round find_intent command_of decode_header contains_byte trim_space
    before after
receive-send-encode_frame_example =
    receive-send-encode_frame small_store small_store_bytes [] get_event one_write (quiet_ticks 80)
      one_piece small_store-IsPlain small_store_encoded
      (λ e. absurd (omega (arith, small_store_total))) refl (unfold parse_payload in refl) refl refl
      (refl, omega arith, tt) (quiet_ticks-AllQuiet 80)
      (omega (arith, small_store_total, length-quiet_ticks 80))
