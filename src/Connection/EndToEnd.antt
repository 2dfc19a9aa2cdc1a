-- ===== src/Connection/EndToEnd.antt =====
-- A message on its way: `EncodeMessage`, `Send`, the network, `Receive`, `DecodeMessage`.
use pod_os_go_client.Prelude.{
  ℕ, ◌^◌, ◌≤◌, ◌<◌, ◌≡◌, refl, sym, subst, ap, ◌∙◌, ◌≢◌, true, some, List, [], ◌∷◌, ◌++◌,
  append-nil, arith, ltb, ◌==◌, Bytes, length, take, length-append, take-append_len,
}
use pod_os_go_client.Prelude.Int.{pos}
use pod_os_go_client.Prelude.Result.{ok}
use pod_os_go_client.Wire.Encoder.{total_length, encode_frame, frame_bytes}
use pod_os_go_client.Connection.Receive.{
  all_hex, valid_digits, Tick, complete, is_hex_byte, is_valid_length_prefix, parse_prefix, receive,
}
use pod_os_go_client.Wire.Encoder.Layout.{
  length-hex_field, IsPlain, encode_frame-eq-ok, frame_bytes-IsPlain, hex_field,
  length-rest_of_frame, rest_of_frame, total_length-IsPlain,
}
use pod_os_go_client.Wire.Decoder.{
  command_of, decode_header, decode_message, find_intent, parse_payload, strip_routing,
}
use pod_os_go_client.Connection.Receive.Reassembly.{AllQuiet, IsClean, IsFrame, receive-frame}
use pod_os_go_client.Text.Laws.{Every}
use pod_os_go_client.Wire.{Frame, max_message_size}
use pod_os_go_client.Intents.{IntentType}
use pod_os_go_client.Connection.Send.{SendOutcome, Write, send, sent_all}
use pod_os_go_client.Connection.Send.Delivery.{Sends, send-Sends}
use pod_os_go_client.Connection.Socket.{Socket, pending}
use pod_os_go_client.Wire.Decoder.Parts.{data_of}
use pod_os_go_client.Wire.Decoder.RoundTrip.{decode_message-encode_frame}
use pod_os_go_client.Strconv.{digits_fixed}
use pod_os_go_client.Strconv.Laws.{digits_fixed-hex-Every, is_digit, parse_digits-hex}
use pod_os_go_client.Wire.SizeParam.Laws.{digits_fixed-ne-nil, parse_int-digits}

all_hex-digits : (s : Bytes) → Every is_digit s → all_hex s ≡ true
unfolding all_hex is_hex_byte
all_hex-digits [] d = refl
all_hex-digits (c ∷ s) d = rw (all_hex-digits s d.1) (ground arith)

valid-hex_field : (n : ℕ) → is_valid_length_prefix (hex_field n) ≡ true
unfolding is_valid_length_prefix valid_digits
valid-hex_field n =
    let nine : (length (hex_field n) == 9) ≡ true = rw (length-hex_field n) refl in
    rw nine (all_hex-digits (digits_fixed 16 8 n) (digits_fixed-hex-Every 8 n))

parse_prefix-hex_field : (n : ℕ) → n < max_message_size → parse_prefix (hex_field n) ≡ some (pos n)
unfolding parse_prefix
parse_prefix-hex_field n h =
    parse_int-digits 16 (2 ^ 31) n (digits_fixed 16 8 n) (digits_fixed-hex-Every 8 n)
      (digits_fixed-ne-nil 16 8 n (omega arith)) (parse_digits-hex 8 n (omega arith))
    ∙ (let small : ltb n (2 ^ 31) ≡ true = ground arith in rw small refl)

length-frame_bytes_plain :
    (f : Frame)
    → IsPlain f
    → total_length f ≤ max_message_size
    → length (frame_bytes f) ≡ total_length f
length-frame_bytes_plain f p h =
    ap length (frame_bytes-IsPlain f p h)
    ∙ omega (
      arith,
      total_length-IsPlain f p,
      length-hex_field (total_length f),
      length-append (hex_field (total_length f)) (rest_of_frame f),
      length-rest_of_frame f,
    )

-- The bytes of an encoded frame are a frame for `Receive`.
frame_bytes-IsFrame :
    (f : Frame) → IsPlain f → total_length f < max_message_size → IsFrame (frame_bytes f)
frame_bytes-IsFrame f p h =
    let b = frame_bytes-IsPlain f p (omega arith) in
    let t = total_length-IsPlain f p in
    let nine = length-hex_field (total_length f) in
    let front : take 9 (frame_bytes f) ≡ hex_field (total_length f) =
      ap (take 9) b ∙ take-append_len (hex_field (total_length f)) (rest_of_frame f) 9 (sym nine) in
    let len = length-frame_bytes_plain f p (omega arith) in
    record {
      valid = rw front (valid-hex_field (total_length f));
      states_length = rw front (rw len (parse_prefix-hex_field (total_length f) h));
      holds_prefix = omega (arith, len, t);
    }

Sends-all :
    (message : Bytes) (o : SendOutcome)
    → o.verdict ≡ sent_all
    → Sends message o o.verdict
    → o.wire ≡ message
Sends-all message o e h = let g : Sends message o sent_all = subst (Sends message o) e h in g.0

-- A plain message that one client encodes and sends successfully, and the other receives, arrives
-- as it was: the receiver's `Receive` succeeds, `DecodeMessage` of its buffer yields the To address,
-- the From address up to its first `|`, the header map, the intent, the data type and the payload,
-- and the bytes behind the message stay on the socket, however the network cuts them up. The frame is
-- shorter than 2^31 bytes, the parser of its payload does not panic (as it does on a batch of events with
-- the MIME type application/octet-stream), no read fails, no timer runs out, and the receiver has as many rounds as
-- the frame has bytes.
pub receive-send-encode_frame :
    (f : Frame) (b rest : Bytes) (t : IntentType) (ws : List Write) (ts : List Tick) (s : Socket)
    → IsPlain f
    → encode_frame f ≡ ok b
    → total_length f ≢ max_message_size
    → find_intent (some (pos f.message_type)) (command_of (decode_header f.header)) ≡ ok t
    → parse_payload t (data_of (decode_header f.header) f.payload) ≡ ok tt
    → (send true ws b).verdict ≡ sent_all
    → pending s ≡ (send true ws b).wire ++ rest
    → IsClean s
    → AllQuiet ts
    → total_length f ≤ length ts
    → ((receive true ts s).verdict ≡ complete)
      × (decode_message (receive true ts s).buffer
          ≡ ok (record {
            to = f.to;
            from = strip_routing f.from;
            headers = decode_header f.header;
            intent = t;
            data_type = pos f.data_type;
            payload = data_of (decode_header f.header) f.payload;
          }))
      × (pending (receive true ts s).socket ≡ rest)
receive-send-encode_frame f b rest t ws ts s p e small found parses sent arrives clean quiet
      rounds =
    let (is_frame, bound) = encode_frame-eq-ok f e in
    let wire = Sends-all b (send true ws b) sent (send-Sends true ws b) in
    let frame = frame_bytes-IsFrame f p (omega arith) in
    let len = length-frame_bytes_plain f p bound in
    let (done, buffer, _, left) =
      receive-frame ts s b rest quiet clean (arrives ∙ ap (λ w. w ++ rest) wire) (rw is_frame frame)
        (rw is_frame (omega (arith, len))) in
    let back =
      decode_message-encode_frame f [] b t p e small
        (rw (append-nil b) (rw is_frame (omega (arith, len)))) found parses in
    (done, ap decode_message (buffer ∙ sym (append-nil b)) ∙ back, left)
