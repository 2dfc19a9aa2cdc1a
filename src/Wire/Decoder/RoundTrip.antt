-- ===== src/Wire/Decoder/RoundTrip.antt =====
-- `DecodeMessage` reads back what `EncodeMessage` lays out.
use pod_os_go_client.Prelude.{
  ◌≤◌, ◌≡◌, refl, sym, ◌∙◌, ◌≢◌, some, [], ◌++◌, append-nil, arith, le→leb, Bytes, length,
}
use pod_os_go_client.Prelude.Int.{pos}
use pod_os_go_client.Prelude.Result.{ok, err}
use pod_os_go_client.Wire.Decoder.{
  DecodeError, unnamed, invalid_size_param, fails, command_of, find_intent, IntentType,
  decode_message, decode_header, strip_routing, parse_payload, check_total, decode_lengths,
}
use pod_os_go_client.Wire.Decoder.Parts.{
  fields_of, fields_of-AllNine, frame_bytes-joined, data_of, length-fields_of,
}
use pod_os_go_client.Wire.Decoder.OfFrame.{decode_message-frame}
use pod_os_go_client.Wire.Encoder.Layout.{encode_frame-eq-ok, IsPlain, total_length-IsPlain}
use pod_os_go_client.Wire.Encoder.{encode_frame, total_length, frame_bytes}
use pod_os_go_client.Wire.Decoder.Fields.{slice_a, Fields, AllNine, joined}
use pod_os_go_client.Wire.{Frame, max_message_size}
use pod_os_go_client.Wire.SizeParam.{decode_message_size_param}
use pod_os_go_client.Wire.SizeParam.Laws.{decode_hex}

-- The first check that fails decides.
decode_lengths-refused :
    (s : Fields) (n : AllNine s) (e : DecodeError)
    → length (joined s) ≤ max_message_size
    → 63 ≤ length (joined s)
    → check_total (decode_message_size_param s.a) ≡ err e
    → decode_lengths (joined s) ≡ err e
unfolding decode_lengths
decode_lengths-refused s n e small big ea =
    rw (le→leb _ _ small) (rw (le→leb _ _ big) (rw (slice_a s n, ea)))

-- What `EncodeMessage` returns for plain addresses and a plain header is decoded to the same To
-- address, the From address up to its first `|`, the map of the same header, the intent of the
-- message type, the data type and the payload, whatever bytes follow the frame. The frame has to be
-- shorter than 2^31 bytes, the frame with what follows it at most that long, and the parser of the
-- payload must not panic, as it does on a batch of events with the MIME type application/octet-stream.
pub decode_message-encode_frame :
    (f : Frame) (tail b : Bytes) (t : IntentType)
    → IsPlain f
    → encode_frame f ≡ ok b
    → total_length f ≢ max_message_size
    → length (b ++ tail) ≤ max_message_size
    → find_intent (some (pos f.message_type)) (command_of (decode_header f.header)) ≡ ok t
    → parse_payload t (data_of (decode_header f.header) f.payload) ≡ ok tt
    → decode_message (b ++ tail)
      ≡ ok (record {
        to = f.to;
        from = strip_routing f.from;
        headers = decode_header f.header;
        intent = t;
        data_type = pos f.data_type;
        payload = data_of (decode_header f.header) f.payload;
      })
decode_message-encode_frame f tail b t p e small h found parses =
    let (is_frame, bound) = encode_frame-eq-ok f e in
    rw is_frame
      (rw (decode_message-frame f tail p (omega arith) t (rw is_frame at h) found) (rw parses refl))

-- A frame of exactly 2^31 bytes is encoded, and refused when it is decoded: the parser of the length
-- field stops at 2^31 - 1.
pub decode_message-max_frame :
    (f : Frame) (b : Bytes)
    → IsPlain f
    → encode_frame f ≡ ok b
    → total_length f ≡ max_message_size
    → decode_message b ≡ fails invalid_size_param unnamed
unfolding decode_message check_total
decode_message-max_frame f b p e full =
    let (is_frame, bound) = encode_frame-eq-ok f e in
    let as_fields = is_frame ∙ sym (append-nil (frame_bytes f)) ∙ frame_bytes-joined f [] p bound in
    let t = total_length-IsPlain f p in
    let len = length-fields_of f [] in
    rw as_fields (
      rw
        (decode_lengths-refused (fields_of f []) (fields_of-AllNine f [])
          (record { code = invalid_size_param; field = unnamed }) (omega (arith, len))
          (omega (arith, len)) (rw full (rw (decode_hex max_message_size (omega arith)))))
        refl)
