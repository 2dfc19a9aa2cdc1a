-- ===== src/Payload/BinaryBatch.antt =====
-- `DecodeMessage` on a reply to StoreBatchEvents whose MIME type is application/octet-stream: the payload
-- is a `[]byte` then, and `parseStoreBatchEventsPayload` asserts that it is a string.
use pod_os_go_client.Prelude.{
  ℕ, ◌≤◌, ◌<◌, ◌≡◌, refl, ◌⊎◌, inl, inr, true, Option, ◌++◌, some, lt→ltb, Bytes, codes, length,
  str_eq,
}
use pod_os_go_client.Prelude.Int.{pos}
use pod_os_go_client.Prelude.Result.{ok, panic}
use pod_os_go_client.Intents.{IntentType, store_batch_events, store_batch_events_response}
use pod_os_go_client.Wire.{Frame, max_message_size}
use pod_os_go_client.Wire.Encoder.{frame_bytes, total_length}
use pod_os_go_client.Wire.Encoder.Layout.{IsPlain}
use pod_os_go_client.Wire.Decoder.{
  binary, command_of, decode_header, find_intent, mime_type_of, parse_payload,
}
use pod_os_go_client.Wire.Decoder.OfFrame.{decode_message-frame}
use pod_os_go_client.Payload.Reply.{decode_batch_reply}

parse_payload-binary :
    (t : IntentType) (b : Bytes)
    → (t ≡ store_batch_events) ⊎ (t ≡ store_batch_events_response)
    → parse_payload t (binary b) ≡ panic
unfolding parse_payload
parse_payload-binary t b (inl e) = rw e refl
parse_payload-binary t b (inr e) = rw e refl

-- `DecodeMessage` panics on an encoded message that it takes for StoreBatchEvents or the reply to it,
-- with a payload that is not empty and of the MIME type application/octet-stream, whatever bytes follow.
-- (The addresses and the header are plain, the frame is shorter than 2^31 bytes, and with what follows
-- it is at most that long.)
pub decode_batch_reply-binary :
    (parse_float : Bytes → Option ℕ) (f : Frame) (tail : Bytes) (t : IntentType)
    → IsPlain f
    → total_length f < max_message_size
    → length (frame_bytes f ++ tail) ≤ max_message_size
    → find_intent (some (pos f.message_type)) (command_of (decode_header f.header)) ≡ ok t
    → (t ≡ store_batch_events) ⊎ (t ≡ store_batch_events_response)
    → 0 < length f.payload
    → str_eq (mime_type_of (decode_header f.header)) (codes "application/octet-stream") ≡ true
    → decode_batch_reply parse_float (frame_bytes f ++ tail) ≡ panic
unfolding decode_batch_reply
decode_batch_reply-binary parse_float f tail t p small bounded found batch some_bytes mime =
    rw (decode_message-frame f tail p small t bounded found) (
      rw (lt→ltb 0 (length f.payload) some_bytes)
        (rw mime (rw (parse_payload-binary t f.payload batch) refl)))
