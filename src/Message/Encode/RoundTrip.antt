-- ===== src/Message/Encode/RoundTrip.antt =====
-- `DecodeMessage` reads a Neural Memory request back from what `EncodeMessage` returns.
use pod_os_go_client.Wire.Decoder.RoundTrip.{decode_message-encode_frame}
use pod_os_go_client.Prelude.{◌≤◌, ◌≡◌, ◌≢◌, some, ◌++◌, Bytes, length}
use pod_os_go_client.Prelude.Int.{pos}
use pod_os_go_client.Prelude.Result.{ok, >>=-eq-ok}
use pod_os_go_client.Wire.Decoder.{decode_header, decode_message, strip_routing}
use pod_os_go_client.Message.Encode.{
  encode_present, check_link, check_payload_size, encode_message, frame_of, payload_bytes,
  payload_data_type,
}
use pod_os_go_client.Message.{Message, Externals, payload_data}
use pod_os_go_client.Message.Header.Decode.{AllCarried, LastCarried}
use pod_os_go_client.Message.Header.{HeaderText, header_string}
use pod_os_go_client.Intents.{IntentType, intent}
use pod_os_go_client.Message.Construct.Command.{IsMemoryRequest}
use pod_os_go_client.Wire.Encoder.Layout.{IsPlain}
use pod_os_go_client.Wire.Encoder.{check_from, check_to, encode_frame, total_length}
use pod_os_go_client.Message.Construct.{construct_header}
use pod_os_go_client.Wire.Decoder.Parts.{data_of}
use pod_os_go_client.Message.Construct.Intents.{find_intent-construct_header, parse_payload-request}
use pod_os_go_client.Wire.{max_message_size}

-- A message that is encoded has passed every step before the frame.
encode_message-frame :
    (x : Externals) (m : Message) (h : HeaderText) (payload b : Bytes)
    → construct_header x m ≡ ok h
    → payload_bytes x m ≡ ok payload
    → encode_message x (some m) ≡ ok b
    → encode_frame (frame_of m h payload) ≡ ok b
unfolding encode_message encode_present
encode_message-frame x m h payload b eh ep e =
    let (u, size, e1) = >>=-eq-ok (check_payload_size (payload_data m)) _ e in
    let (v, link, e2) = >>=-eq-ok (check_link m) _ e1 in
    let (w, good_to, e3) = >>=-eq-ok (check_to m.to) _ (rw eh at e2) in
    let (z, good_from, e4) = >>=-eq-ok (check_from m.from) _ e3 in rw ep at e4

-- A Neural Memory request that is encoded, with `h` for the header and `payload` for the payload bytes,
-- is decoded to its To address, its From address up to the first `|`, the map of the header, its
-- intent, its data type and the payload, whatever bytes follow the frame. The addresses and the header
-- are ASCII, no value written into the header has a tab in it or white space at its ends, the frame is
-- shorter than 2^31 bytes, and with the bytes that follow it is at most that long.
pub decode_message-encode_message :
    (x : Externals) (m : Message) (t : IntentType) (h : HeaderText) (payload tail b : Bytes)
    → IsMemoryRequest t
    → m.intent ≡ intent t
    → construct_header x m ≡ ok h
    → payload_bytes x m ≡ ok payload
    → AllCarried h.slots
    → LastCarried h.last_id
    → IsPlain (frame_of m h payload)
    → encode_message x (some m) ≡ ok b
    → total_length (frame_of m h payload) ≢ max_message_size
    → length (b ++ tail) ≤ max_message_size
    → decode_message (b ++ tail)
      ≡ ok (record {
        to = m.to;
        from = strip_routing m.from;
        headers = decode_header (header_string h);
        intent = t;
        data_type = pos (payload_data_type m);
        payload = data_of (decode_header (header_string h)) payload;
      })
decode_message-encode_message x m t h payload tail b r i eh ep hv hl p e small bound =
    decode_message-encode_frame (frame_of m h payload) tail b t p
      (encode_message-frame x m h payload b eh ep e) small bound
      (find_intent-construct_header x m t h r i eh hv hl)
      (parse_payload-request x m t h payload r i eh hv hl)
