-- ===== src/Message/Encode.antt =====
-- `EncodeMessage` of message/encoder.go as a whole: the guard on the payload's size, the fields of a
-- link, the header, the payload bytes, and the frame of Wire/Encoder.antt.
pub mod Safe
pub mod Panics
pub mod RoundTrip
pub mod Batches
use pod_os_go_client.Prelude.{
  ℕ, ◌*◌, Option, none, some, List, [], leb, if◌then◌else◌, Bytes, codes, length, str_eq,
}
use pod_os_go_client.Prelude.Result.{Result, ok, err, panic, ◌>>=◌, ◌>>◌, guard}
use pod_os_go_client.Wire.{Frame, max_message_size}
use pod_os_go_client.Wire.Encoder.{
  EncodeError, payload_too_large, nil_message, invalid_data, encode_frame, check_to, check_from,
}
use pod_os_go_client.Message.{
  Message, Externals, Data, nil, string, byte_slice, string_slice, batch_event_specs,
  batch_link_event_specs, tag_list, tag_slice, payload_data, link_of, tags_of, Tag,
}
use pod_os_go_client.Message.Format.{
  join, format_batch_events_payload, format_batch_link_events_payload, format_batch_tags_payload,
  require_link_wire_fields,
}
use pod_os_go_client.Message.Header.{HeaderText, header_string}
use pod_os_go_client.Message.Construct.{construct_header}

-- The types whose size is looked at; a batch of events counts 500 bytes for each.
unfoldable pub check_payload_size : Data → Result EncodeError (Unit {0})
check_payload_size (string s) = guard (leb (length s) max_message_size) payload_too_large
check_payload_size (byte_slice s) = guard (leb (length s) max_message_size) payload_too_large
check_payload_size (batch_event_specs es) =
    guard (leb (length es * 500) max_message_size) payload_too_large
check_payload_size _ = ok tt

unfoldable pub check_link : Message → Result EncodeError (Unit {0})
unfolding link_of
check_link m =
    if str_eq m.intent.name (codes "LinkEvent")
    then elim (link_of m) [ none ↦ err invalid_data | some l ↦ require_link_wire_fields l ]
    else ok tt

-- The payload of an intent `StoreBatchEvents`: a type that is not listed gives no bytes.
batch_events_bytes : Externals → Data → Bytes
unfolding format_batch_events_payload join
batch_events_bytes x (batch_event_specs es) = format_batch_events_payload x es
batch_events_bytes x (string s) = s
batch_events_bytes x (string_slice ss) = join [] ss
batch_events_bytes x _ = []

-- The same for `StoreBatchLinks`.
unfoldable pub batch_links_bytes : Externals → Data → Result EncodeError Bytes
unfolding format_batch_link_events_payload
batch_links_bytes x (batch_link_event_specs ls) = format_batch_link_events_payload x ls
batch_links_bytes x (string s) = ok s
batch_links_bytes x _ = ok []

-- The same for `StoreBatchTags`, which without a payload takes the tags of the message.
batch_tags_bytes : Externals → List Tag → Data → Bytes
unfolding format_batch_tags_payload
batch_tags_bytes x tags nil = format_batch_tags_payload x tags
batch_tags_bytes x tags (tag_list ts) = format_batch_tags_payload x ts
batch_tags_bytes x tags (tag_slice ts) = format_batch_tags_payload x ts
batch_tags_bytes x tags (string s) = s
batch_tags_bytes x tags _ = []

-- Every other intent, by the kind of the value: the assertions `payloadData.([]string)` and
-- `payloadData.(string)` of the other kinds do not hold.
unfoldable pub plain_bytes : Data → Result EncodeError Bytes
unfolding join
plain_bytes nil = ok []
plain_bytes (string s) = ok s
plain_bytes (string_slice ss) = ok (join [] ss)
plain_bytes _ = panic

unfoldable pub payload_bytes : Externals → Message → Result EncodeError Bytes
unfolding batch_events_bytes batch_links_bytes batch_tags_bytes plain_bytes payload_data tags_of
payload_bytes x m =
    let n = m.intent.name in
    if str_eq n (codes "GatewayId")
    then ok []
    else if str_eq n (codes "GatewayStreamOn")
    then ok []
    else if str_eq n (codes "StoreBatchEvents")
    then ok (batch_events_bytes x (payload_data m))
    else if str_eq n (codes "StoreBatchLinks")
    then batch_links_bytes x (payload_data m)
    else if str_eq n (codes "StoreBatchTags")
    then ok (batch_tags_bytes x (tags_of m) (payload_data m))
    else plain_bytes (payload_data m)

abbrev pub payload_data_type : Message → ℕ
payload_data_type m = elim m.payload [ none ↦ 0 | some p ↦ p.data_type ]

abbrev pub frame_of : Message → HeaderText → Bytes → Frame
frame_of m h payload = record {
  to = m.to;
  from = m.from;
  header = header_string h;
  message_type = m.intent.message_type;
  data_type = payload_data_type m;
  payload = payload;
}

-- `EncodeMessage`; `none` is a nil message. The addresses are looked at before the payload is
-- formatted, and once more, with the same outcome, in `encode_frame`.
unfoldable pub encode_present : Externals → Message → Result EncodeError Bytes
unfolding check_payload_size check_link header_string check_to check_from payload_data
encode_present x m = do
  check_payload_size (payload_data m)
  check_link m
  h ← construct_header x m
  check_to m.to
  check_from m.from
  payload ← payload_bytes x m
  encode_frame (frame_of m h payload)

unfoldable pub encode_message : Externals → Option Message → Result EncodeError Bytes
unfolding encode_present
encode_message x none = err nil_message
encode_message x (some m) = encode_present x m
