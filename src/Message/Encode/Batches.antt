-- ===== src/Message/Encode/Batches.antt =====
-- What `EncodeMessage` reads of the batches in the Neural Memory fields of a message: nothing.
use pod_os_go_client.Prelude.{◌≡◌, refl, Option, none, some, List}
use mathlib.Core.Option
use pod_os_go_client.Message.{
  BatchEventSpec, BatchLinkEventSpec, Externals, Message, NeuralMemoryFields, get_event_opts,
  get_events_for_tags_opts, link_of, tags_of, payload_data, payload_mime_type,
}
use pod_os_go_client.Message.Header.Get.{
  get_event_message_header, get_events_for_tag_message_header,
}
use pod_os_go_client.Message.Header.Link.{
  batch_link_events_message_header, link_events_message_header, unlink_events_message_header,
}
use pod_os_go_client.Message.Header.Store.{
  store_batch_events_message_header, store_batch_tags_message_header, store_data_message_header,
  store_event_message_header,
}
use pod_os_go_client.Message.Header.Gateway.{
  gateway_identify_connection_header, id_only_header, actor_request_header, status_header,
  actor_echo_header,
}
use pod_os_go_client.Message.Construct.{construct_header}
use pod_os_go_client.Message.Encode.{check_link, encode_message, encode_present, payload_bytes}

-- The Neural Memory fields with other batches.
abbrev pub with_batches :
    List BatchEventSpec → List BatchLinkEventSpec → NeuralMemoryFields → NeuralMemoryFields
with_batches es ls n = record n { batch_events = es; batch_links = ls }

encode_message-at :
    (x : Externals) (m : Message) (es : List BatchEventSpec) (ls : List BatchLinkEventSpec)
    (o : Option NeuralMemoryFields)
    → encode_message x (some (record m { neural_memory = Option.map (with_batches es ls) o }))
      ≡ encode_message x (some (record m { neural_memory = o }))
unfolding encode_message encode_present construct_header payload_bytes check_link get_event_opts
    get_events_for_tags_opts link_of tags_of payload_data payload_mime_type get_event_message_header
    get_events_for_tag_message_header batch_link_events_message_header link_events_message_header
    unlink_events_message_header store_batch_events_message_header store_batch_tags_message_header
    store_data_message_header store_event_message_header gateway_identify_connection_header
    id_only_header actor_request_header status_header actor_echo_header
encode_message-at x m es ls none = refl
encode_message-at x m es ls (some n) = refl

-- `EncodeMessage` makes the same of a message whatever batches of events and of links its Neural
-- Memory fields hold: it takes a batch from the payload alone.
pub encode_message-with_batches :
    (x : Externals) (m : Message) (es : List BatchEventSpec) (ls : List BatchLinkEventSpec)
    → encode_message x
        (some (record m { neural_memory = Option.map (with_batches es ls) m.neural_memory }))
      ≡ encode_message x (some m)
encode_message-with_batches x m es ls = encode_message-at x m es ls m.neural_memory
