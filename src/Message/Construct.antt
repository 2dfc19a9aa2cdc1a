-- ===== src/Message/Construct.antt =====
-- `ConstructHeader` of message/header.go: the header of a message by the name of its intent.
pub mod Command
pub mod Intents
pub mod Id
use pod_os_go_client.Prelude.{◌||◌, none, [], if◌then◌else◌, Bytes, codes, str_eq}
use pod_os_go_client.Prelude.Result.{Result, ok}
use pod_os_go_client.Wire.Encoder.{EncodeError}
use pod_os_go_client.Message.{Message, Externals}
use pod_os_go_client.Message.Header.{HeaderText}
use pod_os_go_client.Message.Header.Gateway.{
  gateway_identify_connection_header, id_only_header, actor_request_header, status_header,
  actor_echo_header,
}
use pod_os_go_client.Message.Header.Store.{
  store_event_message_header, store_data_message_header, store_batch_events_message_header,
  store_batch_tags_message_header,
}
use pod_os_go_client.Message.Header.Get.{
  get_event_message_header, get_events_for_tag_message_header,
}
use pod_os_go_client.Message.Header.Link.{
  link_events_message_header, batch_link_events_message_header, unlink_events_message_header,
}

-- `return ""`
abbrev empty_header : HeaderText
empty_header = record { slots = []; last_id = none }

-- The switch, on the name.
unfoldable pub construct_by_name : Externals → Message → Bytes → Result EncodeError HeaderText
construct_by_name x m n =
    if str_eq n (codes "GatewayId")
    then ok (gateway_identify_connection_header m)
    else if str_eq n (codes "GatewayStreamOn")
    then ok (id_only_header m)
    else if str_eq n (codes "GatewayDisconnect")
    then ok (id_only_header m)
    else if str_eq n (codes "ActorEcho")
    then ok (actor_echo_header m)
    else if str_eq n (codes "StoreEvent")
    then store_event_message_header x m
    else if str_eq n (codes "StoreData")
    then store_data_message_header x m
    else if str_eq n (codes "LinkEvent")
    then link_events_message_header x m
    else if str_eq n (codes "UnlinkEvent")
    then unlink_events_message_header m
    else if str_eq n (codes "GetEvent")
    then ok (get_event_message_header m)
    else if str_eq n (codes "GetEventsForTags")
    then ok (get_events_for_tag_message_header m)
    else if str_eq n (codes "StoreBatchEvents")
    then ok (store_batch_events_message_header m)
    else if str_eq n (codes "StoreBatchTags") || str_eq n (codes "BatchStoreTags")
    then store_batch_tags_message_header m
    else if str_eq n (codes "StoreBatchLinks")
    then ok (batch_link_events_message_header m)
    else if str_eq n (codes "ActorStreamOff")
    then ok (id_only_header m)
    else if str_eq n (codes "ActorRequest")
    then ok (actor_request_header m)
    else if str_eq n (codes "StatusRequest")
    then ok (id_only_header m)
    else if str_eq n (codes "Status")
    then ok (status_header m)
    else ok empty_header

unfoldable pub construct_header : Externals → Message → Result EncodeError HeaderText
unfolding construct_by_name
construct_header x m = construct_by_name x m m.intent.name
