-- ===== src/Intents.antt =====
-- The intents of message/intents.go: the table `newIntentTypes`, the maps from commands, and the
-- functions that find an intent by message type and command.
pub mod Lookup
use pod_os_go_client.Prelude.{
  ℕ, Option, none, some, List, [], ◌∷◌, ◌==◌, if◌then◌else◌, Bytes, codes, str_eq,
}

-- The fields of `intentTypes`.
pub data IntentType : Type 0 where
  store_event store_data store_batch_events store_batch_tags get_event : IntentType
  get_events_for_tags link_event unlink_event store_batch_links store_event_response : IntentType
  store_data_response store_batch_events_response store_batch_tags_response : IntentType
  get_event_response get_events_for_tags_response link_event_response : IntentType
  unlink_event_response store_batch_links_response actor_echo actor_halt actor_start : IntentType
  status status_request actor_request actor_response gateway_id gateway_disconnect : IntentType
  gateway_send_next gateway_no_send gateway_stream_off gateway_stream_on : IntentType
  gateway_status actor_record gateway_batch_start gateway_batch_end : IntentType
  queue_next_request queue_all_request queue_count_request queue_empty keepalive : IntentType
  actor_report report_request information_report auth_add_user auth_update_user : IntentType
  auth_user_list auth_disable_user actor_user route_any_message : IntentType
  route_user_only_message : IntentType

pub record Intent : Type 0 where
  pub name : Bytes
  pub routing_message_type : Bytes
  pub neural_memory_command : Bytes
  pub message_type : ℕ

abbrev plain : Bytes → Bytes → ℕ → Intent
plain n r t = record {
  name = n;
  routing_message_type = r;
  neural_memory_command = [];
  message_type = t;
}

abbrev request : Bytes → Bytes → Intent
request n c = record {
  name = n;
  routing_message_type = codes "MEM_REQ";
  neural_memory_command = c;
  message_type = 1000;
}

abbrev reply : Bytes → Bytes → Intent
reply n c = record {
  name = n;
  routing_message_type = codes "MEM_REPLY";
  neural_memory_command = c;
  message_type = 1001;
}

-- `newIntentTypes`
unfoldable pub intent : IntentType → Intent
intent store_event = request (codes "StoreEvent") (codes "store")
intent store_data = request (codes "StoreData") (codes "store_data")
intent store_batch_events = request (codes "StoreBatchEvents") (codes "store_batch")
intent store_batch_tags = request (codes "StoreBatchTags") (codes "tag_store_batch")
intent get_event = request (codes "GetEvent") (codes "get")
intent get_events_for_tags = request (codes "GetEventsForTags") (codes "events_for_tag")
intent link_event = request (codes "LinkEvent") (codes "link")
intent unlink_event = request (codes "UnlinkEvent") (codes "unlink")
intent store_batch_links = request (codes "StoreBatchLinks") (codes "link_batch")
intent store_event_response = reply (codes "StoreEventResponse") (codes "store")
intent store_data_response = reply (codes "StoreDataResponse") (codes "store_data")
intent store_batch_events_response = reply (codes "StoreBatchEventsResponse") (codes "store_batch")
intent store_batch_tags_response = reply (codes "StoreBatchTagsResponse") (codes "tag_store_batch")
intent get_event_response = reply (codes "GetEventResponse") (codes "get")
intent get_events_for_tags_response =
    reply (codes "GetEventsForTagsResponse") (codes "events_for_tags")
intent link_event_response = reply (codes "LinkEventResponse") (codes "link")
intent unlink_event_response = reply (codes "UnlinkEventResponse") (codes "unlink")
intent store_batch_links_response = reply (codes "StoreBatchLinksResponse") (codes "link_batch")
intent actor_echo = plain (codes "ActorEcho") (codes "ECHO") 2
intent actor_halt = plain (codes "ActorHalt") (codes "HALT") 99
intent actor_start = plain (codes "ActorStart") (codes "START") 1
intent status = plain (codes "Status") (codes "STATUS") 3
intent status_request = plain (codes "StatusRequest") (codes "STATUS_REQ") 110
intent actor_request = plain (codes "ActorRequest") (codes "REQUEST") 4
intent actor_response = plain (codes "ActorResponse") (codes "REPLY") 30
intent gateway_id = plain (codes "GatewayId") (codes "ID") 5
intent gateway_disconnect = plain (codes "GatewayDisconnect") (codes "DISCONNECT") 6
intent gateway_send_next = plain (codes "GatewaySendNext") (codes "NEXT") 7
intent gateway_no_send = plain (codes "GatewayNoSend") (codes "NO_SEND") 8
intent gateway_stream_off = plain (codes "GatewayStreamOff") (codes "STREAM_OFF") 9
intent gateway_stream_on = plain (codes "GatewayStreamOn") (codes "STREAM_ON") 10
intent gateway_status = plain (codes "GatewayStatus") (codes "STATUS") 3
intent actor_record = plain (codes "ActorRecord") (codes "RECORD") 11
intent gateway_batch_start = plain (codes "GatewayBatchStart") (codes "BATCH_START") 12
intent gateway_batch_end = plain (codes "GatewayBatchEnd") (codes "BATCH_END") 13
intent queue_next_request = plain (codes "QueueNextRequest") (codes "QUEUE_NEXT") 14
intent queue_all_request = plain (codes "QueueAllRequest") (codes "QUEUE_ALL") 15
intent queue_count_request = plain (codes "QueueCountRequest") (codes "QUEUE_COUNT") 16
intent queue_empty = plain (codes "QueueEmpty") (codes "QUEUE_EMPTY") 17
intent keepalive = plain (codes "Keepalive") (codes "KEEPALIVE") 18
intent actor_report = plain (codes "ActorReport") (codes "REPORT") 19
intent report_request = plain (codes "ReportRequest") (codes "REPORT_REQUEST") 20
intent information_report = plain (codes "InformationReport") (codes "INFO_REPORT") 21
intent auth_add_user = plain (codes "AuthAddUser") (codes "AUTH_ADD_USER") 100
intent auth_update_user = plain (codes "AuthUpdateUser") (codes "AUTH_UPDATE_USER") 101
intent auth_user_list = plain (codes "AuthUserList") (codes "AUTH_USER_LIST") 102
intent auth_disable_user = plain (codes "AuthDisableUser") (codes "AUTH_DISABLE_USER") 103
intent actor_user = plain (codes "ActorUser") (codes "USER") 65536
intent route_any_message = plain (codes "RouteAnyMessage") (codes "ANY") 0
intent route_user_only_message = plain (codes "RouteUserOnlyMessage") (codes "USERONLY") 0

-- `commandToIntent`
unfoldable pub command_to_intent : List (Bytes × IntentType)
command_to_intent =
    (codes "store", store_event)
    ∷ (codes "store_data", store_data)
    ∷ (codes "store_batch", store_batch_events)
    ∷ (codes "tag_store_batch", store_batch_tags)
    ∷ (codes "get", get_event)
    ∷ (codes "events_for_tag", get_events_for_tags)
    ∷ (codes "link", link_event)
    ∷ (codes "unlink", unlink_event)
    ∷ (codes "link_batch", store_batch_links)
    ∷ []

-- `commandToResponseIntent`
unfoldable pub command_to_response_intent : List (Bytes × IntentType)
command_to_response_intent =
    (codes "store", store_event_response)
    ∷ (codes "store_data", store_data_response)
    ∷ (codes "store_batch", store_batch_events_response)
    ∷ (codes "tag_store_batch", store_batch_tags_response)
    ∷ (codes "get", get_event_response)
    ∷ (codes "events_for_tag", get_events_for_tags_response)
    ∷ (codes "events_for_tags", get_events_for_tags_response)
    ∷ (codes "link", link_event_response)
    ∷ (codes "unlink", unlink_event_response)
    ∷ (codes "link_batch", store_batch_links_response)
    ∷ []

lookup : Bytes → List (Bytes × IntentType) → Option IntentType
lookup k [] = none
lookup k ((j, t) ∷ m) = if str_eq j k then some t else lookup k m

unfoldable pub intent_from_command : Bytes → Option IntentType
unfolding lookup command_to_intent
intent_from_command c = lookup c command_to_intent

unfoldable pub intent_from_response_command : Bytes → Option IntentType
unfolding lookup command_to_response_intent
intent_from_response_command c = lookup c command_to_response_intent

-- The slice in `intentFromMessageTypeInt`, in its order.
unfoldable pub all_intents : List IntentType
all_intents =
    store_event ∷ store_data ∷ store_batch_events ∷ store_batch_tags ∷ get_event
    ∷ get_events_for_tags ∷ link_event ∷ unlink_event ∷ store_batch_links ∷ store_event_response
    ∷ store_data_response ∷ store_batch_events_response ∷ store_batch_tags_response
    ∷ get_event_response ∷ get_events_for_tags_response ∷ link_event_response
    ∷ unlink_event_response ∷ store_batch_links_response ∷ actor_echo ∷ actor_halt ∷ actor_start
    ∷ gateway_status ∷ status ∷ status_request ∷ actor_request ∷ gateway_id ∷ gateway_disconnect
    ∷ gateway_send_next ∷ gateway_no_send ∷ gateway_stream_off ∷ gateway_stream_on ∷ actor_record
    ∷ gateway_batch_start ∷ gateway_batch_end ∷ queue_next_request ∷ queue_all_request
    ∷ queue_count_request ∷ queue_empty ∷ keepalive ∷ actor_report ∷ report_request
    ∷ information_report ∷ auth_add_user ∷ auth_update_user ∷ auth_user_list ∷ auth_disable_user
    ∷ actor_user ∷ []

first_of_type : ℕ → List IntentType → Option IntentType
unfolding intent
first_of_type n [] = none
first_of_type n (t ∷ ts) = if (intent t).message_type == n then some t else first_of_type n ts

-- `intentFromMessageTypeInt`, for a message type that is not negative
unfoldable pub intent_from_message_type_int : ℕ → Option IntentType
unfolding first_of_type all_intents
intent_from_message_type_int n = first_of_type n all_intents

abbrev or_else : Option IntentType → Option IntentType → Option IntentType
or_else none d = d
or_else (some t) d = some t

unfoldable pub intent_from_message_type_and_command : ℕ → Bytes → Option IntentType
unfolding intent_from_command intent_from_response_command intent_from_message_type_int
intent_from_message_type_and_command n command =
    if n == 1000
    then intent_from_command command
    else if n == 1001
    then intent_from_response_command command
    else if n == 11
    then or_else (intent_from_response_command command) (intent_from_message_type_int n)
    else intent_from_message_type_int n
