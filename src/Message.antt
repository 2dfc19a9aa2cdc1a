-- ===== src/Message.antt =====
-- The messages of message/types.go that a client sends: the envelope, the event, the payload, the
-- options of a Neural Memory request and the fields of a link. The fields that only a decoded
-- response has (tags and links of an event, records of a batch) are left out, and so are `DateTime`,
-- `Unlink` and `PublicKey`, which no encoder reads.
pub mod Format
pub mod Header
pub mod Construct
pub mod Encode
mod Tests
use pod_os_go_client.Prelude.{ℕ, Bool, Option, none, some, List, [], Bytes}
use pod_os_go_client.Prelude.Int.{ℤ}
use pod_os_go_client.Intents.{Intent}

-- `any` as the value of a tag. A float is its bits. `other` is every other value, as the text
-- that `json.Marshal`, or else `Sprintf`, gives it.
pub data TagValue : Type 0 where
  nil : TagValue
  string other : Bytes → TagValue
  int : ℤ → TagValue
  uint : ℕ → TagValue
  float32 float64 : ℕ → TagValue
  bool : Bool → TagValue
  byte_slice : Bytes → TagValue

pub record Tag : Type 0 where
  pub frequency : ℤ
  pub key : Bytes
  pub value : TagValue

pub record EventFields : Type 0 where
  pub unique_id : Bytes
  pub id : Bytes
  pub owner : Bytes
  pub owner_unique_id : Bytes
  pub timestamp : Bytes
  pub location : Bytes
  pub location_separator : Bytes
  pub event_type : Bytes
  pub status : Bytes
  pub hits : ℤ

-- A strength is a `float64`, given by its 64 bits.
pub record LinkFields : Type 0 where
  pub unique_id : Bytes
  pub id : Bytes
  pub owner : Bytes
  pub timestamp : Bytes
  pub location : Bytes
  pub location_separator : Bytes
  pub event_a : Bytes
  pub event_b : Bytes
  pub unique_id_a : Bytes
  pub unique_id_b : Bytes
  pub strength_a : ℕ
  pub strength_b : ℕ
  pub category : Bytes
  pub link_type : Bytes
  pub owner_unique_id : Bytes
  pub owner_id : Bytes
  pub status : Bytes
  pub message : Bytes

-- A string of Go: the three constants, and any other text.
pub data TagOwnerOutput : Type 0 where
  tag_owner_none tag_owner_event_key tag_owner_unique_id : TagOwnerOutput
  other_owner : Bytes → TagOwnerOutput

pub record GetEventOptions : Type 0 where
  pub send_data : Bool
  pub local_id_only : Bool
  pub tag_format : Option ℤ
  pub first_link : ℤ
  pub link_count : ℤ
  pub get_tags : Bool
  pub get_links : Bool
  pub get_link_tags : Bool
  pub get_target_tags : Bool
  pub event_facet_filter : Bytes
  pub link_facet_filter : Bytes
  pub target_facet_filter : Bytes
  pub category_filter : Bytes
  pub tag_filter : Bytes
  pub tag_owner_output : TagOwnerOutput

pub record GetEventsForTagsOptions : Type 0 where
  pub event_pattern : Bytes
  pub event_pattern_high : Bytes
  pub include_brief_hits : Bool
  pub get_all_data : Bool
  pub first_link : ℤ
  pub link_count : ℤ
  pub events_per_message : ℤ
  pub start_result : ℤ
  pub end_result : ℤ
  pub min_event_hits : ℤ
  pub count_only : Bool
  pub get_match_links : Bool
  pub count_match_links : Bool
  pub get_link_tags : Bool
  pub get_target_tags : Bool
  pub link_tag_filter : Bytes
  pub linked_events_filter : Bytes
  pub link_category : Bytes
  pub owner : Bytes
  pub owner_unique_id : Bytes
  pub get_event_object_count : Bool
  pub buffer_results : Bool
  pub include_tag_stats : Bool
  pub invert_hit_tag_filter : Bool
  pub hit_tag_filter : Bytes
  pub buffer_format : Bytes
  pub tag_owner_output : TagOwnerOutput

pub record BatchEventSpec : Type 0 where
  pub event : EventFields
  pub tags : List Tag

pub record BatchLinkEventSpec : Type 0 where
  pub event : EventFields
  pub link : LinkFields

-- `SearchOptions`, which is only looked at to report that no encoder reads it.
pub record SearchOptions : Type 0 where
  pub clause : Bytes
  pub parameters : Bytes
  pub buffer_results : Bool
  pub include_tag_stats : Bool
  pub invert_hit_tag_filter : Bool
  pub hit_tag_filter : Bytes
  pub buffer_format : Bytes

pub record NeuralMemoryFields : Type 0 where
  pub get_event : Option GetEventOptions
  pub get_events_for_tags : Option GetEventsForTagsOptions
  pub search : Option SearchOptions
  pub link : Option LinkFields
  pub batch_links : List BatchLinkEventSpec
  pub tags : List Tag
  pub batch_events : List BatchEventSpec

-- `any` as the data of a payload: the types that an encoder asks for, and every other type.
pub data Data : Type 0 where
  nil other_type : Data
  string byte_slice : Bytes → Data
  string_slice : List Bytes → Data
  batch_event_specs : List BatchEventSpec → Data
  batch_link_event_specs : List BatchLinkEventSpec → Data
  tag_list tag_slice : List Tag → Data

pub record PayloadFields : Type 0 where
  pub value : Data
  pub data_type : ℕ
  pub mime_type : Bytes

-- `Message` with the fields of its embedded `Envelope`; `none` is a nil pointer. `status` and
-- `status_message` of a response are all that an encoder reads of it.
pub record Message : Type 0 where
  pub to : Bytes
  pub from : Bytes
  pub intent : Intent
  pub client_name : Bytes
  pub message_id : Bytes
  pub passcode : Bytes
  pub user_name : Bytes
  pub event : Option EventFields
  pub payload : Option PayloadFields
  pub neural_memory : Option NeuralMemoryFields
  pub response : Option (Bytes × Bytes)

-- What the encoders take from outside: `GetTimestamp()`, which reads the clock,
-- `strconv.FormatFloat(v, 'f', -1, bits)` and `Sprintf("%v", v)` of a `float64`.
pub record Externals : Type 0 where
  pub get_timestamp : Bytes
  pub format_float : (bit_size bits : ℕ) → Bytes
  pub print_float : (bits : ℕ) → Bytes

unfoldable pub get_event_opts : Message → Option GetEventOptions
get_event_opts m = elim m.neural_memory [ none ↦ none | some n ↦ n.get_event ]

unfoldable pub get_events_for_tags_opts : Message → Option GetEventsForTagsOptions
get_events_for_tags_opts m = elim m.neural_memory [ none ↦ none | some n ↦ n.get_events_for_tags ]

unfoldable pub payload_data : Message → Data
payload_data m = elim m.payload [ none ↦ nil | some p ↦ p.value ]

unfoldable pub payload_mime_type : Message → Bytes
payload_mime_type m = elim m.payload [ none ↦ [] | some p ↦ p.mime_type ]

unfoldable pub tags_of : Message → List Tag
tags_of m = elim m.neural_memory [ none ↦ [] | some n ↦ n.tags ]

unfoldable pub link_of : Message → Option LinkFields
link_of m = elim m.neural_memory [ none ↦ none | some n ↦ n.link ]
