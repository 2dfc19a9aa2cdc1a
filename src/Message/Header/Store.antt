-- ===== src/Message/Header/Store.antt =====
-- The headers of the requests that store events, data and tags, of message/header.go. `none` for the
-- event is a nil pointer, which these functions follow without a test.
use pod_os_go_client.Prelude.{ℕ, suc, none, some, List, [], ◌∷◌, codes}
use pod_os_go_client.Prelude.Result.{Result, ok, panic}
use mathlib.Core.Option
use pod_os_go_client.Text.{force_ascii}
use pod_os_go_client.Wire.Encoder.{EncodeError}
use pod_os_go_client.Message.{Message, EventFields, Tag, Externals, payload_mime_type, tags_of}
use pod_os_go_client.Message.Format.{tag_name, tag_text}
use pod_os_go_client.Message.Header.{HeaderText, Slot, nonempty, or_default, unless_set}

-- The tags of a header, numbered from `i`.
unfoldable pub tag_slots : Externals → ℕ → List Tag → List Slot
unfolding tag_name tag_text
tag_slots x i [] = []
tag_slots x i (t ∷ ts) = (tag_name i, some (tag_text x b':' t)) ∷ tag_slots x (suc i) ts

abbrev pub store_event_slots : Externals → Message → EventFields → List Slot
store_event_slots x m e =
    (codes "_db_cmd", some (codes "store"))
    ∷ (codes "unique_id", nonempty e.unique_id)
    ∷ (codes "event_id", Option.map force_ascii (nonempty e.id))
    ∷ (codes "owner", nonempty e.owner)
    ∷ (codes "timestamp", some (or_default e.timestamp x.get_timestamp))
    ∷ (codes "loc_delim", some e.location_separator)
    ∷ (codes "loc", some e.location)
    ∷ (codes "type", some (or_default e.event_type (codes "store event")))
    ∷ (codes "mime", some (payload_mime_type m))
    ∷ tag_slots x 1 (tags_of m)

unfoldable pub store_event_message_header : Externals → Message → Result EncodeError HeaderText
unfolding force_ascii payload_mime_type tag_slots tags_of
store_event_message_header x m = elim m.event [
  | none ↦ panic
  | some e ↦ ok (record { slots = store_event_slots x m e; last_id = nonempty m.message_id })
]

abbrev pub store_data_slots : Externals → Message → EventFields → List Slot
store_data_slots x m e =
    (codes "_db_cmd", some (codes "store_data"))
    ∷ (codes "unique_id", nonempty e.unique_id)
    ∷ (codes "event_id", unless_set e.unique_id (Option.map force_ascii (nonempty e.id)))
    ∷ (codes "timestamp", some (or_default e.timestamp x.get_timestamp))
    ∷ (codes "loc_delim", some e.location_separator)
    ∷ (codes "loc", some e.location)
    ∷ (codes "mime", some (payload_mime_type m))
    ∷ []

unfoldable pub store_data_message_header : Externals → Message → Result EncodeError HeaderText
unfolding force_ascii payload_mime_type
store_data_message_header x m = elim m.event [
  | none ↦ panic
  | some e ↦ ok (record { slots = store_data_slots x m e; last_id = nonempty m.message_id })
]

-- The id has a tab behind it here.
unfoldable pub store_batch_events_message_header : Message → HeaderText
store_batch_events_message_header m = record {
  slots =
      (codes "_db_cmd", some (codes "store_batch")) ∷ (codes "_msg_id", nonempty m.message_id) ∷ [];
  last_id = none;
}

abbrev pub store_batch_tags_slots : EventFields → List Slot
store_batch_tags_slots e =
    (codes "_db_cmd", some (codes "tag_store_batch"))
    ∷ (codes "unique_id", nonempty e.unique_id)
    ∷ (codes "event_id", unless_set e.unique_id (Option.map force_ascii (nonempty e.id)))
    ∷ (codes "owner", nonempty e.owner)
    ∷ (codes "owner_unique_id", unless_set e.owner (nonempty e.owner_unique_id))
    ∷ []

unfoldable pub store_batch_tags_message_header : Message → Result EncodeError HeaderText
unfolding force_ascii
store_batch_tags_message_header m = elim m.event [
  | none ↦ panic
  | some e ↦ ok (record { slots = store_batch_tags_slots e; last_id = nonempty m.message_id })
]
