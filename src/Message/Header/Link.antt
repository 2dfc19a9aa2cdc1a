-- ===== src/Message/Header/Link.antt =====
-- The headers of the requests that link and unlink events, of message/header.go. `none` for the event
-- or the link is a nil pointer, which these functions follow without a test.
use pod_os_go_client.Prelude.{Option, none, some, List, [], ◌∷◌, Bytes, codes}
use pod_os_go_client.Prelude.Result.{Result, ok, panic}
use mathlib.Core.Option
use pod_os_go_client.Text.{force_ascii}
use pod_os_go_client.Wire.Encoder.{EncodeError}
use pod_os_go_client.Message.{
  Message, EventFields, LinkFields, Externals, payload_mime_type, link_of,
}
use pod_os_go_client.Message.Header.{HeaderText, Slot, nonempty, unless_set}

-- Two ids that are written when neither is empty.
abbrev pair_of : Bytes → Bytes → Option (Bytes × Bytes)
pair_of [] b = none
pair_of (c ∷ a) [] = none
pair_of (c ∷ a) (d ∷ b) = some (c ∷ a, d ∷ b)

abbrev otherwise : Option (Bytes × Bytes) → Option (Bytes × Bytes) → Option (Bytes × Bytes)
otherwise none o = o
otherwise (some p) o = none

abbrev first : (Bytes × Bytes) → Bytes
first p = p.0

abbrev second : (Bytes × Bytes) → Bytes
second p = p.1

abbrev unique_ids : LinkFields → Option (Bytes × Bytes)
unique_ids l = pair_of l.unique_id_a l.unique_id_b

abbrev event_ids : LinkFields → Option (Bytes × Bytes)
event_ids l = otherwise (unique_ids l) (pair_of l.event_a l.event_b)

abbrev pub link_slots : Externals → Message → EventFields → LinkFields → List Slot
link_slots x m e l =
    (codes "_db_cmd", some (codes "link"))
    ∷ (codes "event_id", Option.map force_ascii (nonempty e.id))
    ∷ (codes "unique_id", unless_set e.id (nonempty e.unique_id))
    ∷ (codes "owner", nonempty e.owner)
    ∷ (codes "_msg_id", nonempty m.message_id)
    ∷ (codes "unique_id_a", Option.map first (unique_ids l))
    ∷ (codes "unique_id_b", Option.map second (unique_ids l))
    ∷ (codes "event_id_a", Option.map (λ p. force_ascii (first p)) (event_ids l))
    ∷ (codes "event_id_b", Option.map (λ p. force_ascii (second p)) (event_ids l))
    ∷ (codes "strength_a", some (x.format_float 64 l.strength_a))
    ∷ (codes "strength_b", some (x.format_float 64 l.strength_b))
    ∷ (codes "category", some l.category)
    ∷ (codes "loc_delim", some l.location_separator)
    ∷ (codes "loc", some l.location)
    ∷ (codes "type", some l.link_type)
    ∷ (codes "mime", some (payload_mime_type m))
    ∷ (codes "timestamp", some l.timestamp)
    ∷ (codes "owner_event_id", nonempty l.owner_id)
    ∷ (codes "owner_unique_id", unless_set l.owner_id (nonempty l.owner_unique_id))
    ∷ []

unfoldable pub link_events_message_header : Externals → Message → Result EncodeError HeaderText
unfolding force_ascii payload_mime_type link_of
link_events_message_header x m = elim m.event [
  | none ↦ panic
  | some e ↦ elim (link_of m) [
    | none ↦ panic
    | some l ↦ ok (record { slots = link_slots x m e l; last_id = none })
  ]
]

unfoldable pub batch_link_events_message_header : Message → HeaderText
batch_link_events_message_header m = record {
  slots = (codes "_db_cmd", some (codes "link_batch")) ∷ [];
  last_id = nonempty m.message_id;
}

abbrev pub unlink_slots : Message → LinkFields → List Slot
unlink_slots m l =
    (codes "_db_cmd", some (codes "unlink"))
    ∷ (codes "owner", nonempty l.owner)
    ∷ (codes "event_id", Option.map force_ascii (nonempty l.id))
    ∷ (codes "unique_id", unless_set l.id (nonempty l.unique_id))
    ∷ (codes "loc_delim", nonempty l.location_separator)
    ∷ (codes "loc", nonempty l.location)
    ∷ (codes "timestamp", nonempty l.timestamp)
    ∷ (codes "_msg_id", nonempty m.message_id)
    ∷ []

unfoldable pub unlink_events_message_header : Message → Result EncodeError HeaderText
unfolding force_ascii link_of
unlink_events_message_header m = elim (link_of m) [
  | none ↦ panic
  | some l ↦ ok (record { slots = unlink_slots m l; last_id = none })
]
