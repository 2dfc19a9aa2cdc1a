-- ===== src/Validate/Wire.antt =====
-- `ValidateRawMessage` of message/validate.go: the framing of a message in bytes, and then the fields of
-- its header. A return from the middle is `err`, with what has been reported so far; a slice out of
-- range is `panic`. Lengths are signed, as the parser returns them.
pub mod Header
pub mod OfFrame
pub mod Panics
mod Tests
use pod_os_go_client.Prelude.{
  ◌||◌, ◌&&◌, not, Bool, true, false, Option, none, some, List, [], ◌∷◌, ◌++◌, ◌==◌, leb,
  if◌then◌else◌, Bytes, codes, length, slice, ℕ, ◌≡◌, refl,
}
use pod_os_go_client.Prelude.Int.{ℤ, pos, negsuc, ◌+ℤ◌, leb_ℤ}
use pod_os_go_client.Prelude.Result.{Result, ok, err, panic, ◌>>=◌, ◌>>◌, guard}
use pod_os_go_client.Intents.{IntentType, intent}
use pod_os_go_client.Wire.{max_message_size}
use pod_os_go_client.Wire.Decoder.{decode_header, strip_routing}
use pod_os_go_client.Wire.RawEdit.{slice_of}
use pod_os_go_client.Wire.SizeParam.{decode_message_size_param}
use pod_os_go_client.Validate.Report.{
  Rule, Severity, ValidationErrors, errorf, is_empty, is_name_at_gateway, report,
}
use Header.{validate_wire_header}

-- The intents of `knownMessageTypes`, in their order.
abbrev known_intents : List IntentType
known_intents =
    IntentType.store_event ∷ IntentType.store_data ∷ IntentType.store_batch_events
    ∷ IntentType.store_batch_tags ∷ IntentType.get_event ∷ IntentType.get_events_for_tags
    ∷ IntentType.link_event ∷ IntentType.unlink_event ∷ IntentType.store_batch_links
    ∷ IntentType.store_event_response ∷ IntentType.store_batch_events_response
    ∷ IntentType.store_batch_tags_response ∷ IntentType.get_event_response
    ∷ IntentType.get_events_for_tags_response ∷ IntentType.link_event_response
    ∷ IntentType.unlink_event_response ∷ IntentType.store_batch_links_response
    ∷ IntentType.gateway_id ∷ IntentType.gateway_status ∷ IntentType.gateway_disconnect
    ∷ IntentType.gateway_stream_on ∷ IntentType.gateway_stream_off ∷ IntentType.gateway_batch_start
    ∷ IntentType.gateway_batch_end ∷ IntentType.gateway_send_next ∷ IntentType.gateway_no_send
    ∷ IntentType.actor_echo ∷ IntentType.actor_halt ∷ IntentType.actor_start
    ∷ IntentType.actor_request ∷ IntentType.actor_response ∷ IntentType.actor_report
    ∷ IntentType.actor_record ∷ IntentType.actor_user ∷ IntentType.status ∷ IntentType.keepalive
    ∷ IntentType.route_any_message ∷ IntentType.route_user_only_message
    ∷ IntentType.queue_next_request ∷ IntentType.queue_all_request ∷ IntentType.queue_count_request
    ∷ IntentType.queue_empty ∷ IntentType.report_request ∷ IntentType.information_report
    ∷ IntentType.auth_add_user ∷ IntentType.auth_update_user ∷ IntentType.auth_user_list
    ∷ IntentType.auth_disable_user ∷ []

has_type : ℕ → List IntentType → Bool
unfolding intent
has_type n [] = false
has_type n (t ∷ ts) = (intent t).message_type == n || has_type n ts

-- The map has no entry for 0.
unfoldable pub is_known_message_type : ℤ → Bool
unfolding has_type
is_known_message_type (negsuc n) = false
is_known_message_type (pos n) = not (n == 0) && has_type n known_intents

abbrev wire_error : Bytes → Rule → ValidationErrors
wire_error field rule = errorf Severity.error (codes "wire") field [] rule ∷ []

unfoldable pub parse_field : Bytes → Bytes → Result ValidationErrors ℤ
parse_field name field = elim (decode_message_size_param field) [
  | none ↦ err (wire_error name Rule.format)
  | some n ↦ ok n
]

unfoldable pub validate_wire_address : Bytes → Bytes → ValidationErrors
validate_wire_address field address =
    if is_empty address
    then errorf Severity.error (codes "wire") field field Rule.required ∷ []
    else report (not (is_name_at_gateway address))
        (errorf Severity.error (codes "wire") field field Rule.format)

abbrev short_for : Bytes → ValidationErrors
short_for field = errorf Severity.error (codes "wire") field field Rule.format ∷ []

-- `if len(errs) > 0 { return errs }`
abbrev stop_if_any : ValidationErrors → Result ValidationErrors (Unit {0})
stop_if_any [] = ok tt
stop_if_any (e ∷ es) = err (e ∷ es)

pub parse_field-some :
    (name field : Bytes) {z : ℤ}
    → decode_message_size_param field ≡ some z
    → parse_field name field ≡ ok z
unfolding parse_field
parse_field-some name field e = rw (e, parse_field) refl

-- From the parsed lengths on.
unfoldable pub validate_segments :
    (Bytes → Option ℕ) → Bytes → ℤ → ℤ → ℤ → ℤ → ℤ → Result ValidationErrors ValidationErrors
unfolding validate_wire_address
validate_segments parse_float raw to_length from_length header_length message_type payload_length =
    do
      let size = pos (length raw)
      let to_end = pos 63 +ℤ to_length
      let from_end = to_end +ℤ from_length
      let header_end = from_end +ℤ header_length
      guard (leb_ℤ to_end size) (short_for (codes "to"))
      guard (leb_ℤ from_end size) (short_for (codes "from"))
      guard (leb_ℤ header_end size) (short_for (codes "header"))
      to ← slice_of (pos 63) to_end raw
      from ← slice_of to_end from_end raw
      stop_if_any (
          validate_wire_address (codes "to") to
          ++ validate_wire_address (codes "from") (strip_routing from))
      guard (is_known_message_type message_type) (
          errorf Severity.error (codes "wire") (codes "messageType") (codes "messageType")
            Rule.format
          ∷ [])
      header ← slice_of from_end header_end raw
      ok (validate_wire_header parse_float message_type (decode_header header) payload_length)

-- The bytes of a message that is not nil; the total length and the data type are parsed and not used.
unfoldable pub validate_bytes :
    (Bytes → Option ℕ) → Bytes → Result ValidationErrors ValidationErrors
validate_bytes parse_float raw = do
  guard (leb 63 (length raw)) (wire_error (codes "message") Rule.format)
  guard (leb (length raw) max_message_size) (wire_error (codes "message") Rule.format)
  total ← parse_field (codes "totalLength") (slice 0 9 raw)
  to_length ← parse_field (codes "toLength") (slice 9 18 raw)
  from_length ← parse_field (codes "fromLength") (slice 18 27 raw)
  header_length ← parse_field (codes "headerLength") (slice 27 36 raw)
  message_type ← parse_field (codes "messageType") (slice 36 45 raw)
  data_type ← parse_field (codes "dataType") (slice 45 54 raw)
  payload_length ← parse_field (codes "payloadDataLength") (slice 54 63 raw)
  validate_segments parse_float raw to_length from_length header_length message_type payload_length

-- What is returned, from the middle or at the end.
abbrev pub returned :
    Result ValidationErrors ValidationErrors → Result ValidationErrors ValidationErrors
returned panic = panic
returned (err es) = ok es
returned (ok es) = ok es

-- `ValidateRawMessage`, with `validationEnabled` for the variable PODOS_VALIDATE; `none` is nil.
unfoldable pub validate_raw_message :
    Bool → (Bytes → Option ℕ) → Option Bytes → Result ValidationErrors ValidationErrors
unfolding validate_bytes
validate_raw_message false parse_float raw = ok []
validate_raw_message true parse_float none = ok (wire_error (codes "message") Rule.nil_struct)
validate_raw_message true parse_float (some raw) = returned (validate_bytes parse_float raw)
