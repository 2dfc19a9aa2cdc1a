-- ===== src/Wire/Decoder.antt =====
-- `decodeHeader` and `DecodeMessage` of message/decoder.go: the seven length fields, the bounds of
-- the segments, the envelope, the header map, the message type, the intent, the data type, the bytes
-- of the payload, and whether the parser of the payload panics. The logger is left out, and so is the partial message with the status
-- ERROR that `DecodeMessage` returns beside an error.
pub mod Fields
pub mod Header
pub mod Parts
pub mod OfFrame
pub mod RoundTrip
use pod_os_go_client.Prelude.{
  ℕ, ◌+◌, Option, none, some, List, [], ◌∷◌, ltb, leb, if◌then◌else◌, Bytes, codes, length, slice,
  str_eq,
}
use pod_os_go_client.Prelude.Int.{ℤ, pos, negsuc}
use pod_os_go_client.Prelude.Result.{Result, ok, err, panic, ◌>>=◌, ◌>>◌, guard}
use pod_os_go_client.Intents.{
  IntentType, store_batch_events, store_batch_events_response, intent_from_message_type_and_command,
  intent_from_message_type_int,
}
use pod_os_go_client.Strconv.{atoi}
use pod_os_go_client.Text.{trim_space, trim_right_nul, contains_byte, split, before, after}
use pod_os_go_client.Wire.SizeParam.{decode_message_size_param}
use pod_os_go_client.Wire.{max_message_size}

-- The codes of message/errors.go that `DecodeMessage` returns.
pub data DecodeCode : Type 0 where
  message_too_short invalid_size_param invalid_message_type invalid_data_type : DecodeCode
  payload_too_large : DecodeCode

-- The `Field` of a `DecodeError`; `WrapDecodeError` leaves it empty.
pub data Field : Type 0 where
  unnamed message total_length to_length from_length header_length payload_length : Field
  to from header message_type payload : Field

pub record DecodeError : Type 0 where
  pub code : DecodeCode
  pub field : Field

abbrev pub fails {ℓ} : {A : Type ℓ} → DecodeCode → Field → Result DecodeError A
fails c f = err (record { code = c; field = f })

-- The first length: an error of the parser, a value that is not positive, a value too large.
unfoldable pub check_total : Option ℤ → Result DecodeError ℕ
check_total none = fails invalid_size_param unnamed
check_total (some (negsuc n)) = fails invalid_size_param total_length
check_total (some (pos n)) =
    if leb n 0
    then fails invalid_size_param total_length
    else if ltb max_message_size n
    then fails payload_too_large message
    else ok n

-- Each other length: an error of the parser, or a value out of range.
unfoldable pub check_length : Field → Option ℤ → Result DecodeError ℕ
check_length f none = fails invalid_size_param unnamed
check_length f (some (negsuc n)) = fails invalid_size_param f
check_length f (some (pos n)) = if ltb max_message_size n then fails invalid_size_param f else ok n

-- `_, err = decodeMessageSizeParam(…)`: only the error counts.
unfoldable pub check_number : Option ℤ → Result DecodeError (Unit {0})
check_number none = fails invalid_size_param unnamed
check_number (some z) = ok tt

pub record Lengths : Type 0 where
  pub total : ℕ
  pub to_len : ℕ
  pub from_len : ℕ
  pub header_len : ℕ
  pub payload_len : ℕ

unfoldable pub decode_lengths : Bytes → Result DecodeError Lengths
decode_lengths m = do
  guard (leb (length m) max_message_size) (record { code = payload_too_large; field = message })
  guard (leb 63 (length m)) (record { code = message_too_short; field = message })
  total ← check_total (decode_message_size_param (slice 0 9 m))
  to_len ← check_length to_length (decode_message_size_param (slice 9 18 m))
  from_len ← check_length from_length (decode_message_size_param (slice 18 27 m))
  header_len ← check_length header_length (decode_message_size_param (slice 27 36 m))
  check_number (decode_message_size_param (slice 36 45 m))
  check_number (decode_message_size_param (slice 45 54 m))
  payload_len ← check_length payload_length (decode_message_size_param (slice 54 63 m))
  ok (record {
    total = total;
    to_len = to_len;
    from_len = from_len;
    header_len = header_len;
    payload_len = payload_len;
  })

-- The header map: the entry that was set last comes first.
abbrev pub HeaderMap : Type 0
HeaderMap = List (Bytes × Bytes)

unfoldable pub lookup : Bytes → HeaderMap → Option Bytes
lookup k [] = none
lookup k ((j, v) ∷ m) = if str_eq j k then some v else lookup k m

-- `header[key] = value` for one tab-separated part, if it has a `=`.
unfoldable pub add_part : HeaderMap → Bytes → HeaderMap
add_part m part =
    if contains_byte b'=' part
    then (trim_space (before b'=' part), trim_space (after b'=' part)) ∷ m
    else m

unfoldable pub add_parts : HeaderMap → List Bytes → HeaderMap
unfolding add_part
add_parts m [] = m
add_parts m (p ∷ ps) = add_parts (add_part m p) ps

unfoldable pub decode_header : Bytes → HeaderMap
unfolding add_parts split
decode_header s = add_parts [] (split b'\t' s)

pub record Segments : Type 0 where
  pub to : Bytes
  pub from : Bytes
  pub headers : HeaderMap
  pub header_end : ℕ

-- `From` up to the first `|`, behind which Pod-OS may add routing data
unfoldable pub strip_routing : Bytes → Bytes
unfolding contains_byte before
strip_routing s = if contains_byte b'|' s then before b'|' s else s

unfoldable pub decode_segments : Bytes → Lengths → Result DecodeError Segments
decode_segments m l = do
  let to_end = 63 + l.to_len
  let from_end = to_end + l.from_len
  let header_end = from_end + l.header_len
  guard (leb to_end (length m)) (record { code = message_too_short; field = Field.to })
  guard (leb from_end (length m)) (record { code = message_too_short; field = Field.from })
  guard (leb header_end (length m)) (record { code = message_too_short; field = Field.header })
  ok (record {
    to = slice 63 to_end m;
    from = strip_routing (slice to_end from_end m);
    headers = decode_header (slice from_end header_end m);
    header_end = header_end;
  })

-- `strconv.Atoi` of a trimmed nine-byte field
abbrev pub field_number : Bytes → Option ℤ
field_number b = atoi (trim_space (trim_right_nul b))

-- The command: `_type`, else `_command`, else `_db_cmd`, else empty.
abbrev pub or_else {ℓ} : {A : Type ℓ} → Option A → Option A → Option A
or_else none d = d
or_else (some a) d = some a

abbrev pub get_or_empty : Option Bytes → Bytes
get_or_empty none = []
get_or_empty (some s) = s

unfoldable pub command_of : HeaderMap → Bytes
unfolding lookup
command_of h = get_or_empty (
    or_else (lookup (codes "_type") h)
      (or_else (lookup (codes "_command") h) (lookup (codes "_db_cmd") h)))

-- The intent of a message type, with the fall-back to the lookup by type alone.
unfoldable pub find_intent : Option ℤ → Bytes → Result DecodeError IntentType
unfolding intent_from_message_type_and_command intent_from_message_type_int
find_intent none command = fails invalid_message_type unnamed
find_intent (some (negsuc n)) command = fails invalid_message_type Field.message_type
find_intent (some (pos n)) command =
    elim (or_else (intent_from_message_type_and_command n command)
      (intent_from_message_type_int n)) [
        | none ↦ fails invalid_message_type Field.message_type
        | some t ↦ ok t
      ]

unfoldable pub find_data_type : Option ℤ → Result DecodeError ℤ
find_data_type none = fails invalid_data_type unnamed
find_data_type (some z) = ok z

-- `Payload.Data`: nothing, or the bytes behind the header, as `[]byte` if the MIME type is
-- application/octet-stream and as `string` otherwise.
pub data PayloadData : Type 0 where
  no_data : PayloadData
  text binary : Bytes → PayloadData

abbrev pub mime_type_of : HeaderMap → Bytes
mime_type_of h = get_or_empty (or_else (lookup (codes "mime") h) (lookup (codes "_mimetype") h))

-- the payload of a positive length
slice_payload : Bytes → ℕ → ℕ → HeaderMap → Result DecodeError PayloadData
unfolding lookup
slice_payload m header_end payload_len h = do
  guard (leb (header_end + payload_len) (length m))
      (record { code = message_too_short; field = Field.payload })
  let bytes = slice header_end (header_end + payload_len) m
  ok (
      if str_eq (mime_type_of h) (codes "application/octet-stream")
      then binary bytes
      else text bytes)

unfoldable pub decode_payload : Bytes → ℕ → ℕ → HeaderMap → Result DecodeError PayloadData
unfolding slice_payload
decode_payload m header_end payload_len h =
    if ltb 0 payload_len then slice_payload m header_end payload_len h else ok no_data

-- The switch on the intent, which parses a payload. What the parsers fill is not in `Message` below; all
-- but one take any payload, and the one for StoreBatchEvents asserts that it is a string.
unfoldable pub parse_payload : IntentType → PayloadData → Result DecodeError (Unit {0})
parse_payload store_batch_events (binary b) = panic
parse_payload store_batch_events_response (binary b) = panic
parse_payload t p = ok tt

pub record Message : Type 0 where
  pub to : Bytes
  pub from : Bytes
  pub headers : HeaderMap
  pub intent : IntentType
  pub data_type : ℤ
  pub payload : PayloadData

unfoldable pub decode_message : Bytes → Result DecodeError Message
unfolding parse_payload
decode_message m = do
  l ← decode_lengths m
  s ← decode_segments m l
  t ← find_intent (field_number (slice 36 45 m)) (command_of s.headers)
  d ← find_data_type (field_number (slice 45 54 m))
  p ← decode_payload m s.header_end l.payload_len s.headers
  parse_payload t p
  ok (record {
    to = s.to;
    from = s.from;
    headers = s.headers;
    intent = t;
    data_type = d;
    payload = p;
  })
