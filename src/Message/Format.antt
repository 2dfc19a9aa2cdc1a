-- ===== src/Message/Format.antt =====
-- The texts that message/encoder.go makes of tags, events and links, and the numbers in them.
use pod_os_go_client.Prelude.{
  ℕ, zero, suc, ◌+◌, ◌*◌, ◌/◌, ◌%◌, ◌^◌, Bool, ◌||◌, List, [], ◌∷◌, ◌++◌, ltb, ◌==◌, if◌then◌else◌,
  Bytes, codes,
}
use pod_os_go_client.Prelude.Int.{ℤ, pos, negsuc}
use pod_os_go_client.Prelude.Result.{Result, ok, err, ◌>>=◌}
use pod_os_go_client.Strconv.{digits_free, digits_fixed}
use pod_os_go_client.Wire.Encoder.{EncodeError, invalid_data, is_empty}
use pod_os_go_client.Message.{
  TagValue, nil, string, other, int, uint, float32, float64, bool, byte_slice, Tag, EventFields,
  LinkFields, BatchEventSpec, BatchLinkEventSpec, Externals,
}

-- `strconv.FormatUint(n, 10)`; a 64-bit number has at most 20 digits.
unfoldable pub format_uint : ℕ → Bytes
unfolding digits_free
format_uint n = if n == 0 then b'0' ∷ [] else digits_free 10 20 n

-- `strconv.Itoa`, `strconv.FormatInt(n, 10)` and `Sprintf("%d", n)`
unfoldable pub itoa : ℤ → Bytes
unfolding format_uint
itoa (pos n) = format_uint n
itoa (negsuc n) = b'-' ∷ format_uint (suc n)

-- `fmt.Sprintf("tag_%04d", n)`
unfoldable pub tag_name : ℕ → Bytes
unfolding digits_free digits_fixed
tag_name n = codes "tag_" ++ (digits_free 10 16 (n / 10 ^ 4) ++ digits_fixed 10 4 n)

-- The alphabet of `base64.StdEncoding`
unfoldable base64_char : ℕ → ℕ
base64_char d =
    if ltb d 26
    then b'A' + d
    else if ltb d 52
    then b'a' + (d % 26)
    else if ltb d 62
    then b'0' + (d % 52)
    else if d == 62
    then b'+'
    else b'/'

unfoldable base64 : Bytes → Bytes
unfolding base64_char
base64 [] = []
base64 (a ∷ []) = base64_char (a / 4) ∷ base64_char (a % 4 * 16) ∷ b'=' ∷ b'=' ∷ []
base64 (a ∷ b ∷ []) =
    base64_char (a / 4) ∷ base64_char (a % 4 * 16 + b / 16) ∷ base64_char (b % 16 * 4) ∷ b'=' ∷ []
base64 (a ∷ b ∷ c ∷ s) =
    base64_char (a / 4)
    ∷ base64_char (a % 4 * 16 + b / 16)
    ∷ base64_char (b % 16 * 4 + c / 64)
    ∷ base64_char (c % 64)
    ∷ base64 s

unfoldable pub serialize_tag_value : Externals → TagValue → Bytes
unfolding itoa format_uint base64
serialize_tag_value x nil = []
serialize_tag_value x (string s) = s
serialize_tag_value x (other s) = s
serialize_tag_value x (int n) = itoa n
serialize_tag_value x (uint n) = format_uint n
serialize_tag_value x (float32 v) = x.format_float 32 v
serialize_tag_value x (float64 v) = x.format_float 64 v
serialize_tag_value x (bool b) = if b then codes "true" else codes "false"
serialize_tag_value x (byte_slice s) = base64 s

-- `fmt.Sprintf("%d:%s=%s", tag.Frequency, tag.Key, SerializeTagValue(tag.Value))`, and the same with
-- another separator behind the frequency.
unfoldable pub tag_text : Externals → ℕ → Tag → Bytes
unfolding itoa serialize_tag_value
tag_text x separator t =
    itoa t.frequency ++ separator ∷ (t.key ++ b'=' ∷ serialize_tag_value x t.value)

-- `strings.Join`
unfoldable pub join : Bytes → List Bytes → Bytes
join separator [] = []
join separator (s ∷ []) = s
join separator (s ∷ t ∷ ss) = s ++ (separator ++ join separator (t ∷ ss))

abbrev pub map_texts {ℓ} : {A : Type ℓ} → (A → Bytes) → List A → List Bytes
map_texts f [] = []
map_texts f (a ∷ rest) = f a ∷ map_texts f rest

unfoldable pub format_batch_tags_payload : Externals → List Tag → Bytes
unfolding tag_text join
format_batch_tags_payload x tags = join (codes "\n") (map_texts (tag_text x b'=') tags)

-- `tag_i=freq:key=value`, counted from `i`.
numbered_tags : Externals → ℕ → List Tag → List Bytes
unfolding tag_text format_uint
numbered_tags x i [] = []
numbered_tags x i (t ∷ ts) =
    (codes "tag_" ++ (format_uint i ++ b'=' ∷ tag_text x b':' t)) ∷ numbered_tags x (suc i) ts

unfoldable format_tags_for_batch_payload : Externals → List Tag → Bytes
unfolding numbered_tags join
format_tags_for_batch_payload x [] = []
format_tags_for_batch_payload x (t ∷ ts) = b'\t' ∷ join (codes "\t") (numbered_tags x 1 (t ∷ ts))

-- A field of a struct with its `podos` tag; an empty or zero field is left out.
abbrev field : Bytes → Bytes → List Bytes
field name value = if is_empty value then [] else (name ++ b'=' ∷ value) ∷ []

abbrev printed_int : ℤ → Bytes
printed_int (pos zero) = []
printed_int n = itoa n

abbrev printed_float : Externals → ℕ → Bytes
printed_float x v = if v == 0 then [] else x.print_float v

-- The fields of `EventFields` in their order, as reflection finds them.
unfoldable pub format_batch_event_spec_fields : EventFields → List Bytes
unfolding itoa
format_batch_event_spec_fields e =
    field (codes "unique_id") e.unique_id
    ++ field (codes "event_id") e.id
    ++ field (codes "owner") e.owner
    ++ field (codes "owner_unique_id") e.owner_unique_id
    ++ field (codes "timestamp") e.timestamp
    ++ field (codes "loc") e.location
    ++ field (codes "loc_delim") e.location_separator
    ++ field (codes "type") e.event_type
    ++ field (codes "_status") e.status
    ++ field (codes "_hits") (printed_int e.hits)

unfoldable pub format_batch_link_event_spec_fields : Externals → BatchLinkEventSpec → List Bytes
unfolding format_batch_event_spec_fields
format_batch_link_event_spec_fields x s =
    format_batch_event_spec_fields s.event
    ++ field (codes "unique_id") s.link.unique_id
    ++ field (codes "event_id") s.link.id
    ++ field (codes "owner") s.link.owner
    ++ field (codes "timestamp") s.link.timestamp
    ++ field (codes "loc") s.link.location
    ++ field (codes "loc_delim") s.link.location_separator
    ++ field (codes "event_id_a") s.link.event_a
    ++ field (codes "event_id_b") s.link.event_b
    ++ field (codes "unique_id_a") s.link.unique_id_a
    ++ field (codes "unique_id_b") s.link.unique_id_b
    ++ field (codes "strength_a") (printed_float x s.link.strength_a)
    ++ field (codes "strength_b") (printed_float x s.link.strength_b)
    ++ field (codes "category") s.link.category
    ++ field (codes "type") s.link.link_type
    ++ field (codes "owner_unique_id") s.link.owner_unique_id
    ++ field (codes "owner_event_id") s.link.owner_id
    ++ field (codes "_status") s.link.status
    ++ field (codes "_msg") s.link.message

batch_event_text : Externals → BatchEventSpec → Bytes
unfolding format_batch_event_spec_fields format_tags_for_batch_payload join
batch_event_text x s =
    join (codes "\t") (format_batch_event_spec_fields s.event)
    ++ format_tags_for_batch_payload x s.tags

unfoldable pub format_batch_events_payload : Externals → List BatchEventSpec → Bytes
unfolding batch_event_text join
format_batch_events_payload x events = join (codes "\n") (map_texts (batch_event_text x) events)

-- Zero, an infinity or not a number, by the bits of the `float64`.
unfoldable pub link_strength_rejected : ℕ → Bool
link_strength_rejected v = v % 2 ^ 63 == 0 || v / 2 ^ 52 % 2 ^ 11 == 2047

unfoldable pub require_link_wire_fields : LinkFields → Result EncodeError (Unit {0})
unfolding link_strength_rejected
require_link_wire_fields l =
    if link_strength_rejected l.strength_a
    then err invalid_data
    else if link_strength_rejected l.strength_b
    then err invalid_data
    else if is_empty l.category
    then err invalid_data
    else ok tt

-- Every link is looked at before its record is written.
unfoldable pub link_records : Externals → List BatchLinkEventSpec → Result EncodeError (List Bytes)
unfolding require_link_wire_fields format_batch_link_event_spec_fields join
link_records x [] = ok []
link_records x (s ∷ ss) = do
  checked ← require_link_wire_fields s.link
  records ← link_records x ss
  ok (join (codes "\t") (format_batch_link_event_spec_fields x s) ∷ records)

unfoldable pub format_batch_link_events_payload :
    Externals → List BatchLinkEventSpec → Result EncodeError Bytes
unfolding link_records join
format_batch_link_events_payload x links = do
  records ← link_records x links
  ok (join (codes "\n") records)
