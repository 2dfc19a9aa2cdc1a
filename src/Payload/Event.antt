-- ===== src/Payload/Event.antt =====
-- `decodeEventFields` of message/decoder.go: the event that a record of a reply stands for.
use pod_os_go_client.Prelude.{
  ℕ, Option, none, some, List, [], ◌∷◌, ◌++◌, Bytes, codes, zero, suc, ◌+◌,
}
use pod_os_go_client.Prelude.Int.{ℤ, pos}
use pod_os_go_client.Strconv.{atoi, atoi_value}
use pod_os_go_client.Text.{force_ascii, trim_right_byte}
use pod_os_go_client.Wire.Decoder.{HeaderMap}
use pod_os_go_client.Wire.Response.{first_of, set_number, set_text}

pub record DateTimeObject : Type 0 where
  pub year : ℤ
  pub month : ℤ
  pub day : ℤ
  pub hour : ℤ
  pub minute : ℤ
  pub second : ℤ
  pub microsecond : ℤ

-- The fields of `EventFields` that a record of a reply sets.
pub record EventResult : Type 0 where
  pub id : Bytes
  pub local_id : Bytes
  pub unique_id : Bytes
  pub event_type : Bytes
  pub owner : Bytes
  pub date_time : DateTimeObject
  pub timestamp : Bytes
  pub hits : ℤ
  pub location : Bytes
  pub location_separator : Bytes

abbrev pub no_date : DateTimeObject
no_date = record {
  year = pos 0;
  month = pos 0;
  day = pos 0;
  hour = pos 0;
  minute = pos 0;
  second = pos 0;
  microsecond = pos 0;
}

-- `EventFields{}`
abbrev pub empty_event : EventResult
empty_event = record {
  id = [];
  local_id = [];
  unique_id = [];
  event_type = [];
  owner = [];
  date_time = no_date;
  timestamp = [];
  hits = pos 0;
  location = [];
  location_separator = [];
}

abbrev value_or_zero : Option Bytes → ℤ
value_or_zero none = pos 0
value_or_zero (some s) = atoi_value s

-- One part of the date, under the first of two keys.
unfoldable pub date_part : HeaderMap → Bytes → Bytes → ℤ
unfolding first_of atoi_value
date_part m a b = value_or_zero (first_of (a ∷ b ∷ []) m)

unfoldable pub decode_date_time : HeaderMap → DateTimeObject
unfolding date_part
decode_date_time m = record {
  year = date_part m (codes "event_year") (codes "_event_year");
  month = date_part m (codes "event_mon") (codes "_event_month");
  day = date_part m (codes "event_day") (codes "_event_day");
  hour = date_part m (codes "event_hour") (codes "_event_hour");
  minute = date_part m (codes "event_min") (codes "_event_min");
  second = date_part m (codes "event_sec") (codes "_event_sec");
  microsecond = date_part m (codes "event_usec") (codes "_event_usec");
}

abbrev with_bar : Option Bytes → Bytes
with_bar none = []
with_bar (some c) = c ++ codes "|"

-- The coordinates from number `i` on, `n` of them, each with a bar behind it.
unfoldable pub coordinates : HeaderMap → (n i : ℕ) → Bytes
unfolding first_of
coordinates m zero i = []
coordinates m (suc n) i =
    let digit = (b'0' + i) ∷ [] in
    let name = codes "coordinate_0" ++ digit in
    with_bar (first_of ((codes "_" ++ name) ∷ name ∷ []) m) ++ coordinates m n (suc i)

abbrev id_keys : List Bytes
id_keys = codes "_event_id" ∷ codes "event_id" ∷ []

abbrev unique_id_keys : List Bytes
unique_id_keys = codes "unique_id" ∷ codes "_unique_id" ∷ codes "tag:1:_unique_id" ∷ []

abbrev type_keys : List Bytes
type_keys = codes "event_type" ∷ codes "_type" ∷ codes "type" ∷ []

abbrev owner_keys : List Bytes
owner_keys = codes "_owner_id" ∷ codes "owner" ∷ codes "_event_owner" ∷ []

abbrev set_ascii : Option Bytes → Bytes → Bytes
set_ascii none old = old
set_ascii (some v) old = force_ascii v

unfoldable pub decode_event_fields : HeaderMap → EventResult → EventResult
unfolding first_of decode_date_time coordinates trim_right_byte force_ascii atoi
decode_event_fields m e = record {
  id = set_ascii (first_of id_keys m) e.id;
  local_id = set_text (first_of (codes "_event_local_id" ∷ codes "local_id" ∷ []) m) e.local_id;
  unique_id = set_text (first_of unique_id_keys m) e.unique_id;
  event_type = set_text (first_of type_keys m) e.event_type;
  owner = set_text (first_of owner_keys m) e.owner;
  date_time = decode_date_time m;
  timestamp = set_text (first_of (codes "timestamp" ∷ codes "_timestamp" ∷ []) m) e.timestamp;
  hits = set_number (first_of (codes "_hits" ∷ []) m) e.hits;
  location = trim_right_byte b'|' (coordinates m 9 1);
  location_separator = codes "|";
}
