-- ===== src/Payload.antt =====
-- The tags of a reply: message/tag_format.go, and what message/responses.go does with a line of
-- `key=value` fields between tabs.
pub mod Event
pub mod Batch
pub mod Reply
pub mod TagHeader
pub mod Record
pub mod Strict
pub mod Failed
pub mod BinaryBatch
pub mod Order
mod Tests
use pod_os_go_client.Prelude.{
  Option, none, some, List, [], ◌∷◌, Bytes, codes, str_eq, ◌||◌, if◌then◌else◌, zero, suc,
}
use pod_os_go_client.Prelude.Int.{ℤ, pos, leb_ℤ}
use pod_os_go_client.Strconv.{atoi, atoi_value}
use pod_os_go_client.Text.{
  after, before, contains_byte, cut_prefix, has_prefix, index_byte, split, split_n, trim_space,
}
use pod_os_go_client.Wire.Decoder.{HeaderMap, get_or_empty, lookup}

pub record TagOutput : Type 0 where
  pub frequency : ℤ
  pub category : Bytes
  pub key : Bytes
  pub value : Bytes
  pub owner : Bytes
  pub owner_unique_id : Bytes
  pub timestamp : Bytes
  pub tag_number : ℤ
  pub target_tag_id : Bytes

-- `TagOutput{}`
abbrev pub empty_tag : TagOutput
empty_tag = record {
  frequency = pos 0;
  category = [];
  key = [];
  value = [];
  owner = [];
  owner_unique_id = [];
  timestamp = [];
  tag_number = pos 0;
  target_tag_id = [];
}

-- A text without a key, or whose first byte is `=`, is the value.
unfoldable pub split_tag_key_value : Bytes → Bytes × Bytes
unfolding index_byte before after
split_tag_key_value s = elim (index_byte b'=' s) [
  | none ↦ ([], s)
  | some zero ↦ ([], s)
  | some (suc i) ↦ (before b'=' s, after b'=' s)
]

unfoldable pub normalize_tag_owner : Bytes → Bytes
unfolding has_prefix
normalize_tag_owner owner =
    if str_eq owner (codes "NULL") || has_prefix (codes "+0000000000.000000") owner
    then []
    else owner

abbrev or_one : Option ℤ → ℤ
or_one none = pos 1
or_one (some n) = n

-- The parts of the name of a header field, between colons.
abbrev pub event_tag_of : List Bytes → Bytes × Bytes → Option TagOutput
event_tag_of [] kv = none
event_tag_of (number ∷ []) kv = none
event_tag_of (number ∷ (freq ∷ [])) kv = some (record empty_tag {
  tag_number = atoi_value number;
  frequency = or_one (atoi freq);
  key = kv.0;
  value = kv.1;
})
event_tag_of (number ∷ (freq ∷ (timestamp ∷ []))) kv = some (record empty_tag {
  tag_number = atoi_value number;
  frequency = or_one (atoi freq);
  timestamp = timestamp;
  key = kv.0;
  value = kv.1;
})
event_tag_of (number ∷ (freq ∷ (timestamp ∷ (owner ∷ rest)))) kv = some (record empty_tag {
  tag_number = atoi_value number;
  frequency = or_one (atoi freq);
  timestamp = timestamp;
  owner = normalize_tag_owner owner;
  key = kv.0;
  value = kv.1;
})

abbrev pub tag_behind : Bytes → Option Bytes → Option TagOutput
tag_behind value none = none
tag_behind value (some rest) = event_tag_of (split_n b':' 4 rest) (split_tag_key_value value)

unfoldable pub parse_event_tag_header : Bytes → Bytes → Option TagOutput
unfolding cut_prefix split_n split_tag_key_value normalize_tag_owner atoi_value
parse_event_tag_header name value = tag_behind value (cut_prefix (codes "event_tag:") name)

-- `sort.SliceStable` by the tag number: a tag goes behind those before it that are not larger.
unfoldable pub insert_tag : TagOutput → List TagOutput → List TagOutput
insert_tag t [] = t ∷ []
insert_tag t (u ∷ us) =
    let rest = insert_tag t us in if leb_ℤ t.tag_number u.tag_number then t ∷ (u ∷ us) else u ∷ rest

unfoldable pub sort_tags_by_number : List TagOutput → List TagOutput
unfolding insert_tag
sort_tags_by_number [] = []
sort_tags_by_number (t ∷ ts) = insert_tag t (sort_tags_by_number ts)

unfoldable pub event_tags : HeaderMap → List TagOutput
unfolding parse_event_tag_header
event_tags [] = []
event_tags ((k, v) ∷ m) =
    let rest = event_tags m in elim (parse_event_tag_header k v) [ none ↦ rest | some t ↦ t ∷ rest ]

-- The entries of the map come in the order in which `range` gives them, which Go leaves open.
unfoldable pub parse_event_tag_headers : HeaderMap → List TagOutput
unfolding event_tags sort_tags_by_number
parse_event_tag_headers entries = sort_tags_by_number (event_tags entries)

-- `recordMap[parts[0]] = parts[1]`, for a field with a `=`.
unfoldable pub add_field : HeaderMap → Bytes → HeaderMap
unfolding contains_byte before after
add_field m field =
    if contains_byte b'=' field then (before b'=' field, after b'=' field) ∷ m else m

unfoldable pub add_fields : (HeaderMap → Bytes → HeaderMap) → HeaderMap → List Bytes → HeaderMap
add_fields add m [] = m
add_fields add m (f ∷ fs) = add_fields add (add m f) fs

unfoldable pub parse_tab_delimited_line : Bytes → HeaderMap
unfolding add_field add_fields split
parse_tab_delimited_line line = add_fields add_field [] (split b'\t' line)

abbrev number_or_zero : Option Bytes → ℤ
number_or_zero none = pos 0
number_or_zero (some s) = elim (atoi s) [ none ↦ pos 0 | some n ↦ n ]

unfoldable pub parse_event_tag_payload_field : HeaderMap → TagOutput
unfolding lookup split_tag_key_value normalize_tag_owner
parse_event_tag_payload_field m =
    let kv = split_tag_key_value (get_or_empty (lookup (codes "tag_value") m)) in
    record empty_tag {
      frequency = number_or_zero (lookup (codes "tag_freq") m);
      key = kv.0;
      value = kv.1;
      timestamp = get_or_empty (lookup (codes "tag_timestamp") m);
      owner = normalize_tag_owner (get_or_empty (lookup (codes "owner") m));
    }

-- The key of the event, with the tag; `none` for an empty key.
unfoldable pub parse_event_tag_line : Bytes → Option (Bytes × TagOutput)
unfolding parse_tab_delimited_line parse_event_tag_payload_field lookup
parse_event_tag_line line =
    let m = parse_tab_delimited_line line in
    let key = get_or_empty (lookup (codes "_event_tag") m) in
    if str_eq key [] then none else some (key, parse_event_tag_payload_field m)

-- A record of `ParseTagsFromPayload`, by its fields.
abbrev payload_tag : List Bytes → Option TagOutput
payload_tag [] = none
payload_tag (f ∷ []) = none
payload_tag (f ∷ (v ∷ [])) =
    some (record empty_tag { frequency = or_one (atoi (trim_space f)); value = trim_space v })
payload_tag (f ∷ (c ∷ (v ∷ more))) = some (record empty_tag {
  frequency = or_one (atoi (trim_space f));
  category = trim_space c;
  value = trim_space v;
})

unfoldable pub payload_tags : List Bytes → List TagOutput
unfolding split trim_space
payload_tags [] = []
payload_tags (l ∷ ls) =
    let rest = payload_tags ls in
    let line = trim_space l in
    elim (payload_tag (split b'\t' line)) [ none ↦ rest | some t ↦ t ∷ rest ]

unfoldable pub parse_tags_from_payload : Bytes → List TagOutput
unfolding payload_tags split
parse_tags_from_payload payload = payload_tags (split b'\n' payload)
