-- ===== src/Payload/Batch.antt =====
-- The replies to a batch: `parseStoreBatchEventsPayload` and `parseLinkEventBatchPayload` of
-- message/responses.go, message/batch_status.go, and the switch of `DecodeMessage` that calls the
-- parsers.
use pod_os_go_client.Prelude.{
  ℕ, Bool, Option, none, some, List, [], ◌∷◌, ◌++◌, Bytes, codes, str_eq, ◌||◌, suc, zero,
  if◌then◌else◌,
}
use pod_os_go_client.Prelude.Int.{ℤ, pos, negsuc}
use pod_os_go_client.Prelude.Result.{Result, ok, panic}
use pod_os_go_client.Message.{LinkFields}
use pod_os_go_client.Text.{split, trim_right_nul}
use pod_os_go_client.Wire.Decoder.{
  DecodeError, HeaderMap, PayloadData, binary, get_or_empty, lookup, no_data, text,
}
use pod_os_go_client.Wire.Response.{first_of, set_number}
use pod_os_go_client.Payload.{add_fields, parse_tab_delimited_line}
use pod_os_go_client.Payload.Event.{EventResult, decode_event_fields, empty_event}

-- Two parts are a key and a value, any other number of parts is passed over.
abbrev pub set_parts : HeaderMap → List Bytes → HeaderMap
set_parts m [] = m
set_parts m (k ∷ []) = m
set_parts m (k ∷ (v ∷ [])) = (k, v) ∷ m
set_parts m (k ∷ (v ∷ (p ∷ ps))) = m

-- `strings.Split(field, "=")`
unfoldable pub add_strict_field : HeaderMap → Bytes → HeaderMap
unfolding split
add_strict_field m field = set_parts m (split b'=' field)

unfoldable pub parse_strict_line : Bytes → HeaderMap
unfolding add_strict_field add_fields split
parse_strict_line line = add_fields add_strict_field [] (split b'\t' line)

-- The lines of a payload, without the NUL bytes at their ends.
abbrev trimmed : List Bytes → List Bytes
trimmed [] = []
trimmed (l ∷ ls) = trim_right_nul l ∷ trimmed ls

unfoldable pub payload_lines : Bytes → List Bytes
unfolding split trim_right_nul
payload_lines payload = trimmed (split b'\n' payload)

-- The markers that end a batch. The second is an empty line by then.
abbrev pub is_marker : Bytes → Bool
is_marker line = str_eq line (0x0F ∷ []) || str_eq line (0 ∷ [])

-- Each line in its turn: an empty one is passed over, a marker ends the batch.
unfoldable pub each_line : {R : Type 0} → (Bytes → R → R) → List Bytes → R → R
each_line add [] r = r
each_line add (l ∷ ls) r =
    let next = if str_eq l [] then r else add l r in
    let rest = each_line add ls next in if is_marker l then r else rest

abbrev pub set_if_empty : Option Bytes → Bytes → Bytes
set_if_empty v [] = get_or_empty v
set_if_empty v (c ∷ s) = c ∷ s

-- `if n == 0 { if v, exists := …; err == nil { n = v } }`
abbrev pub set_if_zero : Option Bytes → ℤ → ℤ
set_if_zero v (negsuc n) = negsuc n
set_if_zero v (pos zero) = set_number v (pos 0)
set_if_zero v (pos (suc n)) = pos (suc n)

-- Events

pub record StoreBatchEventRecord : Type 0 where
  pub status : Bytes
  pub message : Bytes
  pub event_count : ℤ
  pub event_results : List EventResult

unfoldable pub add_event_record : Bytes → StoreBatchEventRecord → StoreBatchEventRecord
unfolding parse_strict_line lookup decode_event_fields
add_event_record line r =
    let m = parse_strict_line line in
    record {
      status = set_if_empty (lookup (codes "_status") m) r.status;
      message = set_if_empty (lookup (codes "_msg") m) r.message;
      event_count = set_if_zero (lookup (codes "_count") m) r.event_count;
      event_results = r.event_results ++ decode_event_fields m empty_event ∷ [];
    }

abbrev count_of {ℓ} : {A : Type ℓ} → List A → ℕ
count_of [] = 0
count_of (a ∷ rest) = suc (count_of rest)

abbrev or_count : ℤ → ℕ → ℤ
or_count (negsuc n) k = negsuc n
or_count (pos zero) k = pos k
or_count (pos (suc n)) k = pos (suc n)

-- `StoreBatchEventRecord{}`
abbrev pub no_events : StoreBatchEventRecord
no_events = record { status = []; message = []; event_count = pos 0; event_results = [] }

unfoldable pub parse_store_batch_events_text : Bytes → StoreBatchEventRecord
unfolding each_line payload_lines add_event_record
parse_store_batch_events_text payload =
    let r = each_line add_event_record (payload_lines payload) no_events in
    record r { event_count = or_count r.event_count (count_of r.event_results) }

-- `msg.Payload.Data.(string)`, which is not guarded, panics on any other payload.
unfoldable pub parse_store_batch_events_payload :
    PayloadData → Result DecodeError StoreBatchEventRecord
unfolding parse_store_batch_events_text
parse_store_batch_events_payload no_data = panic
parse_store_batch_events_payload (binary b) = panic
parse_store_batch_events_payload (text s) = ok (parse_store_batch_events_text s)

-- Links

pub record StoreLinkBatchEventRecord : Type 0 where
  pub status : Bytes
  pub message : Bytes
  pub total_link_requests_found : ℤ
  pub links_ok : ℤ
  pub links_with_errors : ℤ
  pub link_results : List LinkFields

abbrev float_of : (Bytes → Option ℕ) → Option Bytes → ℕ
float_of parse_float none = 0
float_of parse_float (some s) = elim (parse_float s) [ none ↦ 0 | some bits ↦ bits ]

abbrev text_of : Bytes → HeaderMap → Bytes
text_of key m = get_or_empty (lookup key m)

unfoldable pub link_of_record : (Bytes → Option ℕ) → HeaderMap → LinkFields
unfolding lookup first_of
link_of_record parse_float m = record {
  unique_id = text_of (codes "unique_id") m;
  id = text_of (codes "event_id") m;
  owner = text_of (codes "owner") m;
  timestamp = text_of (codes "timestamp") m;
  location = text_of (codes "loc") m;
  location_separator = text_of (codes "loc_delim") m;
  event_a = text_of (codes "event_id_a") m;
  event_b = text_of (codes "event_id_b") m;
  unique_id_a = text_of (codes "unique_id_a") m;
  unique_id_b = text_of (codes "unique_id_b") m;
  strength_a = float_of parse_float (lookup (codes "strength_a") m);
  strength_b = float_of parse_float (lookup (codes "strength_b") m);
  category = text_of (codes "category") m;
  link_type = text_of (codes "type") m;
  owner_unique_id = text_of (codes "owner_unique_id") m;
  owner_id = get_or_empty (first_of (codes "owner_id" ∷ codes "owner_event_id" ∷ []) m);
  status = [];
  message = [];
}

unfoldable pub add_link_record :
    (Bytes → Option ℕ) → Bytes → StoreLinkBatchEventRecord → StoreLinkBatchEventRecord
unfolding parse_tab_delimited_line lookup first_of link_of_record
add_link_record parse_float line r =
    let m = parse_tab_delimited_line line in
    record {
      status = set_if_empty (lookup (codes "_status") m) r.status;
      message = set_if_empty (first_of (codes "_status_info" ∷ codes "_msg" ∷ []) m) r.message;
      total_link_requests_found =
          set_if_zero (lookup (codes "_total_link_requests_found") m) r.total_link_requests_found;
      links_ok = set_if_zero (lookup (codes "_links_ok") m) r.links_ok;
      links_with_errors = set_if_zero (lookup (codes "_links_with_errors") m) r.links_with_errors;
      link_results = r.link_results ++ link_of_record parse_float m ∷ [];
    }

-- `StoreLinkBatchEventRecord{}`
abbrev pub no_links : StoreLinkBatchEventRecord
no_links = record {
  status = [];
  message = [];
  total_link_requests_found = pos 0;
  links_ok = pos 0;
  links_with_errors = pos 0;
  link_results = [];
}

-- `none` for a payload that is no string.
unfoldable pub parse_link_event_batch_payload :
    (Bytes → Option ℕ) → PayloadData → Option StoreLinkBatchEventRecord
unfolding each_line payload_lines add_link_record
parse_link_event_batch_payload parse_float no_data = none
parse_link_event_batch_payload parse_float (binary b) = none
parse_link_event_batch_payload parse_float (text s) =
    some (each_line (add_link_record parse_float) (payload_lines s) no_links)
