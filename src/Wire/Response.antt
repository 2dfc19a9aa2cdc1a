-- ===== src/Wire/Response.antt =====
-- `transformHeaderMaptoMessageStruct` of message/decoder.go: what the response takes from the header
-- map. The event fields, the message id and the payload fields are left out.
use pod_os_go_client.Prelude.{
  ℕ, ◌^◌, ◌<◌, ◌≡◌, ◌∙◌, Option, none, some, List, [], ◌∷◌, arith, Bytes, codes,
}
use pod_os_go_client.Prelude.Int.{ℤ, pos}
use pod_os_go_client.Wire.Decoder.{lookup, HeaderMap, or_else}
use pod_os_go_client.Text.Laws.{Every-map}
use pod_os_go_client.Strconv.{atoi, digits_fixed}
use pod_os_go_client.Strconv.Laws.{
  digits_fixed-decimal-Every, is_decimal, is_digit, parse_digits-decimal,
}
use pod_os_go_client.Wire.SizeParam.Laws.{digits_fixed-ne-nil, parse_int-digits}

pub record Response : Type 0 where
  pub status : Bytes
  pub message : Bytes
  pub total_events : ℤ
  pub storage_success_count : ℤ
  pub storage_error_count : ℤ
  pub start_result : ℤ
  pub end_result : ℤ
  pub returned_events : ℤ
  pub link_count : ℤ
  pub tag_count : ℤ
  pub link_id : Bytes

-- `if v, exists := headerMap[key]; exists { field = v }`
abbrev pub set_text : Option Bytes → Bytes → Bytes
set_text none old = old
set_text (some v) old = v

abbrev parsed : Option ℤ → ℤ → ℤ
parsed none old = old
parsed (some n) old = n

abbrev pub set_number : Option Bytes → ℤ → ℤ
set_number none old = old
set_number (some v) old = parsed (atoi v) old

-- The first of the keys that is in the map decides, whether its value is a number or not.
unfoldable pub first_of : List Bytes → HeaderMap → Option Bytes
unfolding lookup
first_of [] h = none
first_of (k ∷ ks) h = or_else (lookup k h) (first_of ks h)

unfoldable pub total_events_keys : List Bytes
total_events_keys =
    codes "_total_event_hits"
    ∷ codes "_count"
    ∷ codes "total_link_requests_found"
    ∷ codes "_total_link_requests_found"
    ∷ []

unfoldable pub link_count_keys : List Bytes
link_count_keys = codes "_set_link_count" ∷ codes "_link_count" ∷ []

unfoldable pub transform_header_map : HeaderMap → Response → Response
unfolding first_of total_events_keys link_count_keys
transform_header_map h r = record {
  status = set_text (lookup (codes "_status") h) r.status;
  message = set_text (lookup (codes "_msg") h) r.message;
  total_events = set_number (first_of total_events_keys h) r.total_events;
  storage_success_count =
      set_number (first_of (codes "links_ok" ∷ codes "_links_ok" ∷ []) h) r.storage_success_count;
  storage_error_count =
      set_number (first_of (codes "links_with_errors" ∷ codes "_links_with_errors" ∷ []) h)
        r.storage_error_count;
  start_result = set_number (lookup (codes "_start_result") h) r.start_result;
  end_result = set_number (lookup (codes "_end_result") h) r.end_result;
  returned_events = set_number (lookup (codes "_returned_event_hits") h) r.returned_events;
  link_count = set_number (first_of link_count_keys h) r.link_count;
  tag_count = set_number (lookup (codes "_tag_count") h) r.tag_count;
  link_id = set_text (lookup (codes "link_event") h) r.link_id;
}

-- A count written with nine digits is read back.
pub atoi-digits : (n : ℕ) → n < 10 ^ 9 → atoi (digits_fixed 10 9 n) ≡ some (pos n)
unfolding atoi
atoi-digits n h =
    parse_int-digits 10 (2 ^ 63) n _
      (Every-map is_decimal is_digit (λ c d. ground arith) _ (digits_fixed-decimal-Every 9 n))
      (digits_fixed-ne-nil 10 9 n (omega arith)) (parse_digits-decimal 9 n h)
    ∙ ground arith
