-- ===== src/Message/Encode/Panics.antt =====
-- When `EncodeMessage` panics, and when it cannot.
use pod_os_go_client.Prelude.{
  ◌≡◌, refl, ◌≢◌, Bool, true, false, ◌||◌, Option, none, some, List, [], ◌∷◌, arith, Bytes, codes,
  str_eq,
}
use pod_os_go_client.Prelude.Result.{ok, err, panic}
use pod_os_go_client.Message.Encode.Safe.{
  follow-Safe, five-Safe, >>=-Safe, Safe, check_from-Safe, check_payload_size-Safe, check_to-Safe,
  encode_frame-Safe, err-Safe, if-Safe, ok-Safe, require_link_wire_fields-Safe,
}
use pod_os_go_client.Message.Encode.{
  encode_present, check_link, encode_message, plain_bytes, batch_links_bytes, payload_bytes,
  check_payload_size,
}
use pod_os_go_client.Message.Header.{HeaderText}
use pod_os_go_client.Message.Construct.{construct_header, construct_by_name}
use pod_os_go_client.Wire.Encoder.{invalid_data, check_from, check_to}
use pod_os_go_client.Message.{
  Message, BatchLinkEventSpec, EventFields, Externals, link_of, payload_data, Data, LinkFields,
  batch_event_specs, batch_link_event_specs, byte_slice, nil, other_type, string, string_slice,
  tag_list, tag_slice,
}
use pod_os_go_client.Message.Format.{
  format_batch_link_events_payload, link_records, require_link_wire_fields,
}
use pod_os_go_client.Message.Header.Link.{link_events_message_header, unlink_events_message_header}
use pod_os_go_client.Message.Header.Store.{
  store_batch_tags_message_header, store_data_message_header, store_event_message_header,
}

construct_by_name-Safe :
    (x : Externals) (m : Message) (n : Bytes) {v : EventFields} {l : LinkFields}
    → m.event ≡ some v
    → link_of m ≡ some l
    → Safe (construct_by_name x m n)
unfolding construct_by_name store_event_message_header store_data_message_header
    link_events_message_header unlink_events_message_header store_batch_tags_message_header
construct_by_name-Safe x m n ev lk =
    let event : Safe (store_event_message_header x m) = follow-Safe m.event _ ev (λ v. ok-Safe _) in
    let data_of_event : Safe (store_data_message_header x m) =
      follow-Safe m.event _ ev (λ v. ok-Safe _) in
    let tags : Safe (store_batch_tags_message_header m) =
      follow-Safe m.event _ ev (λ v. ok-Safe _) in
    let unlink : Safe (unlink_events_message_header m) =
      follow-Safe (link_of m) _ lk (λ v. ok-Safe _) in
    let link : Safe (link_events_message_header x m) =
      follow-Safe m.event _ ev (λ v. follow-Safe (link_of m) _ lk (λ w. ok-Safe _)) in
    search (if-Safe, ok-Safe, event, data_of_event, tags, unlink, link) depth 20 fits 3000

link_records-Safe : (x : Externals) (ls : List BatchLinkEventSpec) → Safe (link_records x ls)
unfolding link_records
link_records-Safe x [] = ok-Safe _
link_records-Safe x (l ∷ ls) =
    search (>>=-Safe, ok-Safe, require_link_wire_fields-Safe, link_records-Safe x ls)

batch_links_bytes-Safe : (x : Externals) (d : Data) → Safe (batch_links_bytes x d)
unfolding batch_links_bytes format_batch_link_events_payload
batch_links_bytes-Safe x nil = ok-Safe _
batch_links_bytes-Safe x other_type = ok-Safe _
batch_links_bytes-Safe x (string s) = ok-Safe _
batch_links_bytes-Safe x (byte_slice s) = ok-Safe _
batch_links_bytes-Safe x (string_slice ss) = ok-Safe _
batch_links_bytes-Safe x (batch_event_specs es) = ok-Safe _
batch_links_bytes-Safe x (batch_link_event_specs ls) =
    search (>>=-Safe, ok-Safe, link_records-Safe x ls)
batch_links_bytes-Safe x (tag_list ts) = ok-Safe _
batch_links_bytes-Safe x (tag_slice ts) = ok-Safe _

-- No payload, a string or a slice of strings.
abbrev pub is_plain_data : Data → Bool
is_plain_data nil = true
is_plain_data (string s) = true
is_plain_data (string_slice ss) = true
is_plain_data _ = false

-- The intents whose payload is formatted by a rule of their own.
abbrev pub has_payload_rule : Bytes → Bool
has_payload_rule n =
    str_eq n (codes "GatewayId")
    || (str_eq n (codes "GatewayStreamOn")
        || (str_eq n (codes "StoreBatchEvents")
            || (str_eq n (codes "StoreBatchLinks") || str_eq n (codes "StoreBatchTags"))))

plain_bytes-Safe : (d : Data) → is_plain_data d ≡ true → Safe (plain_bytes d)
unfolding plain_bytes
plain_bytes-Safe nil e = ok-Safe _
plain_bytes-Safe other_type e = cc
plain_bytes-Safe (string s) e = ok-Safe _
plain_bytes-Safe (byte_slice s) e = cc
plain_bytes-Safe (string_slice ss) e = ok-Safe _
plain_bytes-Safe (batch_event_specs es) e = cc
plain_bytes-Safe (batch_link_event_specs ls) e = cc
plain_bytes-Safe (tag_list ts) e = cc
plain_bytes-Safe (tag_slice ts) e = cc

plain_bytes-panic : (d : Data) → is_plain_data d ≡ false → plain_bytes d ≡ panic
unfolding plain_bytes
plain_bytes-panic nil e = cc
plain_bytes-panic other_type e = refl
plain_bytes-panic (string s) e = cc
plain_bytes-panic (byte_slice s) e = refl
plain_bytes-panic (string_slice ss) e = cc
plain_bytes-panic (batch_event_specs es) e = refl
plain_bytes-panic (batch_link_event_specs ls) e = refl
plain_bytes-panic (tag_list ts) e = refl
plain_bytes-panic (tag_slice ts) e = refl

payload_bytes-Safe :
    (x : Externals) (m : Message)
    → (has_payload_rule m.intent.name || is_plain_data (payload_data m)) ≡ true
    → Safe (payload_bytes x m)
unfolding payload_bytes
payload_bytes-Safe x m e =
    let is : Bytes → Bool = str_eq m.intent.name in
    five-Safe (is (codes "GatewayId")) (is (codes "GatewayStreamOn"))
      (is (codes "StoreBatchEvents")) (is (codes "StoreBatchLinks")) (is (codes "StoreBatchTags"))
      (ok-Safe []) (ok-Safe []) (ok-Safe _) (batch_links_bytes-Safe x (payload_data m)) (ok-Safe _)
      (λ other. plain_bytes-Safe (payload_data m) (rw other at e))

payload_bytes-panic :
    (x : Externals) (m : Message)
    → has_payload_rule m.intent.name ≡ false
    → is_plain_data (payload_data m) ≡ false
    → payload_bytes x m ≡ panic
unfolding payload_bytes
payload_bytes-panic x m r d =
    let n = m.intent.name in
    let a : str_eq n (codes "GatewayId") ≡ false = ground arith in
    let b : str_eq n (codes "GatewayStreamOn") ≡ false = ground arith in
    let c : str_eq n (codes "StoreBatchEvents") ≡ false = ground arith in
    let f : str_eq n (codes "StoreBatchLinks") ≡ false = ground arith in
    let g : str_eq n (codes "StoreBatchTags") ≡ false = ground arith in
    rw a (rw b (rw c (rw f (rw g (plain_bytes-panic (payload_data m) d)))))

check_link-Safe : (m : Message) → Safe (check_link m)
unfolding check_link
check_link-Safe m = if-Safe _ (go (link_of m)) (ok-Safe _)
  where
    go :
        (o : Option LinkFields)
        → Safe (elim o [ none ↦ err invalid_data | some l ↦ require_link_wire_fields l ])
    go none = err-Safe _
    go (some l) = require_link_wire_fields-Safe l

-- `EncodeMessage` does not panic on a message that has an event and a link, when its payload is
-- absent, a string or a slice of strings, or its intent is one of the five with a rule of its own for
-- the payload.
pub encode_message-ne-panic :
    (x : Externals) (m : Message) (v : EventFields) (l : LinkFields)
    → m.event ≡ some v
    → link_of m ≡ some l
    → (has_payload_rule m.intent.name || is_plain_data (payload_data m)) ≡ true
    → encode_message x (some m) ≢ panic
unfolding encode_message encode_present construct_header
encode_message-ne-panic x m v l ev lk d =
    search
      (
        >>=-Safe,
        check_payload_size-Safe,
        check_link-Safe,
        construct_by_name-Safe x m m.intent.name ev lk,
        check_to-Safe,
        check_from-Safe,
        payload_bytes-Safe x m d,
        encode_frame-Safe,
      )
      depth 12 fits 3000

-- `EncodeMessage` panics on a message of any other intent with a payload of any other type, a slice of
-- bytes for one, once the guards on the size, the link and the addresses have passed and the header is
-- made.
pub encode_message-panic :
    (x : Externals) (m : Message) (h : HeaderText)
    → check_payload_size (payload_data m) ≡ ok tt
    → check_link m ≡ ok tt
    → construct_header x m ≡ ok h
    → check_to m.to ≡ ok tt
    → check_from m.from ≡ ok tt
    → has_payload_rule m.intent.name ≡ false
    → is_plain_data (payload_data m) ≡ false
    → encode_message x (some m) ≡ panic
unfolding encode_message encode_present
encode_message-panic x m h size link header good_to good_from r d =
    rw size
      (rw link (rw header (rw good_to (rw good_from (rw (payload_bytes-panic x m r d) refl)))))
