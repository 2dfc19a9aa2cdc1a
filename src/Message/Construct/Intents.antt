-- ===== src/Message/Construct/Intents.antt =====
-- A Neural Memory request is recognised by the header that `ConstructHeader` gives it.
use pod_os_go_client.Prelude.{
  ◌≡◌, refl, ap, ◌∙◌, some, [], ◌++◌, Bytes, codes, ltb, length, inl, inr, Bool-cases,
}
use pod_os_go_client.Prelude.Int.{pos}
use pod_os_go_client.Prelude.Result.{ok}
use pod_os_go_client.Message.Construct.Command.{
  is_get_event, is_get_events_for_tags, is_link_event, is_store_batch_events, is_store_batch_links,
  is_store_batch_tags, is_store_data, is_store_event, is_unlink_event, IsMemoryRequest, IsRequest,
  construct_header-IsRequest, store_batch-absent,
}
use pod_os_go_client.Wire.Decoder.Parts.{data_of}
use pod_os_go_client.Message.{Message, Externals}
use pod_os_go_client.Wire.Decoder.{
  lookup, command_of, decode_header, find_intent, HeaderMap, mime_type_of, parse_payload,
}
use pod_os_go_client.Message.Header.Decode.{
  AllCarried, AllKeys, LastCarried, decode_header-header_string, is_key, is_key-IsKey, last_entry,
}
use pod_os_go_client.Message.Header.{HeaderText, header_string, written}
use pod_os_go_client.Intents.{
  store_batch_events, IntentType, command_to_intent, intent, intent_from_command,
  intent_from_message_type_and_command,
}
use pod_os_go_client.Message.Header.Lookup.{command_of-set_all, mime_type_of-set_all}
use pod_os_go_client.Message.Construct.{construct_header}
use pod_os_go_client.Wire.Decoder.Header.{set_all}

request-command :
    (c : Bytes) (h : HeaderText)
    → IsRequest c h
    → AllCarried h.slots
    → LastCarried h.last_id
    → command_of (decode_header (header_string h)) ≡ c
unfolding is_key written
request-command c h (ss, is, alone, keys) hv hl =
    let all : AllKeys h.slots = rw is (is_key-IsKey (codes "_db_cmd") refl, keys) in
    ap command_of (decode_header-header_string h all hv hl)
    ∙ ap (λ sl. command_of (set_all [] (written sl ++ last_entry h.last_id))) is
    ∙ command_of-set_all c ss h.last_id alone

find_intent-request :
    (t : IntentType)
    → IsMemoryRequest t
    → find_intent (some (pos (intent t).message_type)) (intent t).neural_memory_command ≡ ok t
unfolding find_intent intent intent_from_message_type_and_command intent_from_command lookup
    command_to_intent
find_intent-request _ is_store_event = refl
find_intent-request _ is_store_data = refl
find_intent-request _ is_store_batch_events = refl
find_intent-request _ is_store_batch_tags = refl
find_intent-request _ is_get_event = refl
find_intent-request _ is_get_events_for_tags = refl
find_intent-request _ is_link_event = refl
find_intent-request _ is_unlink_event = refl
find_intent-request _ is_store_batch_links = refl

request-keys : (c : Bytes) (h : HeaderText) → IsRequest c h → AllKeys h.slots
unfolding is_key
request-keys c h (ss, is, alone, keys) = rw is (is_key-IsKey (codes "_db_cmd") refl, keys)

data_of-no_mime :
    (h : HeaderMap) (b : Bytes)
    → mime_type_of h ≡ []
    → parse_payload store_batch_events (data_of h b) ≡ ok tt
unfolding parse_payload
data_of-no_mime h b e = rw e (elim (Bool-cases (ltb 0 (length b))) [
  | inl some_bytes ↦ rw some_bytes refl
  | inr empty ↦ rw empty refl
])

-- The parser of the payload does not panic on a Neural Memory request.
pub parse_payload-request :
    (x : Externals) (m : Message) (t : IntentType) (h : HeaderText) (payload : Bytes)
    → IsMemoryRequest t
    → m.intent ≡ intent t
    → construct_header x m ≡ ok h
    → AllCarried h.slots
    → LastCarried h.last_id
    → parse_payload t (data_of (decode_header (header_string h)) payload) ≡ ok tt
unfolding parse_payload
parse_payload-request x m _ h payload is_store_event i e hv hl = refl
parse_payload-request x m _ h payload is_store_data i e hv hl = refl
parse_payload-request x m _ h payload is_store_batch_tags i e hv hl = refl
parse_payload-request x m _ h payload is_get_event i e hv hl = refl
parse_payload-request x m _ h payload is_get_events_for_tags i e hv hl = refl
parse_payload-request x m _ h payload is_link_event i e hv hl = refl
parse_payload-request x m _ h payload is_unlink_event i e hv hl = refl
parse_payload-request x m _ h payload is_store_batch_links i e hv hl = refl
parse_payload-request x m _ h payload is_store_batch_events i e hv hl =
    let keys = request-keys _ h (construct_header-IsRequest x m _ h is_store_batch_events i e) in
    let (mime, mimetype) = store_batch-absent x m h i e in
    data_of-no_mime _ payload (
      ap mime_type_of (decode_header-header_string h keys hv hl)
      ∙ mime_type_of-set_all h.slots h.last_id mime mimetype)

-- For every Neural Memory request, `DecodeMessage` finds the intent of the message again from its
-- message type and the header that `ConstructHeader` made, when no value written into the header has a
-- tab in it or white space at its ends.
pub find_intent-construct_header :
    (x : Externals) (m : Message) (t : IntentType) (h : HeaderText)
    → IsMemoryRequest t
    → m.intent ≡ intent t
    → construct_header x m ≡ ok h
    → AllCarried h.slots
    → LastCarried h.last_id
    → find_intent (some (pos m.intent.message_type)) (command_of (decode_header (header_string h)))
      ≡ ok t
find_intent-construct_header x m t h r i e hv hl =
    ap (find_intent (some (pos m.intent.message_type)))
      (request-command _ h (construct_header-IsRequest x m t h r i e) hv hl)
    ∙ ap (λ j. find_intent (some (pos j.message_type)) (intent t).neural_memory_command) i
    ∙ find_intent-request t r
