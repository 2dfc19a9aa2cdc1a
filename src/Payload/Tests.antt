-- ===== src/Payload/Tests.antt =====
-- The theorems on the payloads of replies at concrete ones.
use pod_os_go_client.Prelude.{
  ℕ, ◌≡◌, refl, ◌∙◌, inr, Option, none, some, [], ◌∷◌, ◌++◌, arith, Bytes, codes, length,
  length-append, str_eq, true,
}
use mathlib.Core.List.{Permᴰ}
use pod_os_go_client.Prelude.Int.{pos}
use pod_os_go_client.Prelude.Result.{ok, panic}
use pod_os_go_client.Intents.{store_batch_events_response}
use pod_os_go_client.Text.{after, before, contains_byte, equal_fold, trim_space}
use pod_os_go_client.Text.Laws.{every-Every, is_ascii}
use pod_os_go_client.Wire.{Frame}
use pod_os_go_client.Wire.Encoder.{frame_bytes, total_length}
use pod_os_go_client.Wire.Encoder.Ascii.{length-frame_bytes}
use pod_os_go_client.Wire.Encoder.Layout.{IsPlain, total_length-IsPlain}
use pod_os_go_client.Wire.Decoder.{
  HeaderMap, command_of, decode_header, find_intent, lookup, mime_type_of, text,
}
use pod_os_go_client.Wire.Decoder.Header.{header_text, no_equals, set_all}
use pod_os_go_client.Payload.{
  empty_tag, event_tags, normalize_tag_owner, parse_event_tag_header, parse_event_tag_headers,
}
use pod_os_go_client.Payload.Batch.{parse_link_event_batch_payload, parse_strict_line}
use pod_os_go_client.Payload.BinaryBatch.{decode_batch_reply-binary}
use pod_os_go_client.Payload.Failed.{batch_links_failed-first_record}
use pod_os_go_client.Payload.Order.{AllApart, parse_event_tag_headers-Permᴰ}
use pod_os_go_client.Payload.Record.{IsRecord, is_field_byte}
use pod_os_go_client.Payload.Reply.{batch_links_failed, decode_batch_reply}
use pod_os_go_client.Payload.Strict.{parse_strict_line-header_text, strict_fields}
use pod_os_go_client.Payload.TagHeader.{
  event_tag_name, no_colon, parse_event_tag_header-event_tag_name,
}

abbrev no_float : Bytes → Option ℕ
no_float s = none

parse_event_tag_header-event_tag_name_example :
    parse_event_tag_header
      (event_tag_name 7 2 (codes "+1700000000.000001") (codes "a:b"))
      (codes "color=red=ish")
    ≡ some (record empty_tag {
      tag_number = pos 7;
      frequency = pos 2;
      timestamp = codes "+1700000000.000001";
      owner = normalize_tag_owner (codes "a:b");
      key = codes "color";
      value = codes "red=ish";
    })
parse_event_tag_header-event_tag_name_example =
    parse_event_tag_header-event_tag_name 7 2 (codes "+1700000000.000001") (codes "a:b")
      (codes "color") (codes "red=ish") (omega arith) (omega arith)
      (every-Every no_colon (codes "+1700000000.000001") refl) (λ e. cc)
      (every-Every no_equals (codes "color") refl)

abbrev one : Bytes × Bytes
one = (codes "event_tag:1:1", codes "color=red")

abbrev two : Bytes × Bytes
two = (codes "event_tag:2:1", codes "color=blue")

tags_apart : AllApart (event_tags (two ∷ one ∷ []))
unfolding event_tags parse_event_tag_header
tags_apart = (((λ e. cc), tt), (tt, tt))

parse_event_tag_headers-Permᴰ_example :
    parse_event_tag_headers (two ∷ one ∷ []) ≡ parse_event_tag_headers (one ∷ two ∷ [])
parse_event_tag_headers-Permᴰ_example =
    parse_event_tag_headers-Permᴰ (Permᴰ.swap {l = []} refl refl) tags_apart

abbrev failed_record : HeaderMap
failed_record = (codes "_status", codes "ERROR") ∷ (codes "_msg", codes "no event with name=x") ∷ []

failed-IsRecord : IsRecord failed_record
failed-IsRecord =
    let f = every-Every is_field_byte in
    let e = every-Every no_equals in
    (
      f (codes "_status") refl,
      (
        e (codes "_status") refl,
        (
          f (codes "ERROR") refl,
          (
            f (codes "_msg") refl,
            (e (codes "_msg") refl, (f (codes "no event with name=x") refl, tt)),
          ),
        ),
      ),
    )

failed_status : lookup (codes "_status") (set_all [] failed_record) ≡ some (codes "ERROR")
unfolding lookup
failed_status = refl

error_status : equal_fold (trim_space (codes "ERROR")) (codes "ERROR") ≡ true
unfolding equal_fold trim_space
error_status = refl

batch_links_failed-first_record_example :
    (why : Bytes) × (batch_links_failed (
        parse_link_event_batch_payload no_float
          (text (header_text failed_record ++ b'\n' ∷ codes "_status=OK")))
      ≡ some why)
batch_links_failed-first_record_example =
    batch_links_failed-first_record no_float (codes "_status") (codes "ERROR")
      ((codes "_msg", codes "no event with name=x") ∷ []) (codes "_status=OK") (codes "ERROR")
      failed-IsRecord failed_status error_status

parse_strict_line-header_text_example :
    parse_strict_line (header_text failed_record) ≡ set_all [] (strict_fields failed_record)
parse_strict_line-header_text_example = parse_strict_line-header_text failed_record failed-IsRecord

-- The reply to StoreBatchEvents with a payload of bytes.
abbrev binary_reply : Frame
binary_reply = record {
  to = codes "me@gw";
  from = codes "mem@gw";
  header = codes "_type=store_batch\tmime=application/octet-stream";
  message_type = 1001;
  data_type = 2;
  payload = codes "_status=OK";
}

binary_reply-IsPlain : IsPlain binary_reply
binary_reply-IsPlain = record {
  to_ascii = every-Every is_ascii binary_reply.to refl;
  from_ascii = every-Every is_ascii binary_reply.from refl;
  header_ascii = every-Every is_ascii binary_reply.header refl;
  type_fits = omega arith;
  data_type_fits = omega arith;
}

binary_reply_total : total_length binary_reply ≡ 131
binary_reply_total = total_length-IsPlain binary_reply binary_reply-IsPlain ∙ omega arith

binary_reply-length : length (frame_bytes binary_reply) ≡ 131
binary_reply-length =
    (length-frame_bytes binary_reply (omega arith) (omega arith)
        (omega (arith, binary_reply_total))).1
      (
        binary_reply-IsPlain.to_ascii, binary_reply-IsPlain.from_ascii,
        binary_reply-IsPlain.header_ascii,
      )
    ∙ binary_reply_total

binary_reply_intent :
    find_intent (some (pos 1001)) (command_of (decode_header binary_reply.header))
    ≡ ok store_batch_events_response
unfolding find_intent command_of decode_header contains_byte trim_space before after
binary_reply_intent = refl

binary_reply_mime :
    str_eq (mime_type_of (decode_header binary_reply.header)) (codes "application/octet-stream")
    ≡ true
unfolding decode_header contains_byte trim_space before after lookup
binary_reply_mime = refl

decode_batch_reply-binary_example :
    decode_batch_reply no_float (frame_bytes binary_reply ++ codes "x") ≡ panic
decode_batch_reply-binary_example =
    decode_batch_reply-binary no_float binary_reply (codes "x") store_batch_events_response
      binary_reply-IsPlain (omega (arith, binary_reply_total))
      (omega (arith, binary_reply-length, length-append (frame_bytes binary_reply) (codes "x")))
      binary_reply_intent (inr refl) (omega arith) binary_reply_mime
