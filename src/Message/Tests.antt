-- ===== src/Message/Tests.antt =====
-- Concrete messages, their headers and their frames.
use pod_os_go_client.Prelude.{
  ◌≡◌, refl, ◌∙◌, ◌≢◌, none, some, [], ◌∷◌, ◌++◌, arith, le→leb, codes, length, length-append,
}
use pod_os_go_client.Prelude.Int.{pos, negsuc}
use pod_os_go_client.Prelude.Result.{ok, panic}
use pod_os_go_client.Text.{after, before, contains_byte}
use pod_os_go_client.Wire.Decoder.{
  decode_message, strip_routing, decode_header, find_intent, command_of,
}
use pod_os_go_client.Wire.{Frame, max_message_size}
use pod_os_go_client.Wire.Encoder.Layout.{IsPlain, total_length-IsPlain}
use pod_os_go_client.Wire.Decoder.Parts.{data_of}
use pod_os_go_client.Message.Encode.RoundTrip.{decode_message-encode_message}
use pod_os_go_client.Wire.Encoder.{total_length, encode_frame, frame_bytes, check_from, check_to}
use pod_os_go_client.Message.Encode.{
  encode_present, frame_of, plain_bytes, check_link, check_payload_size, encode_message,
  payload_bytes,
}
use pod_os_go_client.Text.Laws.{every-Every, is_ascii}
use pod_os_go_client.Wire.Encoder.Ascii.{length-frame_bytes}
use pod_os_go_client.Message.{
  BatchEventSpec, TagValue, Message, Data, EventFields, Externals, LinkFields, link_of,
  payload_data, payload_mime_type, tags_of,
}
use pod_os_go_client.Message.Header.Decode.{
  AllCarried, LastCarried, all_carried-AllCarried, is_carried, is_carried-IsCarried,
}
use pod_os_go_client.Message.Header.{HeaderText, header_string}
use pod_os_go_client.Intents.{IntentType, intent}
use pod_os_go_client.Message.Construct.{construct_by_name, construct_header}
use pod_os_go_client.Message.Encode.Batches.{encode_message-with_batches, with_batches}
use mathlib.Core.Option
use pod_os_go_client.Message.Encode.Panics.{encode_message-ne-panic, encode_message-panic}
use pod_os_go_client.Message.Construct.Intents.{find_intent-construct_header}
use pod_os_go_client.Message.Format.{format_uint, itoa, serialize_tag_value, tag_name, tag_text}
use pod_os_go_client.Message.Construct.Command.{is_store_event}
use pod_os_go_client.Message.Header.Store.{store_event_message_header, store_event_slots, tag_slots}

abbrev outside : Externals
outside = record {
  get_timestamp = codes "+1700000000.000000";
  format_float = λ size bits. codes "0.5";
  print_float = λ bits. codes "0.5";
}

abbrev event : EventFields
event = record {
  unique_id = codes "u-1";
  id = [];
  owner = codes "$sys";
  owner_unique_id = [];
  timestamp = [];
  location = codes "TERRA|47.6";
  location_separator = codes "|";
  event_type = [];
  status = [];
  hits = pos 0;
}

abbrev link : LinkFields
link = record {
  unique_id = codes "l-1";
  id = [];
  owner = codes "$sys";
  timestamp = codes "+1700000000.000000";
  location = codes "TERRA";
  location_separator = codes "|";
  event_a = [];
  event_b = [];
  unique_id_a = codes "u-1";
  unique_id_b = codes "u-2";
  strength_a = 0x3FE0000000000000;
  strength_b = 0xBFE0000000000000;
  category = codes "near";
  link_type = codes "edge";
  owner_unique_id = [];
  owner_id = codes "o";
  status = [];
  message = [];
}

abbrev message : IntentType → Data → Message
message t d = record {
  to = codes "mem@zeroth";
  from = codes "me@zeroth";
  intent = intent t;
  client_name = codes "me";
  message_id = codes "m-7";
  passcode = [];
  user_name = [];
  event = some event;
  payload = some (record { value = d; data_type = 0; mime_type = codes "text/plain" });
  neural_memory = some (record {
    get_event = none;
    get_events_for_tags = none;
    search = none;
    link = some link;
    batch_links = [];
    batch_events = [];
    tags = record { frequency = pos 2; key = codes "k"; value = TagValue.int (negsuc 4) } ∷ [];
  });
  response = none;
}

abbrev stored : Message
stored = message IntentType.store_event (Data.string (codes "hello"))

abbrev stored_header : HeaderText
stored_header = record {
  slots = store_event_slots outside stored event;
  last_id = some (codes "m-7");
}

stored-header : construct_header outside stored ≡ ok stored_header
unfolding construct_header construct_by_name store_event_message_header intent
stored-header = refl

stored-text :
    header_string stored_header
    ≡ codes "_db_cmd=store\tunique_id=u-1\towner=$sys\ttimestamp=+1700000000.000000\tloc_delim=|\t"
      ++ codes "loc=TERRA|47.6\ttype=store event\tmime=text/plain\ttag_0001=2:k=-5\t_msg_id=m-7"
unfolding header_string payload_mime_type tags_of tag_slots tag_name tag_text itoa format_uint
    serialize_tag_value
stored-text = refl

stored-AllCarried : AllCarried stored_header.slots
unfolding is_carried payload_mime_type tags_of tag_slots tag_name tag_text itoa format_uint
    serialize_tag_value
stored-AllCarried = all_carried-AllCarried stored_header.slots refl

id-LastCarried : LastCarried (some (codes "m-7"))
unfolding is_carried
id-LastCarried = is_carried-IsCarried (codes "m-7") refl

find_intent-construct_header_example :
    find_intent (some (pos 1000)) (command_of (decode_header (header_string stored_header)))
    ≡ ok IntentType.store_event
unfolding intent
find_intent-construct_header_example =
    find_intent-construct_header outside stored IntentType.store_event stored_header is_store_event
      refl stored-header stored-AllCarried id-LastCarried

encode_message-ne-panic_example : encode_message outside (some stored) ≢ panic
unfolding payload_data link_of intent
encode_message-ne-panic_example = encode_message-ne-panic outside stored event link refl refl refl

encode_message-panic_example :
    encode_message outside (some (message IntentType.store_event (Data.byte_slice (1 ∷ 2 ∷ []))))
    ≡ panic
unfolding payload_data check_payload_size check_link construct_header construct_by_name
    store_event_message_header check_to check_from intent contains_byte before after
encode_message-panic_example =
    encode_message-panic outside (message IntentType.store_event (Data.byte_slice (1 ∷ 2 ∷ [])))
      stored_header refl refl refl refl refl refl refl

abbrev stored_frame : Frame
stored_frame = frame_of stored stored_header (codes "hello")

stored-IsPlain : IsPlain stored_frame
unfolding intent header_string payload_mime_type tags_of tag_slots tag_name tag_text itoa
    format_uint serialize_tag_value
stored-IsPlain = record {
  to_ascii = every-Every is_ascii stored_frame.to refl;
  from_ascii = every-Every is_ascii stored_frame.from refl;
  header_ascii = every-Every is_ascii stored_frame.header refl;
  type_fits = omega arith;
  data_type_fits = omega arith;
}

stored_total : total_length stored_frame ≡ 242
unfolding intent header_string payload_mime_type tags_of tag_slots tag_name tag_text itoa
    format_uint serialize_tag_value
stored_total = total_length-IsPlain stored_frame stored-IsPlain ∙ omega arith

stored-bytes : payload_bytes outside stored ≡ ok (codes "hello")
unfolding payload_bytes plain_bytes payload_data intent
stored-bytes = refl

stored-encoded : encode_message outside (some stored) ≡ ok (frame_bytes stored_frame)
unfolding encode_message encode_present check_payload_size check_link check_to check_from
    encode_frame payload_data intent contains_byte before after construct_header construct_by_name
    store_event_message_header payload_bytes plain_bytes
stored-encoded =
    rw (le→leb (total_length stored_frame) max_message_size (omega (arith, stored_total))) refl

stored_length : length (frame_bytes stored_frame) ≡ 242
stored_length =
    (length-frame_bytes stored_frame stored-IsPlain.type_fits stored-IsPlain.data_type_fits
        (omega (arith, stored_total))).1
      (stored-IsPlain.to_ascii, stored-IsPlain.from_ascii, stored-IsPlain.header_ascii)
    ∙ stored_total

decode_message-encode_message_example :
    decode_message (frame_bytes stored_frame ++ codes "x")
    ≡ ok (record {
      to = codes "mem@zeroth";
      from = strip_routing (codes "me@zeroth");
      headers = decode_header (header_string stored_header);
      intent = IntentType.store_event;
      data_type = pos 0;
      payload = data_of (decode_header (header_string stored_header)) (codes "hello");
    })
decode_message-encode_message_example =
    decode_message-encode_message outside stored IntentType.store_event stored_header
      (codes "hello") (codes "x") (frame_bytes stored_frame) is_store_event refl stored-header
      stored-bytes stored-AllCarried id-LastCarried stored-IsPlain stored-encoded
      (λ e. absurd (omega (arith, stored_total)))
      (omega (arith, stored_length, length-append (frame_bytes stored_frame) (codes "x")))

abbrev one_event : BatchEventSpec
one_event = record { event = event; tags = [] }

encode_message-with_batches_example :
    encode_message outside (
      some (record stored {
        neural_memory = Option.map (with_batches (one_event ∷ []) []) stored.neural_memory;
      }))
    ≡ encode_message outside (some stored)
encode_message-with_batches_example = encode_message-with_batches outside stored (one_event ∷ []) []
