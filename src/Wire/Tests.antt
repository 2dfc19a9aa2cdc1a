-- ===== src/Wire/Tests.antt =====
-- The theorems on the wire format at concrete messages.
use pod_os_go_client.Prelude.{
  ℕ, zero, suc, ◌≤◌, ◌≡◌, refl, ap, ◌∙◌, ◌↔◌, some, [], ◌∷◌, ◌++◌, arith, le→leb, Bytes, codes,
  length, length-append,
}
use pod_os_go_client.Prelude.Int.{pos}
use pod_os_go_client.Prelude.Result.{ok}
use pod_os_go_client.Intents.{store_event}
use pod_os_go_client.Wire.Decoder.{
  unnamed, fails, invalid_size_param, decode_message, find_intent, parse_payload, command_of,
  decode_header, strip_routing,
}
use pod_os_go_client.Text.Laws.{every-Every, Every, is_ascii}
use pod_os_go_client.Wire.Decoder.RoundTrip.{decode_message-max_frame, decode_message-encode_frame}
use pod_os_go_client.Wire.Encoder.{total_length, check_from, check_to, encode_frame, frame_bytes}
use pod_os_go_client.Wire.RawEdit.{replace_from_in_raw_message}
use pod_os_go_client.Text.{contains_byte, trim_space, before, after}
use pod_os_go_client.Wire.{Frame, max_message_size}
use pod_os_go_client.Wire.Encoder.Layout.{IsPlain, total_length-IsPlain}
use pod_os_go_client.Wire.Decoder.Parts.{data_of}
use pod_os_go_client.Wire.Encoder.Ascii.{length-frame_bytes}
use pod_os_go_client.Wire.RawEdit.Commutes.{replace_from-encode_frame}

-- A request of the Neural Memory, from an address with routing data.
abbrev store : Frame
store = record {
  to = codes "mem@gw";
  from = codes "me@gw|r1";
  header = codes "_db_cmd=store\tk=v";
  message_type = 1000;
  data_type = 2;
  payload = codes "hello";
}

store-IsPlain : IsPlain store
store-IsPlain = record {
  to_ascii = every-Every is_ascii store.to refl;
  from_ascii = every-Every is_ascii store.from refl;
  header_ascii = every-Every is_ascii store.header refl;
  type_fits = omega arith;
  data_type_fits = omega arith;
}

store_total : total_length store ≡ 99
store_total = total_length-IsPlain store store-IsPlain ∙ omega arith

-- The addresses of a frame are well formed, and the frame fits.
encode_frame-fits :
    (f : Frame)
    → check_to f.to ≡ ok tt
    → check_from f.from ≡ ok tt
    → total_length f ≤ max_message_size
    → encode_frame f ≡ ok (frame_bytes f)
unfolding encode_frame
encode_frame-fits f t r h = rw t (rw r (rw (le→leb _ _ h) refl))

store_encoded : encode_frame store ≡ ok (frame_bytes store)
unfolding check_to check_from contains_byte before after
store_encoded = encode_frame-fits store refl refl (omega (arith, store_total))

store_frame_length : length (frame_bytes store) ≡ 99
store_frame_length =
    (length-frame_bytes store (omega arith) (omega arith) (omega (arith, store_total))).1
      (store-IsPlain.to_ascii, store-IsPlain.from_ascii, store-IsPlain.header_ascii)
    ∙ store_total

store_intent :
    find_intent (some (pos store.message_type)) (command_of (decode_header store.header))
    ≡ ok store_event
unfolding find_intent command_of decode_header contains_byte trim_space before after
store_intent = refl

decode_message-encode_frame_example :
    decode_message (frame_bytes store ++ codes "x")
    ≡ ok (record {
      to = store.to;
      from = strip_routing store.from;
      headers = decode_header store.header;
      intent = store_event;
      data_type = pos 2;
      payload = data_of (decode_header store.header) store.payload;
    })
decode_message-encode_frame_example =
    decode_message-encode_frame store (codes "x") (frame_bytes store) store_event store-IsPlain
      store_encoded (λ e. absurd (omega (arith, store_total)))
      (omega (arith, store_frame_length, length-append (frame_bytes store) (codes "x")))
      store_intent (unfold parse_payload in refl)

length-frame_bytes_example :
    (length (frame_bytes store) ≡ total_length store)
    ↔ (Every is_ascii store.to × Every is_ascii store.from × Every is_ascii store.header)
length-frame_bytes_example =
    length-frame_bytes store (omega arith) (omega arith) (omega (arith, store_total))

-- the same with another From address
abbrev renamed_store : Frame
renamed_store = record store { from = codes "you@gw" }

renamed-IsPlain : IsPlain renamed_store
renamed-IsPlain = record {
  to_ascii = store-IsPlain.to_ascii;
  from_ascii = every-Every is_ascii renamed_store.from refl;
  header_ascii = store-IsPlain.header_ascii;
  type_fits = omega arith;
  data_type_fits = omega arith;
}

renamed_total : total_length renamed_store ≡ 97
renamed_total = total_length-IsPlain renamed_store renamed-IsPlain ∙ omega arith

renamed_encoded : encode_frame renamed_store ≡ ok (frame_bytes renamed_store)
unfolding check_to check_from contains_byte before after
renamed_encoded = encode_frame-fits renamed_store refl refl (omega (arith, renamed_total))

replace_from-encode_frame_example :
    replace_from_in_raw_message (frame_bytes store) (codes "you@gw")
    ≡ ok (frame_bytes renamed_store)
replace_from-encode_frame_example =
    replace_from-encode_frame store (codes "you@gw") store-IsPlain renamed-IsPlain.from_ascii
      (frame_bytes store) (frame_bytes renamed_store) (omega (arith, store_total)) store_encoded
      renamed_encoded

zeros : ℕ → Bytes
zeros zero = []
zeros (suc n) = 0 ∷ zeros n

length-zeros : (n : ℕ) → length (zeros n) ≡ n
unfolding zeros
length-zeros zero = refl
length-zeros (suc n) = ap suc (length-zeros n)

-- a frame of 2^31 bytes
abbrev largest : Frame
largest = record {
  to = codes "a@g";
  from = codes "b@g";
  header = [];
  message_type = 1000;
  data_type = 2;
  payload = zeros 2147483579;
}

largest-IsPlain : IsPlain largest
largest-IsPlain = record {
  to_ascii = every-Every is_ascii largest.to refl;
  from_ascii = every-Every is_ascii largest.from refl;
  header_ascii = tt;
  type_fits = omega arith;
  data_type_fits = omega arith;
}

largest_total : total_length largest ≡ max_message_size
largest_total =
    total_length-IsPlain largest largest-IsPlain ∙ omega (arith, length-zeros 2147483579)

largest_encoded : encode_frame largest ≡ ok (frame_bytes largest)
unfolding check_to check_from contains_byte before after
largest_encoded = encode_frame-fits largest refl refl (omega (arith, largest_total))

decode_message-max_frame_example :
    decode_message (frame_bytes largest) ≡ fails invalid_size_param unnamed
decode_message-max_frame_example =
    decode_message-max_frame largest (frame_bytes largest) largest-IsPlain largest_encoded
      largest_total
