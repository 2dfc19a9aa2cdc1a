-- ===== src/Wire/Decoder/Parts.antt =====
-- A frame as seven length fields and four segments, and the checks of its length fields.
use pod_os_go_client.Prelude.{
  ℕ, ◌+◌, ◌≤◌, ◌<◌, ◌≡◌, ◌++◌, append_assoc, arith, ltb, if◌then◌else◌, le→leb, Bytes, codes,
  length, length-append, str_eq,
}
use pod_os_go_client.Prelude.Result.{ok}
use pod_os_go_client.Wire.Decoder.{
  no_data, text, binary, mime_type_of, PayloadData, HeaderMap, payload_length, header_length,
  from_length, check_number, to_length, Lengths, Field, check_total, check_length, decode_lengths,
}
use pod_os_go_client.Wire.Decoder.Fields.{
  slice_g, slice_f, slice_e, slice_d, slice_c, slice_b, slice_a, Fields, AllNine, joined,
}
use pod_os_go_client.Strconv.{digits_fixed}
use pod_os_go_client.Strconv.Laws.{length-digits_fixed}
use pod_os_go_client.Wire.{Frame, max_message_size}
use pod_os_go_client.Wire.Encoder.{total_length, frame_bytes}
use pod_os_go_client.Wire.Encoder.Layout.{
  IsPlain, hex_field, length-hex_field, rest_of_frame, frame_bytes-IsPlain,
}
use pod_os_go_client.Wire.SizeParam.{decode_message_size_param}
use pod_os_go_client.Wire.SizeParam.Laws.{decode_hex}

-- The parts of a frame with `tail` behind it.
abbrev pub fields_of : Frame → Bytes → Fields
fields_of f tail = record {
  a = hex_field (total_length f);
  b = hex_field (length f.to);
  c = hex_field (length f.from);
  d = hex_field (length f.header);
  e = digits_fixed 10 9 f.message_type;
  f = digits_fixed 10 9 f.data_type;
  g = hex_field (length f.payload);
  rest = f.to ++ (f.from ++ (f.header ++ (f.payload ++ tail)));
}

pub fields_of-AllNine : (f : Frame) (tail : Bytes) → AllNine (fields_of f tail)
fields_of-AllNine f tail = record {
  nine_a = length-hex_field _;
  nine_b = length-hex_field _;
  nine_c = length-hex_field _;
  nine_d = length-hex_field _;
  nine_e = length-digits_fixed 10 9 f.message_type;
  nine_f = length-digits_fixed 10 9 f.data_type;
  nine_g = length-hex_field _;
}

pub frame_bytes-joined :
    (f : Frame) (tail : Bytes)
    → IsPlain f
    → total_length f ≤ max_message_size
    → frame_bytes f ++ tail ≡ joined (fields_of f tail)
unfolding rest_of_frame
frame_bytes-joined f tail p h = rw (frame_bytes-IsPlain f p h) (simp append_assoc)

-- A length that a frame holds, and that is in range.
pub check_length-hex_field :
    (name : Field) (n : ℕ)
    → n < max_message_size
    → check_length name (decode_message_size_param (hex_field n)) ≡ ok n
unfolding check_length
check_length-hex_field name n h = rw (decode_hex n (omega arith)) (ground arith)

pub check_total-hex_field :
    (n : ℕ)
    → 0 < n
    → n < max_message_size
    → check_total (decode_message_size_param (hex_field n)) ≡ ok n
unfolding check_total
check_total-hex_field n z h = rw (decode_hex n (omega arith)) (ground arith)

-- The seven checks, where each of them passes.
pub decode_lengths-joined :
    (s : Fields) (n : AllNine s) (l : Lengths)
    → length (joined s) ≤ max_message_size
    → 63 ≤ length (joined s)
    → check_total (decode_message_size_param s.a) ≡ ok l.total
    → check_length to_length (decode_message_size_param s.b) ≡ ok l.to_len
    → check_length from_length (decode_message_size_param s.c) ≡ ok l.from_len
    → check_length header_length (decode_message_size_param s.d) ≡ ok l.header_len
    → check_number (decode_message_size_param s.e) ≡ ok tt
    → check_number (decode_message_size_param s.f) ≡ ok tt
    → check_length payload_length (decode_message_size_param s.g) ≡ ok l.payload_len
    → decode_lengths (joined s) ≡ ok l
unfolding decode_lengths
decode_lengths-joined s n l small big ea eb ec ed ee ef eg = rw (le→leb _ _ small) (
    rw (le→leb _ _ big) (
      rw (slice_a s n, ea)
        (rw (slice_b s n, eb)
          (rw (slice_c s n, ec)
            (rw (slice_d s n, ed)
              (rw (slice_e s n, ee) (rw (slice_f s n, ef) (rw (slice_g s n, eg)))))))))

-- What `Payload.Data` holds for these payload bytes.
abbrev pub data_of : HeaderMap → Bytes → PayloadData
data_of h b =
    if ltb 0 (length b)
    then if str_eq (mime_type_of h) (codes "application/octet-stream") then binary b else text b
    else no_data

abbrev pub lengths_of : Frame → Lengths
lengths_of f = record {
  total = total_length f;
  to_len = length f.to;
  from_len = length f.from;
  header_len = length f.header;
  payload_len = length f.payload;
}

pub length-fields_of :
    (f : Frame) (tail : Bytes)
    → length (joined (fields_of f tail))
      ≡ 63 + length f.to + length f.from + length f.header + length f.payload + length tail
unfolding digits_fixed
length-fields_of f tail = omega (arith, length-append {0}, length-hex_field, length-digits_fixed)
