-- ===== src/Validate/Wire/OfFrame.antt =====
-- `ValidateRawMessage` on the bytes of an encoded frame.
use pod_os_go_client.Prelude.{
  ℕ, ◌+◌, ◌≤◌, ◌<◌, ◌≡◌, ◌^◌, refl, ap, ◌∙◌, true, Option, some, lt→ltb, [], ◌∷◌, ◌++◌, arith,
  le→leb, Bytes, codes, length, slice,
}
use pod_os_go_client.Prelude.Int.{pos, +ℤ-pos}
use pod_os_go_client.Prelude.Result.{ok}
use pod_os_go_client.Strconv.{digits_fixed}
use pod_os_go_client.Wire.{Frame, max_message_size}
use pod_os_go_client.Wire.Encoder.{frame_bytes, total_length}
use pod_os_go_client.Wire.Encoder.Layout.{IsPlain, total_length-IsPlain, hex_field}
use pod_os_go_client.Wire.Decoder.{decode_header, strip_routing}
use pod_os_go_client.Wire.Decoder.Fields.{
  joined, slice_a, slice_b, slice_c, slice_d, slice_e, slice_f, slice_g,
}
use pod_os_go_client.Wire.Decoder.OfFrame.{
  input-joined, length-input, slice_from, slice_header, slice_to,
}
use pod_os_go_client.Wire.Decoder.Parts.{fields_of, fields_of-AllNine}
use pod_os_go_client.Wire.RawEdit.{slice_of}
use pod_os_go_client.Wire.RawEdit.Commutes.{leb_ℤ-pos, slice_of-pos}
use pod_os_go_client.Wire.SizeParam.{decode_message_size_param}
use pod_os_go_client.Wire.SizeParam.Laws.{decode_decimal, decode_hex}
use pod_os_go_client.Validate.Report.{is_name_at_gateway, report, ValidationErrors}
use pod_os_go_client.Validate.Wire.{
  is_known_message_type, parse_field, parse_field-some, validate_bytes, validate_raw_message,
  validate_segments, validate_wire_address,
}
use pod_os_go_client.Validate.Wire.Header.{validate_wire_header}

-- A good address reports nothing.
good-address :
    (field address : Bytes)
    → is_name_at_gateway address ≡ true
    → validate_wire_address field address ≡ []
unfolding validate_wire_address report is_name_at_gateway
good-address field [] e = cc
good-address field (c ∷ s) e = rw e refl

module _ (f : Frame) (tail : Bytes) (p : IsPlain f)
    (small : total_length f < max_message_size) where
  abbrev input : Bytes
  input = frame_bytes f ++ tail

  field-joined :
      (lo hi : ℕ) (b : Bytes) → slice lo hi (joined (fields_of f tail)) ≡ b → slice lo hi input ≡ b
  field-joined lo hi b e = ap (slice lo hi) (input-joined f tail p small) ∙ e

  cut_to : slice_of {E = ValidationErrors} (pos 63) (pos (63 + length f.to)) input ≡ ok f.to
  cut_to =
      let t = total_length-IsPlain f p in
      slice_of-pos ValidationErrors 63 (63 + length f.to) input (omega arith)
        (omega (arith, length-input f tail p small))
      ∙ ap ok (slice_to f tail p small)

  cut_from :
      slice_of {E = ValidationErrors}
        (pos (63 + length f.to))
        (pos (63 + length f.to + length f.from))
        input
      ≡ ok f.from
  cut_from =
      let t = total_length-IsPlain f p in
      slice_of-pos ValidationErrors (63 + length f.to) (63 + length f.to + length f.from) input
        (omega arith) (omega (arith, length-input f tail p small))
      ∙ ap ok (slice_from f tail p small)

  cut_header :
      slice_of {E = ValidationErrors}
        (pos (63 + length f.to + length f.from))
        (pos (63 + length f.to + length f.from + length f.header))
        input
      ≡ ok f.header
  cut_header =
      let t = total_length-IsPlain f p in
      slice_of-pos ValidationErrors (63 + length f.to + length f.from)
        (63 + length f.to + length f.from + length f.header) input (omega arith)
        (omega (arith, length-input f tail p small))
      ∙ ap ok (slice_header f tail p small)

  segments-frame :
      (parse_float : Bytes → Option ℕ)
      → is_name_at_gateway f.to ≡ true
      → is_name_at_gateway (strip_routing f.from) ≡ true
      → is_known_message_type (pos f.message_type) ≡ true
      → validate_segments parse_float input
          (pos (length f.to))
          (pos (length f.from))
          (pos (length f.header))
          (pos f.message_type)
          (pos (length f.payload))
        ≡ ok (
            validate_wire_header parse_float
              (pos f.message_type)
              (decode_header f.header)
              (pos (length f.payload)))
  unfolding validate_segments
  segments-frame parse_float to from known =
      let t = total_length-IsPlain f p in
      let size = length-input f tail p small in
      let n : ℕ = length input in
      let fits_to = leb_ℤ-pos (63 + length f.to) n (omega (arith, size)) in
      let fits_from = leb_ℤ-pos (63 + length f.to + length f.from) n (omega (arith, size)) in
      let fits_header =
        leb_ℤ-pos (63 + length f.to + length f.from + length f.header) n (omega (arith, size)) in
      rw (+ℤ-pos 63 (length f.to)) (
        rw (+ℤ-pos (63 + length f.to) (length f.from)) (
          rw (+ℤ-pos (63 + length f.to + length f.from) (length f.header)) (
            rw fits_to (
              rw fits_from (
                rw fits_header (
                  rw cut_to (
                    rw cut_from (
                      rw (good-address (codes "to") f.to to) (
                        rw (good-address (codes "from") (strip_routing f.from) from)
                          (rw known (rw cut_header refl)))))))))))

  hex_length :
      (name : Bytes) (lo hi n : ℕ)
      → n < 2 ^ 31
      → slice lo hi (joined (fields_of f tail)) ≡ hex_field n
      → parse_field name (slice lo hi input) ≡ ok (pos n)
  hex_length name lo hi n h e =
      let below = lt→ltb n (2 ^ 31) h in
      parse_field-some name _ (
        ap decode_message_size_param (field-joined lo hi (hex_field n) e)
        ∙ decode_hex n (omega arith)
        ∙ rw below refl)

  decimal_number :
      (name : Bytes) (lo hi n : ℕ)
      → n < 10 ^ 9
      → slice lo hi (joined (fields_of f tail)) ≡ digits_fixed 10 9 n
      → parse_field name (slice lo hi input) ≡ ok (pos n)
  decimal_number name lo hi n h e = parse_field-some name _ (
      ap decode_message_size_param (field-joined lo hi (digits_fixed 10 9 n) e)
      ∙ decode_decimal n h)

  -- On an encoded frame of plain addresses and a plain header, with any bytes behind it,
  -- `ValidateRawMessage` reports exactly what the checks of the header map report: nothing of the
  -- framing. (The addresses are of the form name@gateway, the From address up to its first `|`, the
  -- message type is a known one, the frame is shorter than 2^31 bytes, and with what follows it is at
  -- most that long.)
  pub validate_raw_message-frame :
      (parse_float : Bytes → Option ℕ)
      → length (frame_bytes f ++ tail) ≤ max_message_size
      → is_name_at_gateway f.to ≡ true
      → is_name_at_gateway (strip_routing f.from) ≡ true
      → is_known_message_type (pos f.message_type) ≡ true
      → validate_raw_message true parse_float (some (frame_bytes f ++ tail))
        ≡ ok (
            validate_wire_header parse_float
              (pos f.message_type)
              (decode_header f.header)
              (pos (length f.payload)))
  unfolding validate_raw_message validate_bytes
  validate_raw_message-frame parse_float bounded to from known =
      let t = total_length-IsPlain f p in
      let size = length-input f tail p small in
      let s = fields_of f tail in
      let n = fields_of-AllNine f tail in
      rw (le→leb 63 (length input) (omega (arith, size))) (
        rw (le→leb (length input) max_message_size bounded) (
          rw (hex_length _ 0 9 (total_length f) small (slice_a s n)) (
            rw (hex_length _ 9 18 (length f.to) (omega arith) (slice_b s n)) (
              rw (hex_length _ 18 27 (length f.from) (omega arith) (slice_c s n)) (
                rw (hex_length _ 27 36 (length f.header) (omega arith) (slice_d s n)) (
                  rw (decimal_number _ 36 45 f.message_type p.type_fits (slice_e s n)) (
                    rw (decimal_number _ 45 54 f.data_type p.data_type_fits (slice_f s n)) (
                      rw (hex_length _ 54 63 (length f.payload) (omega arith) (slice_g s n))
                        (rw (segments-frame parse_float to from known) refl)))))))))
