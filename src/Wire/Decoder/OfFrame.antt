-- ===== src/Wire/Decoder/OfFrame.antt =====
-- The steps of `DecodeMessage` on the bytes of a frame, with any `tail` behind it.
use pod_os_go_client.Prelude.{
  ℕ, ◌+◌, ◌^◌, ◌≤◌, ◌<◌, ◌≡◌, refl, ap, ◌∙◌, inl, inr, true, some, ◌++◌, arith, ltb, leb, le→leb,
  Bool-cases, Bytes, length, length-append, slice, slice_skip, slice_first,
}
use pod_os_go_client.Prelude.Int.{pos}
use pod_os_go_client.Prelude.Result.{ok, ◌>>=◌}
use pod_os_go_client.Wire.Decoder.Parts.{
  fields_of, fields_of-AllNine, frame_bytes-joined, decode_lengths-joined, check_length-hex_field,
  check_total-hex_field, lengths_of, data_of,
}
use pod_os_go_client.Wire.Decoder.{
  find_data_type, command_of, find_intent, IntentType, decode_payload, HeaderMap, decode_message,
  field_number, payload_length, decode_header, header_length, from_length, strip_routing,
  check_number, to_length, decode_segments, decode_lengths, parse_payload,
}
use pod_os_go_client.Wire.SizeParam.Laws.{atoi_trimmed, decode_decimal}
use pod_os_go_client.Wire.Decoder.Fields.{slice_f, slice_e, slice_rest, joined}
use pod_os_go_client.Strconv.{digits_fixed}
use pod_os_go_client.Strconv.Laws.{length-digits_fixed}
use pod_os_go_client.Wire.{Frame, max_message_size}
use pod_os_go_client.Wire.Encoder.{total_length, frame_bytes}
use pod_os_go_client.Wire.Encoder.Layout.{IsPlain, length-hex_field, total_length-IsPlain}

module _ (f : Frame) (tail : Bytes) (p : IsPlain f)
    (small : total_length f < max_message_size) where
  pub input-joined : frame_bytes f ++ tail ≡ joined (fields_of f tail)
  input-joined = frame_bytes-joined f tail p (omega arith)

  pub length-input : length (frame_bytes f ++ tail) ≡ total_length f + length tail
  unfolding digits_fixed total_length
  length-input =
      ap length input-joined
      ∙ omega (
        arith,
        total_length-IsPlain f p,
        length-append {0},
        length-hex_field,
        length-digits_fixed,
      )

  pub decode_lengths-frame :
      length (frame_bytes f ++ tail) ≤ max_message_size
      → decode_lengths (frame_bytes f ++ tail) ≡ ok (lengths_of f)
  unfolding check_number
  decode_lengths-frame h =
      let t = total_length-IsPlain f p in
      let len = ap length input-joined in
      ap decode_lengths input-joined
      ∙ decode_lengths-joined (fields_of f tail) (fields_of-AllNine f tail) (lengths_of f)
          (omega (arith, len)) (omega (arith, len, length-input))
          (check_total-hex_field (total_length f) (omega arith) small)
          (check_length-hex_field to_length (length f.to) (omega arith))
          (check_length-hex_field from_length (length f.from) (omega arith))
          (check_length-hex_field header_length (length f.header) (omega arith))
          (rw (decode_decimal f.message_type p.type_fits))
          (rw (decode_decimal f.data_type p.data_type_fits))
          (check_length-hex_field payload_length (length f.payload) (omega arith))

  -- A slice of the message is a slice of what follows the length fields.
  pub slice_input :
      (lo hi lo' hi' : ℕ)
      → lo ≡ 63 + lo'
      → hi ≡ 63 + hi'
      → slice lo hi (frame_bytes f ++ tail) ≡ slice lo' hi' (fields_of f tail).rest
  slice_input lo hi lo' hi' e k =
      ap (slice lo hi) input-joined
      ∙ rw e (rw k (slice_rest (fields_of f tail) (fields_of-AllNine f tail) lo' hi'))

  pub slice_to : slice 63 (63 + length f.to) (frame_bytes f ++ tail) ≡ f.to
  slice_to =
      slice_input 63 (63 + length f.to) 0 (length f.to) refl refl
      ∙ slice_first (length f.to) f.to _ refl

  pub slice_from :
      slice (63 + length f.to) (63 + length f.to + length f.from) (frame_bytes f ++ tail) ≡ f.from
  slice_from =
      slice_input _ _ (length f.to) (length f.to + length f.from) refl (omega arith)
      ∙ slice_skip (length f.to) _ _ 0 (length f.from) f.to _ refl (omega arith) refl
      ∙ slice_first (length f.from) f.from _ refl

  pub slice_header :
      slice
        (63 + length f.to + length f.from)
        (63 + length f.to + length f.from + length f.header)
        (frame_bytes f ++ tail)
      ≡ f.header
  slice_header =
      slice_input _ _ (length f.to + length f.from) (length f.to + length f.from + length f.header)
        (omega arith) (omega arith)
      ∙ slice_skip (length f.to) _ _ (length f.from) (length f.from + length f.header) f.to _ refl
          refl (omega arith)
      ∙ slice_skip (length f.from) _ _ 0 (length f.header) f.from _ refl (omega arith) refl
      ∙ slice_first (length f.header) f.header _ refl

  slice_payload-frame :
      slice
        (63 + length f.to + length f.from + length f.header)
        (63 + length f.to + length f.from + length f.header + length f.payload)
        (frame_bytes f ++ tail)
      ≡ f.payload
  slice_payload-frame =
      slice_input _ _ (length f.to + length f.from + length f.header)
        (length f.to + length f.from + length f.header + length f.payload) (omega arith)
        (omega arith)
      ∙ slice_skip (length f.to) _ _ (length f.from + length f.header)
          (length f.from + length f.header + length f.payload) f.to _ refl (omega arith)
          (omega arith)
      ∙ slice_skip (length f.from) _ _ (length f.header) (length f.header + length f.payload) f.from
          _ refl refl (omega arith)
      ∙ slice_skip (length f.header) _ _ 0 (length f.payload) f.header _ refl (omega arith) refl
      ∙ slice_first (length f.payload) f.payload _ refl

  decode_segments-frame :
      decode_segments (frame_bytes f ++ tail) (lengths_of f)
      ≡ ok (record {
        to = f.to;
        from = strip_routing f.from;
        headers = decode_header f.header;
        header_end = 63 + length f.to + length f.from + length f.header;
      })
  unfolding decode_segments
  decode_segments-frame =
      let t = total_length-IsPlain f p in
      let fits_to : leb (63 + length f.to) (length (frame_bytes f ++ tail)) ≡ true =
        le→leb _ _ (omega (arith, length-input)) in
      let fits_from : leb (63 + length f.to + length f.from) (length (frame_bytes f ++ tail))
          ≡ true =
        le→leb _ _ (omega (arith, length-input)) in
      let fits_header : leb (63 + length f.to + length f.from + length f.header)
            (length (frame_bytes f ++ tail))
          ≡ true =
        le→leb _ _ (omega (arith, length-input)) in
      rw fits_to (rw fits_from (rw fits_header (rw slice_to (rw slice_from (rw slice_header)))))

  decode_payload-frame :
      (h : HeaderMap)
      → decode_payload
          (frame_bytes f ++ tail)
          (63 + length f.to + length f.from + length f.header)
          (length f.payload)
          h
        ≡ ok (data_of h f.payload)
  unfolding decode_payload
  decode_payload-frame h = elim (Bool-cases (ltb 0 (length f.payload))) [
    | inl some_bytes ↦
        let t = total_length-IsPlain f p in
        let fits : leb (63 + length f.to + length f.from + length f.header + length f.payload)
              (length (frame_bytes f ++ tail))
            ≡ true =
          le→leb _ _ (omega (arith, length-input)) in
        rw some_bytes (rw fits (rw slice_payload-frame))
    | inr empty ↦ rw empty
  ]

  number_field :
      (lo hi n : ℕ)
      → slice lo hi (joined (fields_of f tail)) ≡ digits_fixed 10 9 n
      → n < 10 ^ 9
      → field_number (slice lo hi (frame_bytes f ++ tail)) ≡ some (pos n)
  number_field lo hi n e h = rw (ap (slice lo hi) input-joined ∙ e) (atoi_trimmed n h)

  -- The frame of total length below 2^31, with `tail` behind it, is decoded to its parts, unless the
  -- parser of the payload panics.
  pub decode_message-frame :
      (t : IntentType)
      → length (frame_bytes f ++ tail) ≤ max_message_size
      → find_intent (some (pos f.message_type)) (command_of (decode_header f.header)) ≡ ok t
      → decode_message (frame_bytes f ++ tail) ≡ (
          parse_payload t (data_of (decode_header f.header) f.payload) >>= λ u. ok (record {
            to = f.to;
            from = strip_routing f.from;
            headers = decode_header f.header;
            intent = t;
            data_type = pos f.data_type;
            payload = data_of (decode_header f.header) f.payload;
          }))
  unfolding decode_message
  decode_message-frame t h found = rw (decode_lengths-frame h) (
      rw decode_segments-frame (
        rw
          (number_field 36 45 f.message_type (slice_e (fields_of f tail) (fields_of-AllNine f tail))
            p.type_fits)
          (rw found (
            rw
              (number_field 45 54 f.data_type
                (slice_f (fields_of f tail) (fields_of-AllNine f tail)) p.data_type_fits)
              (unfold find_data_type in rw (decode_payload-frame (decode_header f.header)))))))
