-- ===== src/Wire/Encoder/Layout.antt =====
-- The bytes of a frame, field by field.
use pod_os_go_client.Prelude.{
  ℕ, suc, ◌+◌, ◌^◌, ◌≤◌, ◌<◌, ◌≡◌, refl, sym, ap, ◌∷◌, ◌++◌, arith, leb, leb→le, Bytes, length,
  length-append,
}
use pod_os_go_client.Prelude.Result.{ok, guard, >>=-eq-ok, guard-eq-ok, ok-eq}
use pod_os_go_client.Wire.Encoder.{
  payload_too_large, check_from, check_to, encode_frame, encode_length, total_length, frame_bytes,
}
use pod_os_go_client.Strconv.{format_09d, digits_fixed}
use pod_os_go_client.Strconv.Laws.{
  format_08x-digits_fixed, format_09d-digits_fixed, digits_fixed-hex-Every,
  digits_fixed-decimal-Every, is_digit, is_decimal, length-digits_fixed,
}
use pod_os_go_client.Text.{force_ascii}
use pod_os_go_client.Text.Laws.{Every, Every-map, is_ascii, force_ascii_id}
use pod_os_go_client.Wire.{Frame, max_message_size}

-- The addresses and the header are ASCII, and the two numbers fit nine decimal places.
pub record IsPlain (f : Frame) : Type 0 where
  pub to_ascii : Every is_ascii f.to
  pub from_ascii : Every is_ascii f.from
  pub header_ascii : Every is_ascii f.header
  pub type_fits : f.message_type < 10 ^ 9
  pub data_type_fits : f.data_type < 10 ^ 9

abbrev pub hex_field : ℕ → Bytes
hex_field n = b'x' ∷ digits_fixed 16 8 n

pub length-hex_field : (n : ℕ) → length (hex_field n) ≡ 9
length-hex_field n = ap suc (length-digits_fixed 16 8 n)

pub encoded_field : (n : ℕ) → n < 16 ^ 8 → force_ascii (encode_length n) ≡ hex_field n
encoded_field n h = rw (format_08x-digits_fixed n h) (
    force_ascii_id (hex_field n)
      (refl, Every-map is_digit is_ascii (λ c d. ground arith) _ (digits_fixed-hex-Every 8 n)))

pub decimal_field : (n : ℕ) → n < 10 ^ 9 → force_ascii (format_09d n) ≡ digits_fixed 10 9 n
decimal_field n h = rw (format_09d-digits_fixed n h) (
    force_ascii_id _
      (Every-map is_decimal is_ascii (λ c d. ground arith) _ (digits_fixed-decimal-Every 9 n)))

-- What stands behind the first length field.
unfoldable pub rest_of_frame : Frame → Bytes
rest_of_frame f =
    hex_field (length f.to)
    ++ (hex_field (length f.from)
        ++ (hex_field (length f.header)
            ++ (digits_fixed 10 9 f.message_type
                ++ (digits_fixed 10 9 f.data_type
                    ++ (hex_field (length f.payload)
                        ++ (f.to ++ (f.from ++ (f.header ++ f.payload))))))))

-- The lengths of all parts, the length fields included.
pub total_length-fits :
    (f : Frame)
    → f.message_type < 10 ^ 9
    → f.data_type < 10 ^ 9
    → total_length f ≡ 63 + length f.to + length f.from + length f.header + length f.payload
unfolding total_length
total_length-fits f ht hd = rw (format_09d-digits_fixed f.message_type ht) (
    rw (format_09d-digits_fixed f.data_type hd) (
      omega (arith, length-digits_fixed 10 9 f.message_type, length-digits_fixed 10 9 f.data_type)))

pub total_length-IsPlain :
    (f : Frame)
    → IsPlain f
    → total_length f ≡ 63 + length f.to + length f.from + length f.header + length f.payload
total_length-IsPlain f p = total_length-fits f p.type_fits p.data_type_fits

pub frame_bytes-IsPlain :
    (f : Frame)
    → IsPlain f
    → total_length f ≤ max_message_size
    → frame_bytes f ≡ hex_field (total_length f) ++ rest_of_frame f
unfolding frame_bytes rest_of_frame
frame_bytes-IsPlain f p h =
    let t = total_length-IsPlain f p in
    rw (encoded_field (total_length f) (omega arith)) (
      rw (encoded_field (length f.to) (omega arith)) (
        rw (encoded_field (length f.from) (omega arith)) (
          rw (encoded_field (length f.header) (omega arith)) (
            rw (encoded_field (length f.payload) (omega arith)) (
              rw (decimal_field f.message_type p.type_fits) (
                rw (decimal_field f.data_type p.data_type_fits) (
                  rw (force_ascii_id f.to p.to_ascii) (
                    rw (force_ascii_id f.from p.from_ascii)
                      (rw (force_ascii_id f.header p.header_ascii))))))))))

pub length-rest_of_frame :
    (f : Frame)
    → length (rest_of_frame f)
      ≡ 54 + length f.to + length f.from + length f.header + length f.payload
unfolding rest_of_frame digits_fixed
length-rest_of_frame f = omega (arith, length-append {0}, length-digits_fixed)

-- What a successful `EncodeMessage` returns, and how large it is.
pub encode_frame-eq-ok :
    (f : Frame) {b : Bytes}
    → encode_frame f ≡ ok b
    → (b ≡ frame_bytes f) × (total_length f ≤ max_message_size)
unfolding encode_frame
encode_frame-eq-ok f e =
    let (_, _, e₁) = >>=-eq-ok (check_to f.to) _ e in
    let (_, _, e₂) = >>=-eq-ok (check_from f.from) _ e₁ in
    let (_, g, e₃) =
      >>=-eq-ok (guard (leb (total_length f) max_message_size) payload_too_large) _ e₂ in
    (sym (ok-eq e₃), leb→le _ _ (guard-eq-ok _ _ g))
