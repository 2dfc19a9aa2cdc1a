-- ===== src/Wire/Encoder/Ascii.antt =====
-- The length fields are counted before `forceASCII` drops bytes.
use pod_os_go_client.Prelude.{
  ◌+◌, ◌^◌, ◌≤◌, ◌<◌, ◌≡◌, ap, ◌↔◌, inl, inr, [], ◌∷◌, arith, leb, Bool-cases, Bytes, length,
  length-append,
}
use pod_os_go_client.Wire.Encoder.Layout.{
  decimal_field, encoded_field, length-hex_field, total_length-fits,
}
use pod_os_go_client.Strconv.{digits_fixed}
use pod_os_go_client.Text.Laws.{force_ascii_id, Every, force_ascii-length-le, is_ascii}
use pod_os_go_client.Strconv.Laws.{length-digits_fixed}
use pod_os_go_client.Wire.{Frame, max_message_size}
use pod_os_go_client.Text.{force_ascii}
use pod_os_go_client.Wire.Encoder.{frame_bytes, total_length}

length-force_ascii-eq : (s : Bytes) → length (force_ascii s) ≡ length s → Every is_ascii s
unfolding force_ascii
length-force_ascii-eq [] e = tt
length-force_ascii-eq (c ∷ s) e = elim (Bool-cases (leb c 127)) [
  | inl small ↦ (small, length-force_ascii-eq s (omega (arith, rw (small, force_ascii) at e)))
  | inr large ↦ absurd (omega (arith, force_ascii-length-le s, rw (large, force_ascii) at e))
]

force_ascii-length_eq : (s : Bytes) → Every is_ascii s → length (force_ascii s) ≡ length s
force_ascii-length_eq s h = ap length (force_ascii_id s h)

-- The length of a frame, with what `forceASCII` leaves of the three texts.
frame_bytes-length :
    (f : Frame)
    → f.message_type < 10 ^ 9
    → f.data_type < 10 ^ 9
    → total_length f ≤ max_message_size
    → length (frame_bytes f)
      ≡ 63
        + length (force_ascii f.to)
        + length (force_ascii f.from)
        + length (force_ascii f.header)
        + length f.payload
unfolding frame_bytes digits_fixed
frame_bytes-length f ht hd h =
    let t = total_length-fits f ht hd in
    rw (encoded_field (total_length f) (omega arith)) (
      rw (encoded_field (length f.to) (omega arith)) (
        rw (encoded_field (length f.from) (omega arith)) (
          rw (encoded_field (length f.header) (omega arith)) (
            rw (encoded_field (length f.payload) (omega arith)) (
              rw (decimal_field f.message_type ht) (
                rw (decimal_field f.data_type hd)
                  (omega (arith, length-append {0}, length-hex_field, length-digits_fixed))))))))

-- The length prefix of an encoded frame is the length of the frame exactly when the To address, the
-- From address and the header are ASCII. (The numbers fit nine places, and the total is in bounds.)
pub length-frame_bytes :
    (f : Frame)
    → f.message_type < 10 ^ 9
    → f.data_type < 10 ^ 9
    → total_length f ≤ max_message_size
    → (length (frame_bytes f) ≡ total_length f)
      ↔ (Every is_ascii f.to × Every is_ascii f.from × Every is_ascii f.header)
length-frame_bytes f ht hd h =
    let t = total_length-fits f ht hd in
    let len = frame_bytes-length f ht hd h in
    let to_le = force_ascii-length-le f.to in
    let from_le = force_ascii-length-le f.from in
    let header_le = force_ascii-length-le f.header in
    (
      (λ e. (
        length-force_ascii-eq f.to (omega arith),
        length-force_ascii-eq f.from (omega arith),
        length-force_ascii-eq f.header (omega arith),
      )),
      (λ a. omega (
        arith,
        force_ascii-length_eq f.to a.0,
        force_ascii-length_eq f.from a.1,
        force_ascii-length_eq f.header a.2,
      )),
    )
