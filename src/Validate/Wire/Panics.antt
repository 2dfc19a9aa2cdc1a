-- ===== src/Validate/Wire/Panics.antt =====
-- `ValidateRawMessage` on a message whose To length is negative: the slice of the To address is out of
-- range, which no test before it excludes.
use pod_os_go_client.Prelude.{
  ℕ, ◌+◌, ◌-◌, ◌≤◌, ◌≡◌, refl, true, Option, some, arith, le→leb, Bytes, length, slice,
}
use pod_os_go_client.Prelude.Int.{ℤ, pos, negsuc, +ℤ-pos}
use pod_os_go_client.Prelude.Result.{panic}
use pod_os_go_client.Wire.{max_message_size}
use pod_os_go_client.Wire.RawEdit.Commutes.{leb_ℤ-pos}
use pod_os_go_client.Wire.RawEdit.Panics.{pos+ℤ-negsuc, slice_of-panic}
use pod_os_go_client.Wire.SizeParam.{decode_message_size_param}
use pod_os_go_client.Validate.Report.{ValidationErrors}
use pod_os_go_client.Validate.Wire.{
  parse_field-some, validate_bytes, validate_raw_message, validate_segments,
}

segments-panic :
    (parse_float : Bytes → Option ℕ) (raw : Bytes) (t f h : ℕ) (type payload : ℤ)
    → t ≤ 62
    → 63 + f + h ≤ length raw
    → validate_segments parse_float raw (negsuc t) (pos f) (pos h) type payload ≡ panic
unfolding validate_segments
segments-panic parse_float raw t f h type payload high fits =
    let to_end = 63 - 1 - t in
    let n : ℕ = length raw in
    rw (pos+ℤ-negsuc 63 t (omega arith)) (
      rw (+ℤ-pos (63 - 1 - t) f) (
        rw (+ℤ-pos (63 - 1 - t + f) h) (
          rw (leb_ℤ-pos (63 - 1 - t) n (omega arith)) (
            rw (leb_ℤ-pos (63 - 1 - t + f) n (omega arith)) (
              rw (leb_ℤ-pos (63 - 1 - t + f + h) n (omega arith))
                (rw (slice_of-panic ValidationErrors 63 (63 - 1 - t) raw (omega arith)) refl))))))

-- `ValidateRawMessage` panics on a message whose To length is from -63 to -1: it is no longer than
-- 2^31 bytes, its seven length fields are numbers, and its From length and header length are not
-- negative and fit behind the length fields.
pub validate_raw_message-panic :
    (parse_float : Bytes → Option ℕ) (raw : Bytes) (t f h : ℕ) (total type data_type payload : ℤ)
    → length raw ≤ max_message_size
    → decode_message_size_param (slice 0 9 raw) ≡ some total
    → decode_message_size_param (slice 9 18 raw) ≡ some (negsuc t)
    → decode_message_size_param (slice 18 27 raw) ≡ some (pos f)
    → decode_message_size_param (slice 27 36 raw) ≡ some (pos h)
    → decode_message_size_param (slice 36 45 raw) ≡ some type
    → decode_message_size_param (slice 45 54 raw) ≡ some data_type
    → decode_message_size_param (slice 54 63 raw) ≡ some payload
    → t ≤ 62
    → 63 + f + h ≤ length raw
    → validate_raw_message true parse_float (some raw) ≡ panic
unfolding validate_raw_message validate_bytes
validate_raw_message-panic parse_float raw t f h total type data_type payload bounded e0 e1 e2 e3 e4
      e5 e6 high fits =
    rw (le→leb 63 (length raw) (omega arith)) (
      rw (le→leb (length raw) max_message_size bounded) (
        rw (parse_field-some _ _ e0) (
          rw (parse_field-some _ _ e1) (
            rw (parse_field-some _ _ e2) (
              rw (parse_field-some _ _ e3) (
                rw (parse_field-some _ _ e4) (
                  rw (parse_field-some _ _ e5) (
                    rw (parse_field-some _ _ e6) (
                      rw (segments-panic parse_float raw t f h type payload high fits) refl)))))))))
