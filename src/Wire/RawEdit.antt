-- ===== src/Wire/RawEdit.antt =====
-- `ReplaceFromInRawMessage` of message/raw_edit.go. Lengths are signed, as the parser returns them; a
-- slice out of range is a panic, for a message whose capacity is its length.
pub mod Commutes
pub mod Panics
use pod_os_go_client.Prelude.{
  ◌&&◌, Option, none, some, ◌++◌, leb, ◌==◌, if◌then◌else◌, Bytes, length, slice,
}
use pod_os_go_client.Prelude.Int.{ℤ, pos, negsuc, pos_part, ◌+ℤ◌, ◌-ℤ◌, leb_ℤ}
use pod_os_go_client.Prelude.Result.{Result, ok, err, panic, ◌>>=◌, ◌>>◌, guard}
use pod_os_go_client.Wire.Encoder.{encode_length}
use pod_os_go_client.Wire.SizeParam.{decode_message_size_param}

pub data EditError : Type 0 where
  too_short_for_lengths invalid_to_length invalid_from_length invalid_payload_length : EditError
  too_short_for_from negative_header_span negative_total wrong_field_size : EditError

abbrev pub or_fail {ℓ} : {A : Type ℓ} → Option A → EditError → Result EditError A
or_fail none e = err e
or_fail (some a) e = ok a

-- `raw[lo:hi]`
unfoldable pub slice_of : {E : Type 0} → ℤ → ℤ → Bytes → Result E Bytes
slice_of (pos lo) (pos hi) raw =
    if leb lo hi && leb hi (length raw) then ok (slice lo hi raw) else panic
slice_of (pos lo) (negsuc hi) raw = panic
slice_of (negsuc lo) hi raw = panic

-- `fmt.Sprintf("%08x", n)` of a value that the guards have found not negative
abbrev pub encode_signed : ℤ → Bytes
encode_signed z = encode_length (pos_part z)

-- The new message, from the lengths on.
unfoldable pub rebuild : Bytes → Bytes → ℤ → ℤ → ℤ → Result EditError Bytes
rebuild raw new_from to_length from_length payload_length = do
  let size = pos (length raw)
  let from_start = pos 63 +ℤ to_length
  let from_end = from_start +ℤ from_length
  guard (leb_ℤ from_end size) too_short_for_from
  let header_span = size -ℤ from_end -ℤ payload_length
  guard (leb_ℤ (pos 0) header_span) negative_header_span
  let new_total = size +ℤ (pos (length new_from) -ℤ from_length)
  guard (leb_ℤ (pos 0) new_total) negative_total
  guard
      (length (encode_signed new_total) == 9
        && (length (encode_length (length new_from)) == 9
            && length (encode_signed header_span) == 9))
      wrong_field_size
  numbers_and_to ← slice_of (pos 36) from_start raw
  behind_from ← slice_of from_end size raw
  ok (
      encode_signed new_total
      ++ (slice 9 18 raw
          ++ (encode_length (length new_from)
              ++ (encode_signed header_span ++ (numbers_and_to ++ (new_from ++ behind_from))))))

unfoldable pub replace_from_in_raw_message : Bytes → Bytes → Result EditError Bytes
replace_from_in_raw_message raw new_from = do
  guard (leb 63 (length raw)) too_short_for_lengths
  to_length ← or_fail (decode_message_size_param (slice 9 18 raw)) invalid_to_length
  from_length ← or_fail (decode_message_size_param (slice 18 27 raw)) invalid_from_length
  payload_length ← or_fail (decode_message_size_param (slice 54 63 raw)) invalid_payload_length
  rebuild raw new_from to_length from_length payload_length
