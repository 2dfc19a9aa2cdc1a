-- ===== src/Wire/Encoder.antt =====
-- `EncodeMessage` of message/encoder.go from the address checks on: its guards and the layout of the
-- frame. The header text and the payload bytes are given.
pub mod Layout
pub mod Ascii
use pod_os_go_client.Prelude.{ℕ, ◌+◌, Bool, true, false, not, [], ◌∷◌, ◌++◌, leb, Bytes, length}
use pod_os_go_client.Prelude.Result.{Result, ok, ◌>>◌, guard}
use pod_os_go_client.Strconv.{format_08x, format_09d}
use pod_os_go_client.Text.{force_ascii, contains_byte, before, after}
use pod_os_go_client.Wire.{Frame, max_message_size}

-- The codes of message/errors.go that these guards return.
pub data EncodeError : Type 0 where
  payload_too_large invalid_from_address invalid_gateway_name : EncodeError
  invalid_actor_name invalid_to_address nil_message invalid_data : EncodeError

abbrev pub is_empty : Bytes → Bool
is_empty [] = true
is_empty (c ∷ s) = false

-- The two halves of `strings.Split(address, "@")` that are looked at: `[0]` and `[1]`.
abbrev local_part : Bytes → Bytes
local_part address = before b'@' address

abbrev gateway_part : Bytes → Bytes
gateway_part address = before b'@' (after b'@' address)

unfoldable pub check_to : Bytes → Result EncodeError (Unit {0})
check_to to = do
  guard (contains_byte b'@' to) invalid_to_address
  guard (not (is_empty (local_part to))) invalid_actor_name
  guard (not (is_empty (gateway_part to))) invalid_gateway_name

unfoldable pub check_from : Bytes → Result EncodeError (Unit {0})
check_from from = do
  guard (contains_byte b'@' from) invalid_from_address
  guard (not (is_empty from)) invalid_from_address
  guard (not (is_empty (local_part from))) invalid_from_address
  guard (not (is_empty (gateway_part from))) invalid_gateway_name

-- `"x" + fmt.Sprintf("%08x", n)`
abbrev pub encode_length : ℕ → Bytes
encode_length n = b'x' ∷ format_08x n

unfoldable pub total_length : Frame → ℕ
total_length f =
    length f.to
    + 9
    + (length f.from + 9)
    + (length f.header + 9)
    + length (format_09d f.message_type)
    + length (format_09d f.data_type)
    + length f.payload
    + 9
    + 9

unfoldable pub frame_bytes : Frame → Bytes
unfolding total_length
frame_bytes f =
    force_ascii (encode_length (total_length f))
    ++ (force_ascii (encode_length (length f.to))
        ++ (force_ascii (encode_length (length f.from))
            ++ (force_ascii (encode_length (length f.header))
                ++ (force_ascii (format_09d f.message_type)
                    ++ (force_ascii (format_09d f.data_type)
                        ++ (force_ascii (encode_length (length f.payload))
                            ++ (force_ascii f.to
                                ++ (force_ascii f.from
                                    ++ (force_ascii f.header ++ f.payload)))))))))

unfoldable pub encode_frame : Frame → Result EncodeError Bytes
unfolding check_to check_from
encode_frame f = do
  check_to f.to
  check_from f.from
  guard (leb (total_length f) max_message_size) payload_too_large
  ok (frame_bytes f)
