-- ===== src/Wire/SizeParam.antt =====
-- `decodeMessageSizeParam` of message/decoder.go.
pub mod Laws
use pod_os_go_client.Prelude.{ℕ, ◌^◌, Option, some, [], ◌∷◌, ◌==◌, if◌then◌else◌, Bytes}
use pod_os_go_client.Prelude.Int.{ℤ, pos}
use pod_os_go_client.Strconv.{parse_int}
use pod_os_go_client.Text.{trim_space, trim_right_nul}

-- behind the trimming; the length test and the test of the first byte are the patterns
unfoldable pub decode_trimmed : Bytes → Option ℤ
unfolding parse_int
decode_trimmed [] = some (pos 0)
decode_trimmed (c ∷ s) =
    if c == b'x' then parse_int 16 (2 ^ 31) s else parse_int 10 (2 ^ 31) (c ∷ s)

unfoldable pub decode_message_size_param : Bytes → Option ℤ
unfolding decode_trimmed trim_space trim_right_nul
decode_message_size_param param = decode_trimmed (trim_space (trim_right_nul param))
