-- ===== src/Message/Header.antt =====
-- The header texts of message/header.go: `key=value` fields that each end with a tab, and in most
-- headers a last field `_msg_id` without one.
pub mod Gateway
pub mod Store
pub mod Get
pub mod Link
pub mod Decode
pub mod Lookup
use pod_os_go_client.Prelude.{
  Bool, Option, none, some, List, [], ◌∷◌, ◌++◌, if◌then◌else◌, Bytes, codes,
}
use pod_os_go_client.Wire.Decoder.{HeaderMap}

-- A key that a header function may write, with the value if it does.
abbrev pub Slot : Type 0
Slot = Bytes × Option Bytes

-- What the `strings.Builder` of a header function is given: the fields written with a tab behind
-- them, and the `_msg_id` written without one at the end.
pub record HeaderText : Type 0 where
  pub slots : List Slot
  pub last_id : Option Bytes

-- `if value != "" { … }`
abbrev pub nonempty : Bytes → Option Bytes
nonempty [] = none
nonempty (c ∷ s) = some (c ∷ s)

-- `else if`: only when the text before is empty.
abbrev pub unless_set : Bytes → Option Bytes → Option Bytes
unless_set [] o = o
unless_set (c ∷ s) o = none

abbrev pub or_default : Bytes → Bytes → Bytes
or_default [] d = d
or_default (c ∷ s) d = c ∷ s

-- `if flag { … "=Y\t" }`
abbrev pub yes : Bool → Option Bytes
yes b = if b then some (codes "Y") else none

unfoldable pub written : List Slot → HeaderMap
written [] = []
written ((k, none) ∷ ss) = written ss
written ((k, some v) ∷ ss) = (k, v) ∷ written ss

-- The fields, and the text behind them.
unfoldable pub write_fields : HeaderMap → Bytes → Bytes
write_fields [] last = last
write_fields ((k, v) ∷ es) last = k ++ b'=' ∷ (v ++ b'\t' ∷ write_fields es last)

abbrev pub write_last : Option Bytes → Bytes
write_last none = []
write_last (some v) = codes "_msg_id" ++ b'=' ∷ v

-- `_header.String()`
unfoldable pub header_string : HeaderText → Bytes
unfolding written write_fields
header_string h = write_fields (written h.slots) (write_last h.last_id)
