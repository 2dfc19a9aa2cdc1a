-- ===== src/Wire.antt =====
-- The frame of a Pod-OS message: seven length fields of nine bytes, then the To and From addresses,
-- the header and the payload. message/encoder.go writes it, message/decoder.go reads it, and
-- message/raw_edit.go changes the From address in place.
mod Tests
pub mod SizeParam
pub mod Encoder
pub mod Decoder
pub mod Response
pub mod RawEdit
use pod_os_go_client.Prelude.{ℕ, ◌+◌, Bytes}

-- `MaxMessageSizeBytes`, which message/constants.go calls effectively constant
abbrev pub max_message_size : ℕ
max_message_size = 2147483648

-- What `EncodeMessage` lays out: the fields of `Message` and what `ConstructHeader` and the payload
-- formatters returned.
pub record Frame : Type 0 where
  pub to : Bytes
  pub from : Bytes
  pub header : Bytes
  pub message_type : ℕ
  pub data_type : ℕ
  pub payload : Bytes
