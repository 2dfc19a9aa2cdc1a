-- ===== src/Validate/Wire/Tests.antt =====
-- The theorems on `ValidateRawMessage` at concrete messages.
use pod_os_go_client.Prelude.{
  ℕ, ◌≡◌, refl, ◌∙◌, true, false, none, Option, some, ◌++◌, arith, Bytes, codes,
}
use pod_os_go_client.Prelude.Int.{pos}
use pod_os_go_client.Prelude.Result.{ok, panic}
use pod_os_go_client.Intents.{IntentType, intent}
use pod_os_go_client.Text.Laws.{every-Every, is_ascii}
use pod_os_go_client.Wire.{Frame}
use pod_os_go_client.Wire.Encoder.{frame_bytes, total_length}
use pod_os_go_client.Wire.Encoder.Layout.{IsPlain, total_length-IsPlain}
use pod_os_go_client.Wire.Decoder.{decode_header, strip_routing}
use pod_os_go_client.Wire.Decoder.OfFrame.{length-input}
use pod_os_go_client.Wire.SizeParam.{decode_message_size_param}
use pod_os_go_client.Validate.Report.{is_name_at_gateway}
use pod_os_go_client.Validate.Wire.{is_known_message_type, validate_raw_message}
use pod_os_go_client.Validate.Wire.Header.{validate_wire_header}
use pod_os_go_client.Validate.Wire.OfFrame.{validate_raw_message-frame}
use pod_os_go_client.Validate.Wire.Panics.{validate_raw_message-panic}

abbrev no_float : Bytes → Option ℕ
no_float s = none

-- A request of the Neural Memory, from an address with routing data.
abbrev store : Frame
store = record {
  to = codes "mem@gw";
  from = codes "me@gw|r1";
  header = codes "_db_cmd=store\tk=v";
  message_type = 1000;
  data_type = 2;
  payload = codes "hello";
}

store-IsPlain : IsPlain store
store-IsPlain = record {
  to_ascii = every-Every is_ascii store.to refl;
  from_ascii = every-Every is_ascii store.from refl;
  header_ascii = every-Every is_ascii store.header refl;
  type_fits = omega arith;
  data_type_fits = omega arith;
}

store_total : total_length store ≡ 99
store_total = total_length-IsPlain store store-IsPlain ∙ omega arith

validate_raw_message-frame_example :
    validate_raw_message true no_float (some (frame_bytes store ++ codes "x"))
    ≡ ok (validate_wire_header no_float (pos 1000) (decode_header store.header) (pos 5))
validate_raw_message-frame_example =
    validate_raw_message-frame store (codes "x") store-IsPlain (omega (arith, store_total)) no_float
      (omega (
        arith,
        store_total,
        length-input store (codes "x") store-IsPlain (omega (arith, store_total)),
      ))
      (unfold is_name_at_gateway in refl) (unfold is_name_at_gateway strip_routing in refl)
      (unfold is_known_message_type in refl)

-- A message whose To length is -36.
abbrev hostile : Bytes
hostile = codes "x0000003f-00000036x00000000x00000000000001000000000002x00000000"

validate_raw_message-panic_example : validate_raw_message true no_float (some hostile) ≡ panic
unfolding decode_message_size_param
validate_raw_message-panic_example =
    validate_raw_message-panic no_float hostile 35 0 0 (pos 63) (pos 1000) (pos 2) (pos 0)
      (omega arith) refl refl refl refl refl refl refl (omega arith) (omega arith)

-- The message type of StatusRequest is not in the list.
status_request-unknown :
    is_known_message_type (pos (intent IntentType.status_request).message_type) ≡ false
unfolding is_known_message_type intent
status_request-unknown = refl
