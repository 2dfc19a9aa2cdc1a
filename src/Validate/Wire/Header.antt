-- ===== src/Validate/Wire/Header.antt =====
-- `validateWireHeader` of message/validate.go and the checks of the requests and replies of the Neural
-- Memory by their commands. `strconv.ParseFloat` is a parameter, which gives the bits of a `float64`.
pub mod Command
use pod_os_go_client.Prelude.{
  Bool, true, false, not, ◌&&◌, ◌||◌, Option, none, some, List, [], ◌∷◌, ◌++◌, ◌==◌, if◌then◌else◌,
  Bytes, codes, str_eq, ℕ,
}
use pod_os_go_client.Prelude.Int.{ℤ, pos, negsuc}
use pod_os_go_client.Intents.{intent_from_command}
use pod_os_go_client.Wire.Decoder.{HeaderMap, lookup}
use pod_os_go_client.Validate.Report.{
  Rule, Severity, ValidationErrors, errorf, is_empty, report, warn_uncovered,
}
use Command.{
  get_or_empty_field, has_header, validate_neural_memory_request_header,
  validate_neural_memory_response_header, wire,
}

abbrev is_none {ℓ} : {A : Type ℓ} → Option A → Bool
is_none none = true
is_none (some a) = false

-- Message type 1000.
unfoldable pub validate_wire_request : (Bytes → Option ℕ) → HeaderMap → ℤ → ValidationErrors
unfolding get_or_empty_field intent_from_command validate_neural_memory_request_header
validate_wire_request parse_float h payload_length =
    let cmd = get_or_empty_field (codes "_db_cmd") h in
    if is_empty cmd
    then wire Severity.error (codes "_db_cmd") (codes "_db_cmd") Rule.header_missing ∷ []
    else report (is_none (intent_from_command cmd))
        (wire Severity.error (codes "_db_cmd") (codes "_db_cmd") Rule.header_value)
      ++ validate_neural_memory_request_header parse_float cmd h payload_length

-- The switch on the message type, for a type that is not negative.
unfoldable pub validate_wire_type : (Bytes → Option ℕ) → ℕ → HeaderMap → ℤ → ValidationErrors
unfolding validate_wire_request validate_neural_memory_response_header has_header get_or_empty_field
validate_wire_type parse_float n h payload_length =
    if n == 1000
    then validate_wire_request parse_float h payload_length
    else if n == 1001
    then validate_neural_memory_response_header h
    else if n == 5
    then report (not (has_header h (codes "id:name")))
        (wire Severity.error (codes "Envelope.ClientName") (codes "id:name") Rule.header_missing)
    else if n == 2
    then report (not (has_header h (codes "_msg_id")))
        (wire Severity.warn (codes "Envelope.MessageId") (codes "_msg_id") Rule.header_missing)
    else if n == 4
    then report (not (str_eq (get_or_empty_field (codes "_type") h) (codes "status")))
        (wire Severity.error (codes "_type") (codes "_type") Rule.header_missing)
    else if n == 9 || n == 10
    then []
    else if n == 110
    then report (not (has_header h (codes "_msg_id")))
        (wire Severity.warn (codes "Envelope.MessageId") (codes "_msg_id") Rule.header_missing)
    else if n == 3 || (n == 19 || n == 30)
    then []
    else warn_uncovered (codes "wire") ∷ []

-- A field that is there and empty.
abbrev is_set_empty : Option Bytes → Bool
is_set_empty none = false
is_set_empty (some v) = is_empty v

unfoldable pub validate_wire_header : (Bytes → Option ℕ) → ℤ → HeaderMap → ℤ → ValidationErrors
unfolding validate_wire_type lookup
validate_wire_header parse_float message_type h payload_length =
    report (is_set_empty (lookup (codes "_msg_id") h))
      (wire Severity.warn (codes "Envelope.MessageId") (codes "_msg_id") Rule.format)
    ++ elim message_type [
      | negsuc n ↦ warn_uncovered (codes "wire") ∷ []
      | pos n ↦ validate_wire_type parse_float n h payload_length
    ]
