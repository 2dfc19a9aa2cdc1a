-- ===== src/Validate/Wire/Header/Command.antt =====
-- `validateNeuralMemoryRequestHeader` and `validateNeuralMemoryResponseHeader` of message/validate.go.
use pod_os_go_client.Prelude.{
  Bool, false, not, ◌&&◌, ◌||◌, Option, none, some, [], ◌∷◌, ◌++◌, ◌==◌, if◌then◌else◌, Bytes,
  codes, str_eq, ℕ,
}
use pod_os_go_client.Prelude.Int.{ℤ, pos, negsuc}
use pod_os_go_client.Text.{trim_space}
use pod_os_go_client.Message.Format.{link_strength_rejected}
use pod_os_go_client.Wire.Decoder.{HeaderMap, lookup}
use pod_os_go_client.Validate.Report.{
  Rule, Severity, ValidationError, ValidationErrors, errorf, is_empty, is_sys_id, report,
  semantic_error, warn_uncovered,
}

-- `h[key]`, which is empty for a key that is not there.
unfoldable pub get_or_empty_field : Bytes → HeaderMap → Bytes
unfolding lookup
get_or_empty_field k h = elim (lookup k h) [ none ↦ [] | some v ↦ v ]

-- `hasHeader`
unfoldable pub has_header : HeaderMap → Bytes → Bool
unfolding get_or_empty_field
has_header h key = not (is_empty (get_or_empty_field key h))

-- `wireStrengthRejected`
unfoldable pub wire_strength_rejected : (Bytes → Option ℕ) → Bytes → Bool
unfolding trim_space link_strength_rejected
wire_strength_rejected parse_float v = elim (parse_float (trim_space v)) [
  | none ↦ false
  | some bits ↦ link_strength_rejected bits
]

abbrev pub wire : Severity → Bytes → Bytes → Rule → ValidationError
wire s field key rule = errorf s (codes "wire") field key rule

abbrev missing : HeaderMap → Severity → Bytes → Bytes → ValidationErrors
missing h s field key = report (not (has_header h key)) (wire s field key Rule.header_missing)

-- Neither of two fields.
abbrev missing_both : HeaderMap → Severity → Bytes → Bytes → Bytes → ValidationErrors
missing_both h s field a b =
    report (not (has_header h a) && not (has_header h b))
      (wire s field (a ++ codes " / " ++ b) Rule.header_missing)

abbrev is_bad_yn : Option Bytes → Bool
is_bad_yn none = false
is_bad_yn (some v) = not (str_eq v (codes "Y") || str_eq v (codes "N"))

-- `validateWireYN`
unfoldable pub validate_wire_yn : HeaderMap → Bytes → Bytes → ValidationErrors
unfolding lookup
validate_wire_yn h key field =
    report (is_bad_yn (lookup key h)) (wire Severity.error field key Rule.header_value)

abbrev is_bad_format : Option Bytes → Bool
is_bad_format none = false
is_bad_format (some v) = not (str_eq v (codes "0") || str_eq v (codes "1"))

-- The target and the owner of a request that applies something to an event.
unfoldable pub validate_wire_target : Bytes → HeaderMap → ValidationErrors
unfolding has_header get_or_empty_field
validate_wire_target intent h =
    missing_both h Severity.error (codes "Event.Id / Event.UniqueId") (codes "event_id")
      (codes "unique_id")
    ++ missing_both h Severity.error (codes "Event.Owner / Event.OwnerUniqueID") (codes "owner")
        (codes "owner_unique_id")
    ++ report (is_sys_id (get_or_empty_field (codes "owner") h))
        (semantic_error intent (codes "Event.Owner") (codes "owner"))
    ++ report
        (is_sys_id (get_or_empty_field (codes "event_id") h)
          || is_sys_id (get_or_empty_field (codes "unique_id") h))
        (semantic_error intent (codes "Event.Id / Event.UniqueId") (codes "event_id / unique_id"))

unfoldable pub validate_wire_get : HeaderMap → ValidationErrors
unfolding validate_wire_yn has_header get_or_empty_field lookup
validate_wire_get h =
    missing_both h Severity.error (codes "Event.Id / Event.UniqueId") (codes "event_id")
      (codes "unique_id")
    ++ report (is_bad_format (lookup (codes "tag_format") h)) (
        wire Severity.error (codes "NeuralMemory.GetEvent.TagFormat") (codes "tag_format")
          Rule.header_value)
    ++ validate_wire_yn h (codes "output_tag_owner") (codes "NeuralMemory.GetEvent.TagOwnerOutput")
    ++ report
        (has_header h (codes "output_tag_owner")
          && not (str_eq (get_or_empty_field (codes "tag_format") h) (codes "1")))
        (wire Severity.warn (codes "NeuralMemory.GetEvent.TagOwnerOutput")
          (codes "output_tag_owner") Rule.semantic)

unfoldable pub validate_wire_search : HeaderMap → ValidationErrors
unfolding validate_wire_yn has_header get_or_empty_field lookup
validate_wire_search h =
    let owner = codes "NeuralMemory.GetEventsForTags.TagOwnerOutput" in
    report (is_bad_format (lookup (codes "buffer_format") h)) (
      wire Severity.error (codes "NeuralMemory.GetEventsForTags.BufferFormat")
        (codes "buffer_format") Rule.header_value)
    ++ validate_wire_yn h (codes "get_tag_owner") owner
    ++ validate_wire_yn h (codes "get_tag_owner_unique_id") owner
    ++ report
        ((has_header h (codes "get_tag_owner") || has_header h (codes "get_tag_owner_unique_id"))
          && not (str_eq (get_or_empty_field (codes "buffer_format") h) (codes "1")))
        (wire Severity.warn owner (codes "get_tag_owner / get_tag_owner_unique_id") Rule.semantic)
    ++ missing h Severity.warn (codes "NeuralMemory.GetEventsForTags.BufferResults")
        (codes "buffer_results")

-- A strength that is there, not blank, and no finite number other than 0.
abbrev bad_strength : (Bytes → Option ℕ) → Option Bytes → Bool
bad_strength parse_float none = false
bad_strength parse_float (some v) =
    not (is_empty (trim_space v)) && wire_strength_rejected parse_float v

unfoldable pub validate_wire_link : (Bytes → Option ℕ) → HeaderMap → ValidationErrors
unfolding wire_strength_rejected has_header lookup
validate_wire_link parse_float h =
    let a = codes "NeuralMemory.Link.StrengthA" in
    let b = codes "NeuralMemory.Link.StrengthB" in
    missing h Severity.error a (codes "strength_a")
    ++ missing h Severity.error b (codes "strength_b")
    ++ report (bad_strength parse_float (lookup (codes "strength_a") h))
        (wire Severity.error a (codes "strength_a") Rule.header_value)
    ++ report (bad_strength parse_float (lookup (codes "strength_b") h))
        (wire Severity.error b (codes "strength_b") Rule.header_value)
    ++ missing h Severity.error (codes "NeuralMemory.Link.Category") (codes "category")
    ++ missing h Severity.error (codes "NeuralMemory.Link.Timestamp") (codes "timestamp")
    ++ missing_both h Severity.error
        (codes "NeuralMemory.Link.OwnerID / NeuralMemory.Link.OwnerUniqueID")
        (codes "owner_event_id") (codes "owner_unique_id")
    ++ report
        (not (has_header h (codes "event_id_a") && has_header h (codes "event_id_b"))
          && not (has_header h (codes "unique_id_a") && has_header h (codes "unique_id_b")))
        (wire Severity.error
          (codes "NeuralMemory.Link.EventA+EventB / NeuralMemory.Link.UniqueIdA+UniqueIdB")
          (codes "event_id_a+event_id_b / unique_id_a+unique_id_b") Rule.header_missing)

abbrev is_int_zero : ℤ → Bool
is_int_zero (pos n) = n == 0
is_int_zero (negsuc n) = false

abbrev needs_payload : ℤ → Bytes → ValidationErrors
needs_payload payload_length field =
    report (is_int_zero payload_length) (wire Severity.error field (codes "payload") Rule.required)

unfoldable pub validate_neural_memory_request_header :
    (Bytes → Option ℕ) → Bytes → HeaderMap → ℤ → ValidationErrors
unfolding validate_wire_target validate_wire_get validate_wire_search validate_wire_link has_header
validate_neural_memory_request_header parse_float cmd h payload_length =
    if str_eq cmd (codes "store")
    then missing h Severity.warn (codes "Event.Timestamp") (codes "timestamp")
    else if str_eq cmd (codes "store_batch")
    then needs_payload payload_length (codes "NeuralMemory.BatchEvents")
    else if str_eq cmd (codes "tag_store_batch")
    then validate_wire_target (codes "StoreBatchTags") h
    else if str_eq cmd (codes "store_data")
    then validate_wire_target (codes "StoreData") h
    else if str_eq cmd (codes "get")
    then validate_wire_get h
    else if str_eq cmd (codes "events_for_tag")
    then validate_wire_search h
    else if str_eq cmd (codes "link")
    then validate_wire_link parse_float h
    else if str_eq cmd (codes "unlink")
    then missing_both h Severity.error (codes "NeuralMemory.Link.Id / NeuralMemory.Link.UniqueId")
        (codes "event_id") (codes "unique_id")
    else if str_eq cmd (codes "link_batch")
    then needs_payload payload_length (codes "NeuralMemory.BatchLinks")
    else warn_uncovered (codes "wire") ∷ []

-- The first of two texts that is not empty.
abbrev or_else_text : Bytes → Bytes → Bytes
or_else_text a b = if is_empty a then b else a

unfoldable pub validate_neural_memory_response_header : HeaderMap → ValidationErrors
unfolding has_header get_or_empty_field
validate_neural_memory_response_header h =
    let cmd = or_else_text (get_or_empty_field (codes "_type") h) (
      or_else_text (get_or_empty_field (codes "_command") h)
        (get_or_empty_field (codes "_db_cmd") h)) in
    missing h Severity.warn (codes "Response.Status") (codes "_status")
    ++ (if str_eq cmd (codes "get")
        then missing_both h Severity.warn (codes "Event.Id") (codes "_event_id") (codes "event_id")
        else if str_eq cmd (codes "link")
        then missing h Severity.warn (codes "Response.LinkId") (codes "link_event")
        else if str_eq cmd (codes "store")
            || (str_eq cmd (codes "store_batch") || str_eq cmd (codes "tag_store_batch"))
        then missing h Severity.warn (codes "Response.TotalEvents") (codes "_count")
        else if str_eq cmd (codes "link_batch")
        then missing h Severity.warn (codes "Response.StorageSuccessCount") (codes "_links_ok")
        else [])
