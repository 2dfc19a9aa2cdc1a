-- ===== src/Validate/Envelope.antt =====
-- `Message.Validate` of message/validate.go: the envelope, the checks of the messages of a gateway, an
-- actor or a reply, and the table `intentValidators`.
use pod_os_go_client.Prelude.{
  Bool, false, not, ◌&&◌, ◌||◌, none, some, List, [], ◌∷◌, ◌++◌, if◌then◌else◌, Bytes, codes,
  str_eq,
}
use pod_os_go_client.Message.{Message}
use pod_os_go_client.Validate.Report.{
  Rule, Severity, ValidationErrors, errorf, is_empty, is_name_at_gateway, nil_struct, report,
  required_field,
}
use pod_os_go_client.Validate.Request.{
  validate_get_event, validate_get_events_for_tags, validate_link_event, validate_store_data,
  validate_store_event, validate_unlink_event,
}
use pod_os_go_client.Validate.Batch.{
  validate_store_batch_events, validate_store_batch_links, validate_store_batch_tags,
}

-- An address is missing, or is not of the form name@gateway.
unfoldable pub validate_address : Bytes → Bytes → Bytes → Bytes → ValidationErrors
unfolding is_name_at_gateway
validate_address intent field wire_field address =
    if is_empty address
    then required_field intent field wire_field ∷ []
    else report (not (is_name_at_gateway address))
        (errorf Severity.error intent field wire_field Rule.format)

unfoldable pub validate_envelope : Message → ValidationErrors
unfolding validate_address
validate_envelope m =
    let unknown = codes "(unknown)" in
    let intent = if is_empty m.intent.name then unknown else m.intent.name in
    validate_address intent (codes "Envelope.To") (codes "to") m.to
    ++ validate_address intent (codes "Envelope.From") (codes "from") m.from
    ++ report (is_empty m.intent.name)
        (required_field unknown (codes "Envelope.Intent") (codes "intent"))
    ++ report (str_eq m.intent.name (codes "GatewayId") && is_empty m.client_name)
        (required_field intent (codes "Envelope.ClientName") (codes "id:name"))

unfoldable pub validate_gateway_id : Message → ValidationErrors
validate_gateway_id m =
    let intent = codes "GatewayId" in
    report (is_empty m.client_name)
      (required_field intent (codes "Envelope.ClientName") (codes "id:name"))
    ++ report (not (is_empty m.passcode) && is_empty m.user_name)
        (required_field intent (codes "Envelope.UserName") (codes "id:user"))
    ++ report (not (is_empty m.user_name) && is_empty m.passcode)
        (required_field intent (codes "Envelope.Passcode") (codes "id:passcode"))

unfoldable pub validate_actor_report : Message → ValidationErrors
validate_actor_report m =
    let intent = codes "ActorReport" in
    elim m.response [
      | none ↦ nil_struct intent (codes "Response") ∷ []
      | some (status, text) ↦
          report (is_empty status)
            (required_field intent (codes "Response.Status") (codes "_status"))
          ++ report (is_empty text)
              (required_field intent (codes "Response.Message") (codes "_msg"))
    ]

unfoldable pub validate_response_intent : Message → ValidationErrors
validate_response_intent m = elim m.response [
  | none ↦
      errorf Severity.warn m.intent.name (codes "Response") (codes "_status") Rule.nil_struct ∷ []
  | some (status, text) ↦
      report (is_empty status) (
        errorf Severity.warn m.intent.name (codes "Response.Status") (codes "_status")
          Rule.required)
]

unfoldable pub is_one_of : Bytes → List Bytes → Bool
is_one_of n [] = false
is_one_of n (k ∷ ks) = str_eq n k || is_one_of n ks

-- The replies that the table names; it has no entry for StoreDataResponse.
abbrev response_names : List Bytes
response_names =
    codes "StoreEventResponse"
    ∷ codes "StoreBatchEventsResponse"
    ∷ codes "StoreBatchTagsResponse"
    ∷ codes "GetEventResponse"
    ∷ codes "GetEventsForTagsResponse"
    ∷ codes "LinkEventResponse"
    ∷ codes "UnlinkEventResponse"
    ∷ codes "StoreBatchLinksResponse"
    ∷ []

-- `intentValidators[name](m)`. The checks of GatewayStreamOn, GatewayStreamOff, ActorRequest,
-- ActorResponse, Status and StatusRequest report nothing, as for a name that the table lacks.
unfoldable pub validate_by_name : Message → Bytes → ValidationErrors
unfolding validate_store_event validate_store_data validate_store_batch_events
    validate_store_batch_tags validate_get_event validate_get_events_for_tags validate_link_event
    validate_unlink_event validate_store_batch_links validate_response_intent validate_gateway_id
    validate_actor_report is_one_of
validate_by_name m n =
    if str_eq n (codes "StoreEvent")
    then validate_store_event m
    else if str_eq n (codes "StoreData")
    then validate_store_data m
    else if str_eq n (codes "StoreBatchEvents")
    then validate_store_batch_events m
    else if str_eq n (codes "StoreBatchTags")
    then validate_store_batch_tags m
    else if str_eq n (codes "GetEvent")
    then validate_get_event m
    else if str_eq n (codes "GetEventsForTags")
    then validate_get_events_for_tags m
    else if str_eq n (codes "LinkEvent")
    then validate_link_event m
    else if str_eq n (codes "UnlinkEvent")
    then validate_unlink_event m
    else if str_eq n (codes "StoreBatchLinks")
    then validate_store_batch_links m
    else if is_one_of n response_names
    then validate_response_intent m
    else if str_eq n (codes "GatewayId")
    then validate_gateway_id m
    else if str_eq n (codes "ActorReport")
    then validate_actor_report m
    else []

unfoldable pub validate_intent : Message → ValidationErrors
unfolding validate_by_name
validate_intent m = validate_by_name m m.intent.name

-- `Validate`, with `validationEnabled` for the variable PODOS_VALIDATE.
unfoldable pub validate : Bool → Message → ValidationErrors
unfolding validate_envelope validate_intent
validate validation_enabled m =
    if validation_enabled then validate_envelope m ++ validate_intent m else []
