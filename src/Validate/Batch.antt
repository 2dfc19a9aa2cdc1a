-- ===== src/Validate/Batch.antt =====
-- `validatePayload` of message/validate.go, and the checks of the three batch requests, which call it.
use pod_os_go_client.Prelude.{
  Bool, true, false, Option, none, some, List, [], ◌∷◌, ◌++◌, suc, Bytes, codes, ℕ,
}
use pod_os_go_client.Message.{
  BatchEventSpec, BatchLinkEventSpec, Data, EventFields, LinkFields, Message, Tag, TagValue,
  batch_event_specs, nil, payload_data, tag_list, tag_slice, tags_of,
}
use pod_os_go_client.Message.Format.{format_uint}
use pod_os_go_client.Validate.Report.{
  Rule, Severity, ValidationErrors, errorf, is_empty, nil_struct, report, required_field,
}
use pod_os_go_client.Validate.Request.{
  both_empty, id_or_unique_id, is_zero, no_pair, owner_or_owner_unique_id,
  validate_apply_to_existing_semantics, validate_create_event_id_set, validate_create_link_id_set,
}

-- `fmt.Sprintf("<list>[%d]<tail>", i)`
abbrev path : Bytes → ℕ → Bytes → Bytes
path list i tail = list ++ codes "[" ++ format_uint i ++ codes "]" ++ tail

abbrev payload_error : Bytes → Bytes → Bytes → Rule → ValidationErrors
payload_error intent field wire_field rule = errorf Severity.error intent field wire_field rule ∷ []

-- `payload_format`, in a record of a batch.
abbrev bad_record : Bool → Bytes → Bytes → Bytes → ValidationErrors
bad_record broken intent field wire_field =
    report broken (errorf Severity.error intent field wire_field Rule.payload_format)

unfoldable pub validate_batch_event : Bytes → ℕ → EventFields → ValidationErrors
unfolding validate_create_event_id_set format_uint
validate_batch_event intent i ev =
    let p = path (codes "NeuralMemory.BatchEvents") i (codes ".Event") in
    report (is_empty ev.timestamp)
      (required_field intent (p ++ codes ".Timestamp") (codes "timestamp"))
    ++ report (both_empty ev.owner ev.owner_unique_id) (
        errorf Severity.error intent ((p ++ codes ".Owner / ") ++ (p ++ codes ".OwnerUniqueID"))
          (codes "owner / owner_unique_id") Rule.one_of_required)
    ++ validate_create_event_id_set intent (p ++ codes ".Id") ev.id
    ++ bad_record (is_empty ev.location) intent (p ++ codes ".Location") (codes "loc")
    ++ bad_record (is_empty ev.location_separator) intent (p ++ codes ".LocationSeparator")
        (codes "loc_delim")

unfoldable pub validate_batch_events_from : Bytes → ℕ → List BatchEventSpec → ValidationErrors
unfolding validate_batch_event
validate_batch_events_from intent i [] = []
validate_batch_events_from intent i (s ∷ ss) =
    validate_batch_event intent i s.event ++ validate_batch_events_from intent (suc i) ss

-- Without a slice in the Neural Memory, the payload has to have one.
abbrev batch_events_payload : Bytes → Data → ValidationErrors
batch_events_payload intent nil =
    payload_error intent (codes "NeuralMemory.BatchEvents") (codes "payload") Rule.required
batch_events_payload intent (batch_event_specs es) = []
batch_events_payload intent _ =
    payload_error intent (codes "Payload.Data") (codes "payload") Rule.payload_type

abbrev pub batch_events_of : Message → List BatchEventSpec
batch_events_of m = elim m.neural_memory [ none ↦ [] | some n ↦ n.batch_events ]

abbrev pub batch_links_of : Message → List BatchLinkEventSpec
batch_links_of m = elim m.neural_memory [ none ↦ [] | some n ↦ n.batch_links ]

unfoldable pub validate_store_batch_events : Message → ValidationErrors
unfolding validate_batch_events_from payload_data
validate_store_batch_events m = elim (batch_events_of m) [
  | [] ↦ batch_events_payload m.intent.name (payload_data m)
  | e ∷ es ↦ validate_batch_events_from m.intent.name 0 (e ∷ es)
]

-- Tags

abbrev is_nil : TagValue → Bool
is_nil TagValue.nil = true
is_nil _ = false

unfoldable pub validate_tag_list_from : Bytes → ℕ → List Tag → ValidationErrors
unfolding format_uint
validate_tag_list_from intent i [] = []
validate_tag_list_from intent i (t ∷ ts) =
    bad_record (is_empty t.key) intent (path (codes "NeuralMemory.Tags") i (codes ".Key"))
      (codes "key")
    ++ bad_record (is_nil t.value) intent (path (codes "NeuralMemory.Tags") i (codes ".Value"))
        (codes "value")
    ++ validate_tag_list_from intent (suc i) ts

unfoldable pub validate_tag_list : Bytes → List Tag → ValidationErrors
unfolding validate_tag_list_from
validate_tag_list intent tags = validate_tag_list_from intent 0 tags

abbrev batch_tags_payload : Bytes → Data → ValidationErrors
batch_tags_payload intent nil =
    payload_error intent (codes "NeuralMemory.Tags") (codes "payload") Rule.required
batch_tags_payload intent (tag_list ts) = validate_tag_list intent ts
batch_tags_payload intent (tag_slice ts) = validate_tag_list intent ts
batch_tags_payload intent _ =
    payload_error intent (codes "NeuralMemory.Tags / Payload.Data") (codes "payload")
      Rule.payload_type

unfoldable pub validate_batch_tags : Message → ValidationErrors
unfolding validate_tag_list payload_data tags_of
validate_batch_tags m = elim (tags_of m) [
  | [] ↦ batch_tags_payload m.intent.name (payload_data m)
  | t ∷ ts ↦ validate_tag_list m.intent.name (t ∷ ts)
]

unfoldable pub validate_batch_target : Bytes → Option EventFields → ValidationErrors
unfolding validate_apply_to_existing_semantics
validate_batch_target intent none = nil_struct intent (codes "Event") ∷ []
validate_batch_target intent (some ev) =
    id_or_unique_id intent ev
    ++ owner_or_owner_unique_id intent ev
    ++ validate_apply_to_existing_semantics intent ev

unfoldable pub validate_store_batch_tags : Message → ValidationErrors
unfolding validate_batch_target validate_batch_tags
validate_store_batch_tags m =
    validate_batch_target (codes "StoreBatchTags") m.event ++ validate_batch_tags m

-- Links

unfoldable pub validate_batch_link : Bytes → ℕ → EventFields → LinkFields → ValidationErrors
unfolding validate_create_event_id_set validate_create_link_id_set format_uint
validate_batch_link intent i ev lk =
    let e = path (codes "NeuralMemory.BatchLinks") i (codes ".Event") in
    let l = path (codes "NeuralMemory.BatchLinks") i (codes ".Link") in
    bad_record (is_empty ev.timestamp) intent (e ++ codes ".Timestamp") (codes "timestamp")
    ++ bad_record (both_empty ev.owner ev.owner_unique_id) intent
        ((e ++ codes ".Owner / ") ++ (e ++ codes ".OwnerUniqueID"))
        (codes "owner / owner_unique_id")
    ++ validate_create_event_id_set intent (e ++ codes ".Id") ev.id
    ++ validate_create_link_id_set intent (l ++ codes ".Id") lk.id
    ++ bad_record (is_empty lk.timestamp) intent (l ++ codes ".Timestamp") (codes "timestamp")
    ++ bad_record (no_pair lk) intent
        ((l ++ codes ".EventA+EventB / ") ++ (l ++ codes ".UniqueIdA+UniqueIdB"))
        (codes "event_id_a+event_id_b / unique_id_a+unique_id_b")
    ++ bad_record (is_empty lk.category) intent (l ++ codes ".Category") (codes "category")
    ++ bad_record (is_zero lk.strength_a) intent (l ++ codes ".StrengthA") (codes "strength_a")
    ++ bad_record (is_zero lk.strength_b) intent (l ++ codes ".StrengthB") (codes "strength_b")
    ++ bad_record (both_empty lk.owner_id lk.owner_unique_id) intent
        ((l ++ codes ".OwnerID / ") ++ (l ++ codes ".OwnerUniqueID"))
        (codes "owner_event_id / owner_unique_id")

unfoldable pub validate_batch_links_from : Bytes → ℕ → List BatchLinkEventSpec → ValidationErrors
unfolding validate_batch_link
validate_batch_links_from intent i [] = []
validate_batch_links_from intent i (s ∷ ss) =
    validate_batch_link intent i s.event s.link ++ validate_batch_links_from intent (suc i) ss

unfoldable pub validate_store_batch_links : Message → ValidationErrors
unfolding validate_batch_links_from
validate_store_batch_links m = elim m.neural_memory [
  | none ↦ nil_struct (codes "StoreBatchLinks") (codes "NeuralMemory") ∷ []
  | some n ↦ elim n.batch_links [
    | [] ↦
        payload_error m.intent.name (codes "NeuralMemory.BatchLinks") (codes "payload")
          Rule.required
    | l ∷ ls ↦ validate_batch_links_from m.intent.name 0 (l ∷ ls)
  ]
]
