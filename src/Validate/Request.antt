-- ===== src/Validate/Request.antt =====
-- The checks of message/validate.go on a request that is about one event or one link, and on the
-- options of a retrieval.
use pod_os_go_client.Prelude.{
  Bool, true, false, not, ◌&&◌, ◌||◌, Option, none, some, [], ◌∷◌, ◌++◌, ◌%◌, ◌^◌, ◌==◌, Bytes,
  codes, ℕ, str_eq,
}
use pod_os_go_client.Prelude.Int.{ℤ, pos, negsuc}
use pod_os_go_client.Message.{
  EventFields, GetEventOptions, GetEventsForTagsOptions, LinkFields, Message, NeuralMemoryFields,
  TagOwnerOutput, get_event_opts, other_owner, tag_owner_event_key, tag_owner_none,
  tag_owner_unique_id,
}
use pod_os_go_client.Validate.Report.{
  Rule, Severity, ValidationErrors, errorf, is_empty, is_sys_id, nil_struct, one_of_required,
  report, required_field, semantic_error, semantic_warn,
}

-- For an event that is there; the source returns nothing for a nil pointer.
unfoldable pub validate_apply_to_existing_semantics : Bytes → EventFields → ValidationErrors
validate_apply_to_existing_semantics intent ev =
    report (is_sys_id ev.owner) (semantic_error intent (codes "Event.Owner") (codes "owner"))
    ++ report (is_sys_id ev.id) (semantic_error intent (codes "Event.Id") (codes "event_id"))
    ++ report (is_sys_id ev.unique_id)
        (semantic_error intent (codes "Event.UniqueId") (codes "unique_id"))

unfoldable pub validate_lookup_owner_not_used_event : Bytes → EventFields → ValidationErrors
validate_lookup_owner_not_used_event intent ev =
    report (not (is_empty ev.owner) || not (is_empty ev.owner_unique_id)) (
      semantic_warn intent (codes "Event.Owner / Event.OwnerUniqueID")
        (codes "owner / owner_unique_id"))

unfoldable pub validate_lookup_owner_not_used_link : Bytes → LinkFields → ValidationErrors
validate_lookup_owner_not_used_link intent lk =
    report
      (not (is_empty lk.owner) || (not (is_empty lk.owner_id) || not (is_empty lk.owner_unique_id)))
      (semantic_warn intent (codes "NeuralMemory.Link.Owner / OwnerID / OwnerUniqueID")
        (codes "owner / owner_event_id / owner_unique_id"))

-- The field's name is never empty where these two are called.
unfoldable pub validate_create_event_id_set : Bytes → Bytes → Bytes → ValidationErrors
validate_create_event_id_set intent id_field id_value =
    report (not (is_empty id_value)) (semantic_warn intent id_field (codes "event_id"))

unfoldable pub validate_create_link_id_set : Bytes → Bytes → Bytes → ValidationErrors
validate_create_link_id_set intent id_field id_value =
    report (not (is_empty id_value)) (semantic_warn intent id_field (codes "event_id"))

-- Neither of two ids is set.
abbrev pub both_empty : Bytes → Bytes → Bool
both_empty a b = is_empty a && is_empty b

abbrev pub id_or_unique_id : Bytes → EventFields → ValidationErrors
id_or_unique_id intent ev = report (both_empty ev.id ev.unique_id) (
    one_of_required intent (codes "Event.Id") (codes "event_id") (codes "Event.UniqueId")
      (codes "unique_id"))

abbrev pub owner_or_owner_unique_id : Bytes → EventFields → ValidationErrors
owner_or_owner_unique_id intent ev = report (both_empty ev.owner ev.owner_unique_id) (
    one_of_required intent (codes "Event.Owner") (codes "owner") (codes "Event.OwnerUniqueID")
      (codes "owner_unique_id"))

unfoldable pub validate_store_event : Message → ValidationErrors
unfolding validate_create_event_id_set
validate_store_event m =
    let intent = codes "StoreEvent" in
    elim m.event [
      | none ↦ nil_struct intent (codes "Event") ∷ []
      | some ev ↦
          owner_or_owner_unique_id intent ev
          ++ validate_create_event_id_set intent (codes "Event.Id") ev.id
          ++ report (is_empty ev.location)
              (required_field intent (codes "Event.Location") (codes "loc"))
          ++ report (is_empty ev.location_separator)
              (required_field intent (codes "Event.LocationSeparator") (codes "loc_delim"))
    ]

unfoldable pub validate_store_data : Message → ValidationErrors
unfolding validate_apply_to_existing_semantics
validate_store_data m =
    let intent = codes "StoreData" in
    elim m.event [
      | none ↦ nil_struct intent (codes "Event") ∷ []
      | some ev ↦
          id_or_unique_id intent ev
          ++ owner_or_owner_unique_id intent ev
          ++ validate_apply_to_existing_semantics intent ev
    ]

unfoldable pub validate_tag_owner_output_value :
    Bytes → Bytes → Bytes → TagOwnerOutput → ValidationErrors
validate_tag_owner_output_value intent field wire_field tag_owner_none = []
validate_tag_owner_output_value intent field wire_field tag_owner_event_key = []
validate_tag_owner_output_value intent field wire_field tag_owner_unique_id = []
validate_tag_owner_output_value intent field wire_field (other_owner s) =
    errorf Severity.error intent field wire_field Rule.format ∷ []

-- `v != TagOwnerNone`
abbrev wants_owner : TagOwnerOutput → Bool
wants_owner tag_owner_none = false
wants_owner tag_owner_event_key = true
wants_owner tag_owner_unique_id = true
wants_owner (other_owner s) = true

-- A `NullInt` that is valid and has this value.
abbrev is_value : ℕ → Option ℤ → Bool
is_value n none = false
is_value n (some (pos k)) = k == n
is_value n (some (negsuc k)) = false

abbrev is_valid : Option ℤ → Bool
is_valid none = false
is_valid (some z) = true

unfoldable pub validate_get_event_tag_format : Bytes → Option GetEventOptions → ValidationErrors
unfolding validate_tag_owner_output_value
validate_get_event_tag_format intent none = []
validate_get_event_tag_format intent (some opts) =
    let tf_field = codes "NeuralMemory.GetEvent.TagFormat" in
    let owner_field = codes "NeuralMemory.GetEvent.TagOwnerOutput" in
    let tag_format_1 = is_value 1 opts.tag_format in
    report (is_valid opts.tag_format && (not (is_value 0 opts.tag_format) && not tag_format_1))
      (errorf Severity.error intent tf_field (codes "tag_format") Rule.format)
    ++ validate_tag_owner_output_value intent owner_field (codes "output_tag_owner")
        opts.tag_owner_output
    ++ report (wants_owner opts.tag_owner_output && not tag_format_1)
        (semantic_error intent owner_field (codes "output_tag_owner"))
    ++ report (tag_format_1 && not opts.get_tags)
        (errorf Severity.warn intent tf_field (codes "tag_format") Rule.semantic)

unfoldable pub validate_get_event : Message → ValidationErrors
unfolding validate_lookup_owner_not_used_event validate_get_event_tag_format get_event_opts
validate_get_event m =
    let intent = codes "GetEvent" in
    elim m.event [
      | none ↦ nil_struct intent (codes "Event") ∷ []
      | some ev ↦
          id_or_unique_id intent ev
          ++ validate_lookup_owner_not_used_event intent ev
          ++ validate_get_event_tag_format intent (get_event_opts m)
    ]

unfoldable pub validate_get_events_for_tags_tag_format :
    Bytes → Option GetEventsForTagsOptions → ValidationErrors
unfolding validate_tag_owner_output_value
validate_get_events_for_tags_tag_format intent none = []
validate_get_events_for_tags_tag_format intent (some opts) =
    let bf = opts.buffer_format in
    let owner_field = codes "NeuralMemory.GetEventsForTags.TagOwnerOutput" in
    let owner_wire = codes "get_tag_owner / get_tag_owner_unique_id" in
    report (not (is_empty bf || (str_eq bf (codes "0") || str_eq bf (codes "1")))) (
      errorf Severity.error intent (codes "NeuralMemory.GetEventsForTags.BufferFormat")
        (codes "buffer_format") Rule.format)
    ++ validate_tag_owner_output_value intent owner_field owner_wire opts.tag_owner_output
    ++ report (wants_owner opts.tag_owner_output && not (str_eq bf (codes "1")))
        (errorf Severity.warn intent owner_field owner_wire Rule.semantic)

abbrev is_none {ℓ} : {A : Type ℓ} → Option A → Bool
is_none none = true
is_none (some a) = false

unfoldable pub validate_get_events_for_tags : Message → ValidationErrors
unfolding validate_get_events_for_tags_tag_format
validate_get_events_for_tags m =
    let intent = codes "GetEventsForTags" in
    elim m.neural_memory [
      | none ↦ nil_struct intent (codes "NeuralMemory") ∷ []
      | some n ↦
          report (is_none n.get_events_for_tags)
            (nil_struct intent (codes "NeuralMemory.GetEventsForTags"))
          ++ report (not (is_none n.search)) (
              errorf Severity.error intent (codes "NeuralMemory.Search") (codes "search")
                Rule.not_serialized)
          ++ validate_get_events_for_tags_tag_format intent n.get_events_for_tags
    ]

-- `v == 0` for a `float64`, by its bits: zero and negative zero.
abbrev pub is_zero : ℕ → Bool
is_zero v = v % 2 ^ 63 == 0

-- Neither two event ids nor two unique ids.
abbrev pub no_pair : LinkFields → Bool
no_pair lk =
    not (not (is_empty lk.event_a) && not (is_empty lk.event_b))
    && not (not (is_empty lk.unique_id_a) && not (is_empty lk.unique_id_b))

unfoldable pub validate_link : Bytes → LinkFields → ValidationErrors
unfolding validate_create_link_id_set
validate_link intent lk =
    report (no_pair lk) (
      errorf Severity.error intent
        (codes "NeuralMemory.Link.EventA+EventB / NeuralMemory.Link.UniqueIdA+UniqueIdB")
        (codes "event_id_a+event_id_b / unique_id_a+unique_id_b") Rule.one_of_required)
    ++ report (is_empty lk.category)
        (required_field intent (codes "NeuralMemory.Link.Category") (codes "category"))
    ++ report (is_zero lk.strength_a)
        (required_field intent (codes "NeuralMemory.Link.StrengthA") (codes "strength_a"))
    ++ report (is_zero lk.strength_b)
        (required_field intent (codes "NeuralMemory.Link.StrengthB") (codes "strength_b"))
    ++ report (is_empty lk.timestamp)
        (required_field intent (codes "NeuralMemory.Link.Timestamp") (codes "timestamp"))
    ++ report (both_empty lk.owner_id lk.owner_unique_id) (
        one_of_required intent (codes "NeuralMemory.Link.OwnerID") (codes "owner_event_id")
          (codes "NeuralMemory.Link.OwnerUniqueID") (codes "owner_unique_id"))
    ++ validate_create_link_id_set intent (codes "NeuralMemory.Link.Id") lk.id
    ++ report (is_empty lk.location)
        (required_field intent (codes "NeuralMemory.Link.Location") (codes "loc"))
    ++ report (is_empty lk.location_separator)
        (required_field intent (codes "NeuralMemory.Link.LocationSeparator") (codes "loc_delim"))

-- The link of a request, or the report that something on the way to it is nil.
abbrev pub with_link :
    Bytes → Option NeuralMemoryFields → (LinkFields → ValidationErrors) → ValidationErrors
with_link intent none check = nil_struct intent (codes "NeuralMemory") ∷ []
with_link intent (some n) check = elim n.link [
  | none ↦ nil_struct intent (codes "NeuralMemory.Link") ∷ []
  | some lk ↦ check lk
]

unfoldable pub validate_link_event : Message → ValidationErrors
unfolding validate_link
validate_link_event m =
    with_link (codes "LinkEvent") m.neural_memory (validate_link (codes "LinkEvent"))

unfoldable pub validate_unlink : Bytes → LinkFields → ValidationErrors
unfolding validate_lookup_owner_not_used_link
validate_unlink intent lk =
    report (both_empty lk.id lk.unique_id) (
      one_of_required intent (codes "NeuralMemory.Link.Id") (codes "event_id")
        (codes "NeuralMemory.Link.UniqueId") (codes "unique_id"))
    ++ validate_lookup_owner_not_used_link intent lk
    ++ report (not (is_empty lk.location) && is_empty lk.location_separator)
        (required_field intent (codes "NeuralMemory.Link.LocationSeparator") (codes "loc_delim"))

unfoldable pub validate_unlink_event : Message → ValidationErrors
unfolding validate_unlink
validate_unlink_event m =
    with_link (codes "UnlinkEvent") m.neural_memory (validate_unlink (codes "UnlinkEvent"))
