-- ===== src/Message/Header/Get.antt =====
-- The headers of the requests that read events, of message/header.go.
use pod_os_go_client.Prelude.{
  zero, suc, Option, none, some, List, [], ◌∷◌, ◌++◌, if◌then◌else◌, Bytes, codes,
}
use pod_os_go_client.Prelude.Int.{ℤ, pos, negsuc}
use mathlib.Core.Option
use pod_os_go_client.Text.{force_ascii}
use pod_os_go_client.Message.{
  Message, EventFields, GetEventOptions, GetEventsForTagsOptions, TagOwnerOutput, tag_owner_none,
  tag_owner_event_key, tag_owner_unique_id, other_owner, get_event_opts, get_events_for_tags_opts,
}
use pod_os_go_client.Message.Format.{itoa}
use pod_os_go_client.Message.Header.{HeaderText, Slot, nonempty, or_default, unless_set, yes}

abbrev ascii : Bytes → Option Bytes
ascii s = Option.map force_ascii (nonempty s)

-- `if n > 0 { … }` and `if n != 0 { … }`
abbrev positive : ℤ → Option Bytes
positive (pos zero) = none
positive (pos (suc n)) = some (itoa (pos (suc n)))
positive (negsuc n) = none

abbrev nonzero : ℤ → Option Bytes
nonzero (pos zero) = none
nonzero n = some (itoa n)

abbrev int_or_zero : Option ℤ → ℤ
int_or_zero none = pos 0
int_or_zero (some n) = n

abbrev output_tag_owner : TagOwnerOutput → Option Bytes
output_tag_owner tag_owner_none = none
output_tag_owner tag_owner_event_key = some (codes "Y")
output_tag_owner tag_owner_unique_id = some (codes "N")
output_tag_owner (other_owner s) = none

abbrev get_tag_owner : TagOwnerOutput → Option Bytes
get_tag_owner tag_owner_event_key = some (codes "Y")
get_tag_owner _ = none

abbrev get_tag_owner_unique_id : TagOwnerOutput → Option Bytes
get_tag_owner_unique_id tag_owner_unique_id = some (codes "Y")
get_tag_owner_unique_id _ = none

unfoldable pub event_slots : Option EventFields → List Slot
unfolding force_ascii
event_slots none = []
event_slots (some e) = (codes "event_id", ascii e.id) ∷ (codes "unique_id", ascii e.unique_id) ∷ []

unfoldable pub option_slots : Option GetEventOptions → List Slot
unfolding itoa
option_slots none = []
option_slots (some o) =
    (codes "send_data", yes o.send_data)
    ∷ (codes "local_id_only", yes o.local_id_only)
    ∷ (codes "get_tags", yes o.get_tags)
    ∷ (codes "get_links", yes o.get_links)
    ∷ (codes "get_link_tags", yes o.get_link_tags)
    ∷ (codes "get_target_tags", yes o.get_target_tags)
    ∷ (codes "event_facet_filter", nonempty o.event_facet_filter)
    ∷ (codes "link_facet_filter", nonempty o.link_facet_filter)
    ∷ (codes "target_facet_filter", nonempty o.target_facet_filter)
    ∷ (codes "category_filter", nonempty o.category_filter)
    ∷ (codes "tag_filter", nonempty o.tag_filter)
    ∷ (codes "tag_format", some (itoa (int_or_zero o.tag_format)))
    ∷ (codes "output_tag_owner", output_tag_owner o.tag_owner_output)
    ∷ (codes "request_format", some (codes "0"))
    ∷ (codes "first_link", positive o.first_link)
    ∷ (codes "link_count", positive o.link_count)
    ∷ []

unfoldable pub get_event_message_header : Message → HeaderText
unfolding event_slots option_slots get_event_opts
get_event_message_header m = record {
  slots =
      (codes "_db_cmd", some (codes "get"))
      ∷ (event_slots m.event ++ option_slots (get_event_opts m));
  last_id = nonempty m.message_id;
}

-- The options behind `buffer_results` and `include_tag_stats`.
unfoldable pub search_slots : GetEventsForTagsOptions → List Slot
unfolding force_ascii itoa
search_slots o =
    (codes "include_brief_hits", yes o.include_brief_hits)
    ∷ (codes "get_all_data", yes o.get_all_data)
    ∷ (codes "count_only", yes o.count_only)
    ∷ (codes "get_match_links", yes o.get_match_links)
    ∷ (codes "count_match_links", yes o.count_match_links)
    ∷ (codes "get_link_tags", yes o.get_link_tags)
    ∷ (codes "get_target_tags", yes o.get_target_tags)
    ∷ (codes "get_eo_count", yes o.get_event_object_count)
    ∷ (codes "invert_hit_tag_filter", yes o.invert_hit_tag_filter)
    ∷ (codes "event", ascii o.event_pattern)
    ∷ (codes "event_high", ascii o.event_pattern_high)
    ∷ (codes "link_tag_pattern", ascii o.link_tag_filter)
    ∷ (codes "linked_events_tag_filter", ascii o.linked_events_filter)
    ∷ (codes "link_category", nonempty o.link_category)
    ∷ (codes "owner", ascii o.owner)
    ∷ (codes "owner_unique_id", unless_set o.owner (nonempty o.owner_unique_id))
    ∷ (codes "get_tag_owner", get_tag_owner o.tag_owner_output)
    ∷ (codes "get_tag_owner_unique_id", get_tag_owner_unique_id o.tag_owner_output)
    ∷ (codes "hit_tag_filter", ascii o.hit_tag_filter)
    ∷ (codes "first_link", positive o.first_link)
    ∷ (codes "link_count", positive o.link_count)
    ∷ (codes "events_per_message", nonzero o.events_per_message)
    ∷ (codes "start_result", positive o.start_result)
    ∷ (codes "end_result", positive o.end_result)
    ∷ (codes "min_event_hits", positive o.min_event_hits)
    ∷ (codes "buffer_format", some (or_default o.buffer_format (codes "0")))
    ∷ []

unfoldable pub tag_search_slots : Option GetEventsForTagsOptions → List Slot
unfolding search_slots
tag_search_slots none =
    (codes "buffer_results", some (codes "N")) ∷ (codes "buffer_format", some (codes "0")) ∷ []
tag_search_slots (some o) =
    (codes "buffer_results", some (if o.buffer_results then codes "Y" else codes "N"))
    ∷ (codes "include_tag_stats", yes o.include_tag_stats)
    ∷ search_slots o

unfoldable pub get_events_for_tag_message_header : Message → HeaderText
unfolding tag_search_slots get_events_for_tags_opts
get_events_for_tag_message_header m = record {
  slots =
      (codes "_db_cmd", some (codes "events_for_tag"))
      ∷ tag_search_slots (get_events_for_tags_opts m);
  last_id = nonempty m.message_id;
}
