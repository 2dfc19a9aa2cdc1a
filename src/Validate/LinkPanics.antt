-- ===== src/Validate/LinkPanics.antt =====
-- What `EncodeMessage` does with a link request that `Validate` accepts and that has no event.
use pod_os_go_client.Prelude.{◌≡◌, refl, ap, ◌∙◌, true, none, some, codes}
use pod_os_go_client.Prelude.Result.{ok, panic}
use pod_os_go_client.Intents.{IntentType, intent}
use pod_os_go_client.Message.{Externals, Message, payload_data}
use pod_os_go_client.Message.Header.Link.{link_events_message_header}
use pod_os_go_client.Message.Construct.{construct_by_name, construct_header}
use pod_os_go_client.Message.Encode.{check_link, check_payload_size, encode_message, encode_present}
use pod_os_go_client.Validate.Accepts.{AllWarn}
use pod_os_go_client.Validate.Encodes.{HasFiniteLink, check_link-accepted}
use pod_os_go_client.Validate.Envelope.{validate}
use pod_os_go_client.Validate.Sends.{IsAccepted-parts}

link_header-panic :
    (x : Externals) (m : Message)
    → m.event ≡ none
    → construct_by_name x m (codes "LinkEvent") ≡ panic
unfolding construct_by_name link_events_message_header
link_header-panic x m absent = rw (absent, link_events_message_header) refl

header-panic :
    (x : Externals) (m : Message)
    → m.intent.name ≡ codes "LinkEvent"
    → m.event ≡ none
    → construct_header x m ≡ panic
unfolding construct_header
header-panic x m name absent = ap (construct_by_name x m) name ∙ link_header-panic x m absent

encode_present-header_panic :
    (x : Externals) (m : Message)
    → check_payload_size (payload_data m) ≡ ok tt
    → check_link m ≡ ok tt
    → construct_header x m ≡ panic
    → encode_present x m ≡ panic
unfolding encode_present
encode_present-header_panic x m size link header = rw size (rw link (rw header refl))

-- `EncodeMessage` panics on a LinkEvent with no event, though `Validate` accepts it, with warnings at
-- most. (The strengths of its link are finite, and its payload is not too large.)
pub validated-panics :
    (x : Externals) (m : Message)
    → m.intent ≡ intent IntentType.link_event
    → AllWarn (validate true m)
    → m.event ≡ none
    → HasFiniteLink m
    → check_payload_size (payload_data m) ≡ ok tt
    → encode_message x (some m) ≡ panic
unfolding encode_message intent
validated-panics x m is a absent finite size =
    encode_present-header_panic x m size (check_link-accepted m finite (IsAccepted-parts m a).1)
      (header-panic x m (ap (λ i. i.name) is) absent)
