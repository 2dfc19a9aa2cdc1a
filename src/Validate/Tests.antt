-- ===== src/Validate/Tests.antt =====
-- The theorems on validated messages at concrete messages.
use pod_os_go_client.Prelude.{◌≡◌, refl, subst, ◌↔◌, true, none, some, [], codes, some-eq}
use pod_os_go_client.Prelude.Int.{pos}
use pod_os_go_client.Prelude.Result.{ok, err, panic}
use pod_os_go_client.Text.{after, before, contains_byte}
use pod_os_go_client.Intents.{IntentType, intent}
use pod_os_go_client.Wire.Encoder.{check_to, invalid_gateway_name}
use pod_os_go_client.Message.{EventFields, Externals, LinkFields, Message, link_of, payload_data}
use pod_os_go_client.Message.Construct.Command.{is_link_event}
use pod_os_go_client.Message.Encode.{check_payload_size, encode_message}
use pod_os_go_client.Validate.Accepts.{AllWarn}
use pod_os_go_client.Validate.Address.{IsAddress, check_to-is_name_at_gateway}
use pod_os_go_client.Validate.Encodes.{HasFiniteLink, IsLinkable}
use pod_os_go_client.Validate.Envelope.{validate}
use pod_os_go_client.Validate.LinkPanics.{validated-panics}
use pod_os_go_client.Validate.Present.{is_finite}
use pod_os_go_client.Validate.Report.{is_name_at_gateway, report}
use pod_os_go_client.Validate.Sends.{SentOrTooLarge, validated-encodes}

abbrev outside : Externals
outside = record {
  get_timestamp = codes "+1700000000.000000";
  format_float = λ size bits. codes "0.5";
  print_float = λ bits. codes "0.5";
}

abbrev event : EventFields
event = record {
  unique_id = codes "u-1";
  id = [];
  owner = codes "$sys";
  owner_unique_id = [];
  timestamp = [];
  location = codes "TERRA|47.6";
  location_separator = codes "|";
  event_type = [];
  status = [];
  hits = pos 0;
}

-- Both strengths are 1.0.
abbrev link : LinkFields
link = record {
  unique_id = codes "l-1";
  id = [];
  owner = [];
  timestamp = codes "+1700000000.000000";
  location = codes "TERRA|47.6";
  location_separator = codes "|";
  event_a = codes "a";
  event_b = codes "b";
  unique_id_a = [];
  unique_id_b = [];
  strength_a = 0x3FF0000000000000;
  strength_b = 0x3FF0000000000000;
  category = codes "related";
  link_type = [];
  owner_unique_id = [];
  owner_id = codes "o";
  status = [];
  message = [];
}

abbrev bare : Message
bare = record {
  to = codes "mem@zeroth";
  from = codes "me@zeroth";
  intent = intent IntentType.link_event;
  client_name = codes "me";
  message_id = codes "m-7";
  passcode = [];
  user_name = [];
  event = none;
  payload = none;
  neural_memory = some (record {
    get_event = none;
    get_events_for_tags = none;
    search = none;
    link = some link;
    batch_links = [];
    tags = [];
    batch_events = [];
  });
  response = none;
}

abbrev complete : Message
complete = record bare { event = some event }

bare-AllWarn : AllWarn (validate true bare)
unfolding validate intent report
bare-AllWarn = tt

complete-AllWarn : AllWarn (validate true complete)
unfolding validate intent report
complete-AllWarn = tt

bare-HasFiniteLink : HasFiniteLink bare
unfolding link_of
bare-HasFiniteLink = record {
  finite_a = λ l e. subst (λ k. is_finite k.strength_a ≡ true) (some-eq e) refl;
  finite_b = λ l e. subst (λ k. is_finite k.strength_b ≡ true) (some-eq e) refl;
}

complete-IsLinkable : IsLinkable complete
unfolding link_of
complete-IsLinkable = record {
  event = λ e. (event, refl);
  finite = record {
    finite_a = λ l e. subst (λ k. is_finite k.strength_a ≡ true) (some-eq e) refl;
    finite_b = λ l e. subst (λ k. is_finite k.strength_b ≡ true) (some-eq e) refl;
  };
}

validated-encodes_example : SentOrTooLarge (encode_message outside (some complete))
validated-encodes_example =
    validated-encodes outside complete IntentType.link_event is_link_event refl complete-AllWarn
      (unfold before after in λ e. cc e) (unfold before after in λ e. cc e) complete-IsLinkable
      (unfold payload_data intent in refl)

validated-panics_example : encode_message outside (some bare) ≡ panic
validated-panics_example =
    validated-panics outside bare refl bare-AllWarn refl bare-HasFiniteLink
      (unfold check_payload_size payload_data in refl)

check_to-is_name_at_gateway_example : (check_to (codes "a@b") ≡ ok tt) ↔ IsAddress (codes "a@b")
check_to-is_name_at_gateway_example = check_to-is_name_at_gateway (codes "a@b")

-- An address with two `@` that `Validate` takes and the encoder does not.
two_at-IsNameAtGateway : is_name_at_gateway (codes "a@@b") ≡ true
unfolding is_name_at_gateway
two_at-IsNameAtGateway = refl

two_at-refused : check_to (codes "a@@b") ≡ err invalid_gateway_name
unfolding check_to contains_byte before after
two_at-refused = refl
