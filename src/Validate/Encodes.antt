-- ===== src/Validate/Encodes.antt =====
-- The steps of `EncodeMessage` on a request that `Validate` accepts: the header, the test of a link and
-- the payload.
use pod_os_go_client.Prelude.{
  ◌≡◌, refl, subst, inl, inr, Bool, true, false, not, ◌&&◌, ◌||◌, Option, none, some, if◌then◌else◌,
  arith, Bool-cases, Bytes, codes, str_eq, str_eq-eq,
}
use pod_os_go_client.Prelude.Result.{Result, ok}
use pod_os_go_client.Wire.Encoder.{EncodeError}
use pod_os_go_client.Intents.{IntentType, intent}
use pod_os_go_client.Message.{
  Data, EventFields, Externals, LinkFields, Message, batch_link_event_specs, link_of, nil,
  payload_data, string, string_slice,
}
use pod_os_go_client.Message.Header.Link.{link_events_message_header, unlink_events_message_header}
use pod_os_go_client.Message.Header.Store.{
  store_batch_tags_message_header, store_data_message_header, store_event_message_header,
}
use pod_os_go_client.Message.Construct.{construct_by_name}
use pod_os_go_client.Message.Construct.Command.{
  IsMemoryRequest, is_get_event, is_get_events_for_tags, is_link_event, is_store_batch_events,
  is_store_batch_links, is_store_batch_tags, is_store_data, is_store_event, is_unlink_event,
}
use pod_os_go_client.Message.Encode.{batch_links_bytes, check_link, payload_bytes, plain_bytes}
use pod_os_go_client.Message.Encode.Panics.{has_payload_rule, is_plain_data}
use pod_os_go_client.Validate.Accepts.{IsAccepted, front-IsAccepted}
use pod_os_go_client.Validate.Present.{
  Returns, event-present, follow-Returns, is_finite, link-present, link-wire_fields,
}
use pod_os_go_client.Validate.Request.{
  validate_link_event, validate_store_data, validate_store_event, validate_unlink_event,
}
use pod_os_go_client.Validate.Batch.{validate_batch_target, validate_store_batch_tags}
use pod_os_go_client.Validate.Envelope.{validate_by_name, validate_intent}

-- The header

target-present :
    (o : Option EventFields) (i : Bytes)
    → IsAccepted (validate_batch_target i o)
    → (ev : EventFields) × (o ≡ some ev)
unfolding validate_batch_target
target-present none i a = cc (a.warnings.0)
target-present (some ev) i a = (ev, refl)

pub by_name-Returns :
    (x : Externals) (m : Message) (t : IntentType)
    → IsMemoryRequest t
    → IsAccepted (validate_by_name m (intent t).name)
    → ((intent t).name ≡ codes "LinkEvent" → (v : EventFields) × (m.event ≡ some v))
    → Returns (construct_by_name x m (intent t).name)
unfolding construct_by_name intent validate_by_name validate_store_event validate_store_data
    validate_store_batch_tags validate_link_event validate_unlink_event store_event_message_header
    store_data_message_header store_batch_tags_message_header link_events_message_header
    unlink_events_message_header
by_name-Returns x m _ is_store_event a ev =
    follow-Returns m.event _ (event-present m.event _ _ a).1 (λ v. (_, refl))
by_name-Returns x m _ is_store_data a ev =
    follow-Returns m.event _ (event-present m.event _ _ a).1 (λ v. (_, refl))
by_name-Returns x m _ is_store_batch_events a ev = (_, refl)
by_name-Returns x m _ is_store_batch_tags a ev =
    follow-Returns m.event _ (target-present m.event _ (front-IsAccepted _ _ a)).1 (λ v. (_, refl))
by_name-Returns x m _ is_get_event a ev = (_, refl)
by_name-Returns x m _ is_get_events_for_tags a ev = (_, refl)
by_name-Returns x m _ is_link_event a ev =
    follow-Returns m.event _ (ev refl).1
      (λ v. follow-Returns (link_of m) _ (link-present m _ _ a).1 (λ l. (_, refl)))
by_name-Returns x m _ is_unlink_event a ev =
    follow-Returns (link_of m) _ (link-present m _ _ a).1 (λ l. (_, refl))
by_name-Returns x m _ is_store_batch_links a ev = (_, refl)

-- The link

link_event-IsAccepted :
    (m : Message)
    → m.intent.name ≡ codes "LinkEvent"
    → IsAccepted (validate_intent m)
    → IsAccepted (validate_link_event m)
unfolding validate_intent validate_by_name
link_event-IsAccepted m is a = subst (λ n. IsAccepted (validate_by_name m n)) is a

pub record HasFiniteLink (m : Message) : Type 0 where
  pub finite_a : (l : LinkFields) → link_of m ≡ some l → is_finite l.strength_a ≡ true
  pub finite_b : (l : LinkFields) → link_of m ≡ some l → is_finite l.strength_b ≡ true

-- What the encoder asks of a LinkEvent beyond what `Validate` looks at: an event, and strengths that
-- are finite.
pub record IsLinkable (m : Message) : Type 0 where
  pub event : m.intent.name ≡ codes "LinkEvent" → (v : EventFields) × (m.event ≡ some v)
  pub finite : HasFiniteLink m

pub check_link-accepted :
    (m : Message) → HasFiniteLink m → IsAccepted (validate_intent m) → check_link m ≡ ok tt
unfolding check_link validate_link_event
check_link-accepted m k a = elim (Bool-cases (str_eq m.intent.name (codes "LinkEvent"))) [
  | inr other ↦ rw other refl
  | inl is ↦
      let (l, at_l, good) =
        link-present m _ _ (link_event-IsAccepted m (str_eq-eq m.intent.name _ is) a) in
      rw is
        (rw (at_l, check_link) (link-wire_fields l (k.finite_a l at_l) (k.finite_b l at_l) good))
]

-- The payload

abbrev pub is_links : Data → Bool
is_links (batch_link_event_specs ls) = true
is_links nil = false
is_links _ = false

-- A payload that an encoder takes: one with a rule for its intent, or a plain one; a batch of links is
-- left aside, since its records have tests of their own.
abbrev pub is_suitable : Message → Bool
is_suitable m =
    (has_payload_rule m.intent.name || is_plain_data (payload_data m))
    && not (is_links (payload_data m))

batch_links_bytes-Returns :
    (x : Externals) (d : Data) → is_links d ≡ false → Returns (batch_links_bytes x d)
unfolding batch_links_bytes
batch_links_bytes-Returns x (batch_link_event_specs ls) e = cc
batch_links_bytes-Returns x (string s) e = (_, refl)
batch_links_bytes-Returns x _ e = (_, refl)

plain_bytes-Returns : (d : Data) → is_plain_data d ≡ true → Returns (plain_bytes d)
unfolding plain_bytes
plain_bytes-Returns nil e = (_, refl)
plain_bytes-Returns (string s) e = (_, refl)
plain_bytes-Returns (string_slice ss) e = (_, refl)
plain_bytes-Returns _ e = cc

five-Returns :
    {A : Type 0} (a b c d e : Bool) {r s t u v w : Result EncodeError A}
    → Returns r
    → Returns s
    → Returns t
    → Returns u
    → Returns v
    → ((a || (b || (c || (d || e)))) ≡ false → Returns w)
    → Returns
        (if a then r else if b then s else if c then t else if d then u else if e then v else w)
five-Returns true b c d e hr hs ht hu hv hw = hr
five-Returns false true c d e hr hs ht hu hv hw = hs
five-Returns false false true d e hr hs ht hu hv hw = ht
five-Returns false false false true e hr hs ht hu hv hw = hu
five-Returns false false false false true hr hs ht hu hv hw = hv
five-Returns false false false false false hr hs ht hu hv hw = hw refl

and_parts : (a b : Bool) → (a && b) ≡ true → (a ≡ true) × (b ≡ true)
and_parts a b e = ground arith

pub payload_bytes-Returns :
    (x : Externals) (m : Message) → is_suitable m ≡ true → Returns (payload_bytes x m)
unfolding payload_bytes
payload_bytes-Returns x m e =
    let (fits, plain) = and_parts _ (not (is_links (payload_data m))) e in
    let links : is_links (payload_data m) ≡ false = ground arith in
    let is : Bytes → Bool = str_eq m.intent.name in
    five-Returns (is (codes "GatewayId")) (is (codes "GatewayStreamOn"))
      (is (codes "StoreBatchEvents")) (is (codes "StoreBatchLinks")) (is (codes "StoreBatchTags"))
      (_, refl) (_, refl) (_, refl) (batch_links_bytes-Returns x (payload_data m) links) (_, refl)
      (λ other. plain_bytes-Returns (payload_data m) (rw other at fits))
