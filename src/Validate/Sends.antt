-- ===== src/Validate/Sends.antt =====
-- What `EncodeMessage` makes of a request that `Validate` accepts.
use pod_os_go_client.Prelude.{
  ◌≡◌, refl, sym, ap, ◌∙◌, subst, ◌≢◌, ◌⊎◌, inl, inr, Bool, true, false, not, some, [], ◌∷◌, ◌++◌,
  leb, arith, Bytes,
}
use pod_os_go_client.Prelude.Result.{Result, ok, err, guard}
use pod_os_go_client.Text.{after, before}
use pod_os_go_client.Wire.{Frame, max_message_size}
use pod_os_go_client.Wire.Encoder.{
  EncodeError, check_from, check_to, encode_frame, frame_bytes, payload_too_large, total_length,
}
use pod_os_go_client.Intents.{IntentType, intent}
use pod_os_go_client.Message.{Data, Externals, Message, byte_slice, payload_data, string}
use pod_os_go_client.Message.Header.{HeaderText}
use pod_os_go_client.Message.Construct.{construct_by_name, construct_header}
use pod_os_go_client.Message.Construct.Command.{IsMemoryRequest}
use pod_os_go_client.Message.Encode.{
  check_link, check_payload_size, encode_message, encode_present, frame_of, payload_bytes,
}
use pod_os_go_client.Validate.Accepts.{
  AllWarn, IsAccepted, back-IsAccepted, front-IsAccepted, report-IsAccepted,
}
use pod_os_go_client.Validate.Address.{check_from-check_to, check_to-is_name_at_gateway}
use pod_os_go_client.Validate.Encodes.{
  IsLinkable, by_name-Returns, check_link-accepted, is_suitable, payload_bytes-Returns,
}
use pod_os_go_client.Validate.Present.{Returns}
use pod_os_go_client.Validate.Report.{is_name_at_gateway}
use pod_os_go_client.Validate.Envelope.{
  validate, validate_address, validate_by_name, validate_envelope, validate_intent,
}

-- The frame is made, or it is refused for its size alone.
abbrev pub SentOrTooLarge : Result EncodeError Bytes → Type 0
SentOrTooLarge r = (r ≡ err payload_too_large) ⊎ ((b : Bytes) × (r ≡ ok b))

guard-cases :
    (b : Bool)
    → (guard b payload_too_large ≡ err payload_too_large) ⊎ (guard b payload_too_large ≡ ok tt)
guard-cases true = inr refl
guard-cases false = inl refl

check_payload_size-cases :
    (d : Data) → (check_payload_size d ≡ err payload_too_large) ⊎ (check_payload_size d ≡ ok tt)
unfolding check_payload_size
check_payload_size-cases (string s) = guard-cases _
check_payload_size-cases (byte_slice s) = guard-cases _
check_payload_size-cases (Data.batch_event_specs es) = guard-cases _
check_payload_size-cases _ = inr refl

encode_frame-cases :
    (f : Frame)
    → check_to f.to ≡ ok tt
    → check_from f.from ≡ ok tt
    → SentOrTooLarge (encode_frame f)
unfolding encode_frame
encode_frame-cases f to from = elim (guard-cases (leb (total_length f) max_message_size)) [
  | inl large ↦ inl (simp (to, from, large, encode_frame))
  | inr fits ↦ inr (frame_bytes f, simp (to, from, fits, encode_frame))
]

-- Validated addresses

address-accepted :
    (i field wire_field s : Bytes)
    → IsAccepted (validate_address i field wire_field s)
    → is_name_at_gateway s ≡ true
unfolding validate_address
address-accepted i field wire_field [] a = cc (a.warnings.0)
address-accepted i field wire_field (c ∷ s) a =
    let e = report-IsAccepted (not (is_name_at_gateway (c ∷ s))) _ a refl in ground arith

-- No second `@` follows the first at once.
abbrev pub HasGateway : Bytes → Type 0
HasGateway s = before b'@' (after b'@' s) ≢ []

addresses-accepted :
    (m : Message)
    → IsAccepted (validate_envelope m)
    → (is_name_at_gateway m.to ≡ true) × (is_name_at_gateway m.from ≡ true)
unfolding validate_envelope
addresses-accepted m a =
    let both = front-IsAccepted _ _ (front-IsAccepted _ _ a) in
    (
      address-accepted _ _ _ m.to (front-IsAccepted _ _ both),
      address-accepted _ _ _ m.from (back-IsAccepted _ _ both),
    )

encode_present-steps :
    (x : Externals) (m : Message) (h : HeaderText) (p : Bytes)
    → check_payload_size (payload_data m) ≡ ok tt
    → check_link m ≡ ok tt
    → construct_header x m ≡ ok h
    → check_to m.to ≡ ok tt
    → check_from m.from ≡ ok tt
    → payload_bytes x m ≡ ok p
    → encode_present x m ≡ encode_frame (frame_of m h p)
unfolding encode_present
encode_present-steps x m h p size link header to from payload =
    rw size (rw link (rw header (rw to (rw from (rw payload refl)))))

encode_present-large :
    (x : Externals) (m : Message)
    → check_payload_size (payload_data m) ≡ err payload_too_large
    → encode_present x m ≡ err payload_too_large
unfolding encode_present
encode_present-large x m large = rw large refl

header-accepted :
    (x : Externals) (m : Message) (t : IntentType)
    → IsMemoryRequest t
    → m.intent ≡ intent t
    → IsAccepted (validate_intent m)
    → IsLinkable m
    → Returns (construct_header x m)
unfolding construct_header validate_intent
header-accepted x m t request is a linkable =
    let name : m.intent.name ≡ (intent t).name = ap (λ i. i.name) is in
    subst (λ n. Returns (construct_by_name x m n)) (sym name)
      (by_name-Returns x m t request (subst (λ n. IsAccepted (validate_by_name m n)) name a)
        (λ e. linkable.event (name ∙ e)))

pub IsAccepted-parts :
    (m : Message)
    → AllWarn (validate true m)
    → IsAccepted (validate_envelope m) × IsAccepted (validate_intent m)
unfolding validate
IsAccepted-parts m a =
    let whole : IsAccepted (validate_envelope m ++ validate_intent m) = record { warnings = a } in
    (front-IsAccepted _ _ whole, back-IsAccepted _ _ whole)

-- For a request to the Neural Memory that `Validate` accepts, with warnings at most, `EncodeMessage`
-- makes a frame, or refuses it for its size alone: it neither panics nor returns another error. (No
-- second `@` follows the first of an address at once. The payload is absent, a string or a slice of
-- strings, or the intent has a rule of its own for payloads, and it is no batch of links. A LinkEvent
-- has an event, and its strengths are finite.)
pub validated-encodes :
    (x : Externals) (m : Message) (t : IntentType)
    → IsMemoryRequest t
    → m.intent ≡ intent t
    → AllWarn (validate true m)
    → HasGateway m.to
    → HasGateway m.from
    → IsLinkable m
    → is_suitable m ≡ true
    → SentOrTooLarge (encode_message x (some m))
unfolding encode_message
validated-encodes x m t request is a to_gate from_gate linkable suits =
    let (envelope, by_intent) = IsAccepted-parts m a in
    let (good_to, good_from) = addresses-accepted m envelope in
    let (h, header) = header-accepted x m t request is by_intent linkable in
    let (p, payload) = payload_bytes-Returns x m suits in
    let to = (check_to-is_name_at_gateway m.to).1 (good_to, to_gate) in
    let from =
      check_from-check_to m.from ((check_to-is_name_at_gateway m.from).1 (good_from, from_gate)) in
    elim (check_payload_size-cases (payload_data m)) [
      | inl large ↦ inl (encode_present-large x m large)
      | inr size ↦
          let steps =
            encode_present-steps x m h p size (check_link-accepted m linkable.finite by_intent)
              header to from payload in
          subst SentOrTooLarge (sym steps) (encode_frame-cases (frame_of m h p) to from)
    ]
