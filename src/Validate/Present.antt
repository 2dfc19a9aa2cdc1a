-- ===== src/Validate/Present.antt =====
-- What the absence of errors says: the pointers that an encoder follows are there, and a link has what
-- the encoder asks of it.
use pod_os_go_client.Prelude.{
  ◌≡◌, refl, Bool, true, false, not, Option, none, some, [], ◌∷◌, ◌%◌, ◌/◌, ◌^◌, ◌==◌, arith, Bytes,
  codes, ℕ, none_ne_some,
}
use pod_os_go_client.Prelude.Result.{Result, ok, panic}
use pod_os_go_client.Wire.Encoder.{EncodeError, is_empty}
use pod_os_go_client.Message.{EventFields, LinkFields, Message, NeuralMemoryFields, link_of}
use pod_os_go_client.Message.Format.{link_strength_rejected, require_link_wire_fields}
use pod_os_go_client.Validate.Report.{ValidationErrors, nil_struct}
use pod_os_go_client.Validate.Accepts.{
  IsAccepted, back-IsAccepted, front-IsAccepted, report-IsAccepted,
}
use pod_os_go_client.Validate.Request.{is_zero, validate_link, with_link}

abbrev pub Returns {ℓ} : {A : Type ℓ} → Result EncodeError A → Type ℓ
Returns {A = A} r = (a : A) × (r ≡ ok a)

-- A pointer that a check has found not to be nil.
pub event-present :
    (o : Option EventFields) (intent : Bytes) (check : EventFields → ValidationErrors)
    → IsAccepted (elim o [ none ↦ nil_struct intent (codes "Event") ∷ [] | some ev ↦ check ev ])
    → (ev : EventFields) × (o ≡ some ev)
event-present none intent check a = cc (a.warnings.0)
event-present (some ev) intent check a = (ev, refl)

link-option :
    (p : Option LinkFields) (intent : Bytes) (check : LinkFields → ValidationErrors)
    → IsAccepted
        (elim p [ none ↦ nil_struct intent (codes "NeuralMemory.Link") ∷ [] | some lk ↦ check lk ])
    → (l : LinkFields) × (p ≡ some l) × IsAccepted (check l)
link-option none intent check b = cc (b.warnings.0)
link-option (some l) intent check b = (l, refl, b)

memory-link :
    (o : Option NeuralMemoryFields) (intent : Bytes) (check : LinkFields → ValidationErrors)
    → IsAccepted (with_link intent o check)
    → (l : LinkFields) × ((elim o [ none ↦ none | some n ↦ n.link ]) ≡ some l)
      × IsAccepted (check l)
memory-link none intent check b = cc (b.warnings.0)
memory-link (some n) intent check b = link-option n.link intent check b

pub link-present :
    (m : Message) (intent : Bytes) (check : LinkFields → ValidationErrors)
    → IsAccepted (with_link intent m.neural_memory check)
    → (l : LinkFields) × (link_of m ≡ some l) × IsAccepted (check l)
unfolding link_of
link-present m intent check a = memory-link m.neural_memory intent check a

pub follow-Returns :
    {A B : Type 0} (o : Option A) (f : A → Result EncodeError B) {a : A}
    → o ≡ some a
    → ((b : A) → Returns (f b))
    → Returns (elim o [ none ↦ panic | some b ↦ f b ])
follow-Returns none f e h = absurd (none_ne_some e)
follow-Returns (some b) f e h = h b

-- Neither an infinity nor not a number, by the bits of the `float64`.
abbrev pub is_finite : ℕ → Bool
is_finite v = not (v / 2 ^ 52 % 2 ^ 11 == 2047)

strength-accepted :
    (v : ℕ) → is_finite v ≡ true → is_zero v ≡ false → link_strength_rejected v ≡ false
unfolding link_strength_rejected
strength-accepted v f z = ground arith

-- A link that is accepted, with finite strengths, is one that the encoder takes.
pub link-wire_fields :
    (l : LinkFields)
    → is_finite l.strength_a ≡ true
    → is_finite l.strength_b ≡ true
    → IsAccepted (validate_link (codes "LinkEvent") l)
    → require_link_wire_fields l ≡ ok tt
unfolding validate_link require_link_wire_fields
link-wire_fields l fa fb a =
    let five =
      front-IsAccepted _ _ (front-IsAccepted _ _ (front-IsAccepted _ _ (front-IsAccepted _ _ a))) in
    let four = front-IsAccepted _ _ five in
    let three = front-IsAccepted _ _ four in
    let two = front-IsAccepted _ _ three in
    let at_b = report-IsAccepted (is_zero l.strength_b) _ (back-IsAccepted _ _ four) refl in
    let at_a = report-IsAccepted (is_zero l.strength_a) _ (back-IsAccepted _ _ three) refl in
    let category = report-IsAccepted (is_empty l.category) _ (back-IsAccepted _ _ two) refl in
    rw (strength-accepted l.strength_a fa at_a)
      (rw (strength-accepted l.strength_b fb at_b) (rw category refl))
