-- ===== src/Payload/Strict.antt =====
-- The reply to StoreBatchEvents is read by `strings.Split(field, "=")`, the other replies by
-- `strings.SplitN(field, "=", 2)`: what the first loses.
use pod_os_go_client.Prelude.{
  ◌≡◌, refl, ap, ◌∙◌, true, false, inl, inr, List, [], ◌∷◌, ◌++◌, arith, ◌==◌, Bool-cases,
  if◌then◌else◌, Bytes,
}
use pod_os_go_client.Text.{contains_byte, split}
use pod_os_go_client.Text.Laws.{Every}
use pod_os_go_client.Wire.Decoder.{HeaderMap}
use pod_os_go_client.Wire.Decoder.Header.{header_text, no_equals, part, set_all}
use pod_os_go_client.Payload.Batch.{add_strict_field, parse_strict_line, set_parts}
use pod_os_go_client.Payload.Record.{IsRecord, add_fields-header_text}

-- The fields whose values have no `=`.
abbrev pub strict_fields : HeaderMap → HeaderMap
strict_fields [] = []
strict_fields ((k, v) ∷ es) =
    let rest = strict_fields es in if contains_byte b'=' v then rest else (k, v) ∷ rest

split-equals : (k v : Bytes) → Every no_equals k → split b'=' (k ++ b'=' ∷ v) ≡ k ∷ split b'=' v
unfolding split
split-equals [] v h = refl
split-equals (c ∷ k) v h =
    let other : (c == b'=') ≡ false = ground arith in rw other (rw (split-equals k v h.1) refl)

split-none : (v : Bytes) → contains_byte b'=' v ≡ false → split b'=' v ≡ v ∷ []
unfolding split contains_byte
split-none [] e = refl
split-none (c ∷ v) e =
    let other : (c == b'=') ≡ false = ground arith in
    let none : contains_byte b'=' v ≡ false = ground arith in rw other (rw (split-none v none) refl)

split-some : (v : Bytes) → (a : Bytes) × ((ps : List Bytes) × (split b'=' v ≡ a ∷ ps))
unfolding split
split-some [] = ([], ([], refl))
split-some (c ∷ v) =
    let (a, (ps, e)) = split-some v in
    elim (Bool-cases (c == b'=')) [
      | inl same ↦ ([], (split b'=' v, rw same refl))
      | inr other ↦ (c ∷ a, (ps, rw other (rw e refl)))
    ]

split-two :
    (v : Bytes)
    → contains_byte b'=' v ≡ true
    → (a b : Bytes) × ((ps : List Bytes) × (split b'=' v ≡ a ∷ (b ∷ ps)))
unfolding split contains_byte
split-two [] e = cc
split-two (c ∷ v) e = elim (Bool-cases (c == b'=')) [
  | inl same ↦ let (a, (ps, is)) = split-some v in ([], a, (ps, rw same (ap (λ l. [] ∷ l) is)))
  | inr other ↦
      let later : contains_byte b'=' v ≡ true = ground arith in
      let (a, b, (ps, is)) = split-two v later in (c ∷ a, b, (ps, rw other (rw is refl)))
]

abbrev keep : Bytes × Bytes → HeaderMap → HeaderMap
keep (k, v) m = if contains_byte b'=' v then m else (k, v) ∷ m

add_strict_field-part :
    (k v : Bytes) (m : HeaderMap)
    → Every no_equals k
    → add_strict_field m (part (k, v)) ≡ keep (k, v) m
unfolding add_strict_field
add_strict_field-part k v m h = elim (Bool-cases (contains_byte b'=' v)) [
  | inl some_equals ↦
      let (a, b, (ps, is)) = split-two v some_equals in
      ap (set_parts m) (split-equals k v h ∙ ap (λ l. k ∷ l) is) ∙ rw some_equals refl
  | inr no_more ↦
      ap (set_parts m) (split-equals k v h ∙ ap (λ l. k ∷ l) (split-none v no_more))
      ∙ rw no_more refl
]

add_strict_field-nil : (m : HeaderMap) → add_strict_field m [] ≡ m
unfolding add_strict_field split
add_strict_field-nil m = refl

keep-strict_fields :
    (e : Bytes × Bytes) (es m : HeaderMap)
    → set_all m (strict_fields (e ∷ es)) ≡ set_all (keep e m) (strict_fields es)
keep-strict_fields (k, v) es m = elim (Bool-cases (contains_byte b'=' v)) [
  | inl lost ↦ rw lost refl
  | inr kept ↦ rw kept refl
]

-- Of a record in the reply to StoreBatchEvents, with no tab, line end or NUL in its fields and no `=` in
-- its keys, exactly the fields whose values have no `=` are read, in the order in which they are set;
-- the others are lost.
pub parse_strict_line-header_text :
    (es : HeaderMap)
    → IsRecord es
    → parse_strict_line (header_text es) ≡ set_all [] (strict_fields es)
unfolding parse_strict_line
parse_strict_line-header_text es r =
    add_fields-header_text add_strict_field keep (λ m es. set_all m (strict_fields es))
      add_strict_field-nil add_strict_field-part (λ m. refl) keep-strict_fields es [] r
