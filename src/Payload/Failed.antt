-- ===== src/Payload/Failed.antt =====
-- A batch of links whose first record reports an error, through `parseLinkEventBatchPayload` and
-- `BatchLinksFailed`.
use pod_os_go_client.Prelude.{
  ℕ, ◌≡◌, refl, sym, ap, ◌∙◌, true, false, inl, inr, Option, some, List, [], ◌∷◌, ◌++◌, arith, ◌==◌,
  Bool-cases, Bytes, codes, str_eq,
}
use pod_os_go_client.Text.{equal_fold, split, trim_space}
use pod_os_go_client.Text.Laws.{Every, no_nul, trim_right_nul-no_nul}
use pod_os_go_client.Wire.Decoder.{HeaderMap, lookup, text}
use pod_os_go_client.Wire.Decoder.Header.{header_text, set_all}
use pod_os_go_client.Payload.Batch.{
  StoreLinkBatchEventRecord, add_link_record, each_line, is_marker, no_links,
  parse_link_event_batch_payload, payload_lines, set_if_empty,
}
use pod_os_go_client.Payload.Record.{
  IsRecord, equals-no_marker, equals-some_line, header_text-Every, header_text-contains, no_newline,
  parse_tab_delimited_line-header_text,
}
use pod_os_go_client.Payload.Reply.{batch_links_failed, failure_text}

split-newline :
    (s t : Bytes) → Every no_newline s → split b'\n' (s ++ b'\n' ∷ t) ≡ s ∷ split b'\n' t
unfolding split
split-newline [] t h = refl
split-newline (c ∷ s) t h =
    let other : (c == b'\n') ≡ false = ground arith in rw other (rw (split-newline s t h.1) refl)

-- The first record is a line of the payload.
payload_lines-record :
    (es : HeaderMap) (rest : Bytes)
    → IsRecord es
    → payload_lines (header_text es ++ b'\n' ∷ rest) ≡ header_text es ∷ payload_lines rest
unfolding payload_lines
payload_lines-record es rest r =
    let line = header_text-Every no_newline es (λ c d. ground arith) refl refl r in
    let full = header_text-Every no_nul es (λ c d. ground arith) refl refl r in
    rw (split-newline (header_text es) rest line)
      (rw (trim_right_nul-no_nul (header_text es) full) refl)

-- A status that is there stays.
add_link_record-status :
    (parse_float : Bytes → Option ℕ) (line : Bytes) (r : StoreLinkBatchEventRecord) {c : ℕ}
    {s : Bytes}
    → r.status ≡ c ∷ s
    → (add_link_record parse_float line r).status ≡ c ∷ s
unfolding add_link_record
add_link_record-status parse_float line r e = rw e refl

each_line-status :
    (parse_float : Bytes → Option ℕ) (ls : List Bytes) (r : StoreLinkBatchEventRecord) {c : ℕ}
    {s : Bytes}
    → r.status ≡ c ∷ s
    → (each_line (add_link_record parse_float) ls r).status ≡ c ∷ s
unfolding each_line
each_line-status parse_float [] r e = e
each_line-status parse_float (l ∷ ls) r e = elim (Bool-cases (is_marker l)) [
  | inl ends ↦ rw ends e
  | inr goes_on ↦ rw goes_on (elim (Bool-cases (str_eq l [])) [
    | inl blank ↦ rw blank (each_line-status parse_float ls r e)
    | inr full ↦ rw full (
        each_line-status parse_float ls (add_link_record parse_float l r)
          (add_link_record-status parse_float l r e))
  ])
]

first-status :
    (parse_float : Bytes → Option ℕ) (k v : Bytes) (es : HeaderMap) {c : ℕ} {s : Bytes}
    → IsRecord ((k, v) ∷ es)
    → lookup (codes "_status") (set_all [] ((k, v) ∷ es)) ≡ some (c ∷ s)
    → (add_link_record parse_float (header_text ((k, v) ∷ es)) no_links).status ≡ c ∷ s
unfolding add_link_record
first-status parse_float k v es r is =
    ap (λ m. set_if_empty (lookup (codes "_status") m) [])
      (parse_tab_delimited_line-header_text ((k, v) ∷ es) r)
    ∙ ap (λ o. set_if_empty o []) is

parsed-status :
    (parse_float : Bytes → Option ℕ) (k v : Bytes) (es : HeaderMap) (rest : Bytes) {c : ℕ}
    {s : Bytes}
    → IsRecord ((k, v) ∷ es)
    → lookup (codes "_status") (set_all [] ((k, v) ∷ es)) ≡ some (c ∷ s)
    → (each_line
        (add_link_record parse_float)
        (payload_lines (header_text ((k, v) ∷ es) ++ b'\n' ∷ rest))
        no_links).status
      ≡ c ∷ s
unfolding each_line
parsed-status parse_float k v es rest r is =
    let l = header_text ((k, v) ∷ es) in
    let has = header_text-contains k v es in
    rw (payload_lines-record ((k, v) ∷ es) rest r) (
      rw (equals-no_marker l has) (
        rw (equals-some_line l has) (
          each_line-status parse_float (payload_lines rest) (add_link_record parse_float l no_links)
            (first-status parse_float k v es r is))))

failed-status :
    (r : StoreLinkBatchEventRecord)
    → equal_fold (trim_space r.status) (codes "ERROR") ≡ true
    → (why : Bytes) × (batch_links_failed (some r) ≡ some why)
unfolding batch_links_failed
failed-status r e =
    (failure_text r.message (codes "link store failed"), rw (e, batch_links_failed) refl)

trimmed-some :
    (status : Bytes)
    → equal_fold (trim_space status) (codes "ERROR") ≡ true
    → (c : ℕ) × ((s : Bytes) × (status ≡ c ∷ s))
unfolding equal_fold trim_space
trimmed-some [] e = cc
trimmed-some (c ∷ s) e = (c, (s, refl))

-- When the first record of the reply to StoreBatchLinks has the status ERROR, in any case of its letters
-- and with any white space around it, `BatchLinksFailed` reports an error, whatever the rest of the
-- payload is. (The record has at least one field, no tab, line end or NUL in its fields, and no `=` in
-- its keys.)
pub batch_links_failed-first_record :
    (parse_float : Bytes → Option ℕ) (k v : Bytes) (es : HeaderMap) (rest status : Bytes)
    → IsRecord ((k, v) ∷ es)
    → lookup (codes "_status") (set_all [] ((k, v) ∷ es)) ≡ some status
    → equal_fold (trim_space status) (codes "ERROR") ≡ true
    → (why : Bytes) × (batch_links_failed (
          parse_link_event_batch_payload parse_float
            (text (header_text ((k, v) ∷ es) ++ b'\n' ∷ rest)))
        ≡ some why)
unfolding parse_link_event_batch_payload
batch_links_failed-first_record parse_float k v es rest status r is e =
    let (c, (s, whole)) = trimmed-some status e in
    failed-status _ (
      ap (λ t. equal_fold (trim_space t) (codes "ERROR"))
        (parsed-status parse_float k v es rest r (is ∙ ap some whole) ∙ sym whole)
      ∙ e)
