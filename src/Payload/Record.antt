-- ===== src/Payload/Record.antt =====
-- A record of a payload, written as `key=value` fields with tabs between them, and what the two ways of
-- reading a line in message/responses.go make of it.
use pod_os_go_client.Prelude.{
  ℕ, ◌≡◌, refl, sym, ap, ◌∙◌, Bool, true, false, not, ◌&&◌, [], ◌∷◌, ◌++◌, arith, ◌==◌, Bytes,
  str_eq,
}
use pod_os_go_client.Text.{contains_byte, split}
use pod_os_go_client.Text.Laws.{Every, Every-append, Every-map, no_nul}
use pod_os_go_client.Wire.Decoder.{HeaderMap}
use pod_os_go_client.Wire.Decoder.Header.{
  after-equals, before-equals, contains_equals, header_text, no_equals, no_tab, part, set_all,
  split-last, split-tab,
}
use pod_os_go_client.Payload.{add_field, add_fields, parse_tab_delimited_line}
use pod_os_go_client.Payload.Batch.{is_marker}

abbrev pub no_newline : ℕ → Bool
no_newline c = not (c == b'\n')

abbrev pub is_field_byte : ℕ → Bool
is_field_byte c = no_tab c && (no_newline c && no_nul c)

-- The fields have no tab, no line end and no NUL, and the keys no `=`.
abbrev pub IsRecord : HeaderMap → Type 0
IsRecord [] = Unit {0}
IsRecord ((k, v) ∷ es) =
    Every is_field_byte k × (Every no_equals k × (Every is_field_byte v × IsRecord es))

part-Every :
    (p : ℕ → Bool) (k v : Bytes)
    → ((c : ℕ) → is_field_byte c ≡ true → p c ≡ true)
    → p b'=' ≡ true
    → Every is_field_byte k
    → Every is_field_byte v
    → Every p (part (k, v))
part-Every p k v h e hk hv =
    Every-append p k (b'=' ∷ v) (Every-map is_field_byte p h k hk)
      (e, Every-map is_field_byte p h v hv)

part-no_tab :
    (k v : Bytes) → Every is_field_byte k → Every is_field_byte v → Every no_tab (part (k, v))
part-no_tab k v = part-Every no_tab k v (λ c d. ground arith) refl

-- A property of every byte of a field, of `=` and of a tab holds for the whole record.
pub header_text-Every :
    (p : ℕ → Bool) (es : HeaderMap)
    → ((c : ℕ) → is_field_byte c ≡ true → p c ≡ true)
    → p b'=' ≡ true
    → p b'\t' ≡ true
    → IsRecord es
    → Every p (header_text es)
header_text-Every p [] h e t r = tt
header_text-Every p ((k, v) ∷ []) h e t (hk, (_, (hv, _))) = part-Every p k v h e hk hv
header_text-Every p ((k, v) ∷ (f ∷ es)) h e t (hk, (_, (hv, r))) =
    Every-append p (part (k, v)) (b'\t' ∷ header_text (f ∷ es)) (part-Every p k v h e hk hv)
      (t, header_text-Every p (f ∷ es) h e t r)

contains_byte-append :
    (b : ℕ) (s t : Bytes) → contains_byte b s ≡ true → contains_byte b (s ++ t) ≡ true
unfolding contains_byte
contains_byte-append b [] t e = cc
contains_byte-append b (c ∷ s) t e = ground (arith, contains_byte-append b s t)

pub header_text-contains :
    (k v : Bytes) (es : HeaderMap) → contains_byte b'=' (header_text ((k, v) ∷ es)) ≡ true
header_text-contains k v [] = contains_equals k v
header_text-contains k v (f ∷ es) =
    contains_byte-append b'=' (part (k, v)) (b'\t' ∷ header_text (f ∷ es)) (contains_equals k v)

-- A line with a `=` is neither empty nor a marker.
pub equals-some_line : (l : Bytes) → contains_byte b'=' l ≡ true → str_eq l [] ≡ false
unfolding contains_byte
equals-some_line [] e = cc
equals-some_line (c ∷ l) e = refl

pub equals-no_marker : (l : Bytes) → contains_byte b'=' l ≡ true → is_marker l ≡ false
unfolding contains_byte
equals-no_marker [] e = cc
equals-no_marker (c ∷ []) e = ground arith
equals-no_marker (c ∷ (d ∷ l)) e = ground arith

-- Fields are added one by one, whatever a field adds.
pub add_fields-header_text :
    (add : HeaderMap → Bytes → HeaderMap) (put : Bytes × Bytes → HeaderMap → HeaderMap)
    (all : HeaderMap → HeaderMap → HeaderMap)
    → ((m : HeaderMap) → add m [] ≡ m)
    → ((k v : Bytes) (m : HeaderMap) → Every no_equals k → add m (part (k, v)) ≡ put (k, v) m)
    → ((m : HeaderMap) → all m [] ≡ m)
    → ((e : Bytes × Bytes) (es m : HeaderMap) → all m (e ∷ es) ≡ all (put e m) es)
    → (es m : HeaderMap) → IsRecord es
    → add_fields add m (split b'\t' (header_text es)) ≡ all m es
unfolding add_fields split
add_fields-header_text add put all blank one stop more [] m r = blank m ∙ sym (stop m)
add_fields-header_text add put all blank one stop more ((k, v) ∷ []) m (hk, (he, (hv, _))) =
    ap (add_fields add m) (split-last (part (k, v)) (part-no_tab k v hk hv))
    ∙ one k v m he
    ∙ sym (more (k, v) [] m ∙ stop (put (k, v) m))
add_fields-header_text add put all blank one stop more ((k, v) ∷ (f ∷ es)) m (hk, (he, (hv, r))) =
    ap (add_fields add m) (split-tab (part (k, v)) (header_text (f ∷ es)) (part-no_tab k v hk hv))
    ∙ ap (λ n. add_fields add n (split b'\t' (header_text (f ∷ es)))) (one k v m he)
    ∙ add_fields-header_text add put all blank one stop more (f ∷ es) (put (k, v) m) r
    ∙ sym (more (k, v) (f ∷ es) m)

add_field-part :
    (k v : Bytes) (m : HeaderMap) → Every no_equals k → add_field m (part (k, v)) ≡ (k, v) ∷ m
unfolding add_field
add_field-part k v m h =
    rw (contains_equals k v) (rw (before-equals k v h) (rw (after-equals k v h) refl))

add_field-nil : (m : HeaderMap) → add_field m [] ≡ m
unfolding add_field contains_byte
add_field-nil m = refl

-- The fields of a line are read back, in the order in which they are set.
pub parse_tab_delimited_line-header_text :
    (es : HeaderMap) → IsRecord es → parse_tab_delimited_line (header_text es) ≡ set_all [] es
unfolding parse_tab_delimited_line
parse_tab_delimited_line-header_text es r =
    add_fields-header_text add_field (λ e m. e ∷ m) set_all add_field-nil add_field-part (λ m. refl)
      (λ e es m. refl) es [] r
