-- ===== src/Message/Header/Decode.antt =====
-- `decodeHeader` of message/decoder.go on the header texts that message/header.go makes.
use pod_os_go_client.Prelude.{
  ℕ, suc, ◌/◌, ◌^◌, ◌≡◌, refl, sym, ap, ◌∙◌, Bool, true, not, ◌&&◌, Option, none, some, List, [],
  ◌∷◌, ◌++◌, append_assoc, arith, ◌==◌, Bytes, codes, str_eq, str_eq-eq,
}
use pod_os_go_client.Text.Laws.{
  Every-map, is_graphic, trim_space_id, every, Every, Every-append, every-Every,
}
use pod_os_go_client.Message.{Externals, Tag}
use pod_os_go_client.Strconv.{digits_fixed, digits_free}
use pod_os_go_client.Strconv.Laws.{
  digits_fixed-decimal-Every, digits_free-decimal-Every, is_decimal,
}
use pod_os_go_client.Message.Format.{tag_name}
use pod_os_go_client.Message.Header.Store.{tag_slots}
use pod_os_go_client.Text.{split, trim_space}
use pod_os_go_client.Wire.Decoder.{HeaderMap, add_part, add_parts, decode_header}
use pod_os_go_client.Wire.Decoder.Header.{
  part, no_tab, no_equals, set_all, split-tab, split-last, before-equals, after-equals,
  contains_equals, parts-empty,
}
use pod_os_go_client.Message.Header.{
  Slot, HeaderText, written, write_fields, write_last, header_string,
}

-- A text that a field carries unchanged: no tab in it and no white space at its ends.
abbrev pub IsCarried : Bytes → Type 0
IsCarried v = Every no_tab v × (trim_space v ≡ v)

abbrev IsKey : Bytes → Type 0
IsKey k = IsCarried k × Every no_equals k

abbrev pub AllCarried : List Slot → Type 0
AllCarried [] = Unit {0}
AllCarried ((k, none) ∷ ss) = AllCarried ss
AllCarried ((k, some v) ∷ ss) = IsCarried v × AllCarried ss

abbrev pub AllKeys : List Slot → Type 0
AllKeys [] = Unit {0}
AllKeys ((k, o) ∷ ss) = IsKey k × AllKeys ss

abbrev pub LastCarried : Option Bytes → Type 0
LastCarried none = Unit {0}
LastCarried (some v) = IsCarried v

abbrev pub last_entry : Option Bytes → HeaderMap
last_entry none = []
last_entry (some v) = (codes "_msg_id", v) ∷ []

-- The fields of a header, in the order in which they are written.
abbrev pub entries : HeaderText → HeaderMap
entries h = written h.slots ++ last_entry h.last_id

add_part-carried :
    (m : HeaderMap) (k v : Bytes) → IsKey k → IsCarried v → add_part m (part (k, v)) ≡ (k, v) ∷ m
unfolding add_part
add_part-carried m k v ((hk, tk), he) (hv, tv) =
    rw (contains_equals k v)
      (rw (before-equals k v he) (rw (after-equals k v he) (rw tk (rw tv refl))))

part-no_tab : (k v : Bytes) → IsKey k → IsCarried v → Every no_tab (part (k, v))
part-no_tab k v hk hv = Every-append no_tab k (b'=' ∷ v) hk.0.0 (refl, hv.0)

abbrev Clean : HeaderMap → Type 0
Clean [] = Unit {0}
Clean ((k, v) ∷ es) = IsKey k × IsCarried v × Clean es

written-Clean : (ss : List Slot) → AllKeys ss → AllCarried ss → Clean (written ss)
unfolding written
written-Clean [] hk hv = tt
written-Clean ((k, none) ∷ ss) hk hv = written-Clean ss hk.1 hv
written-Clean ((k, some v) ∷ ss) hk hv = (hk.0, hv.0, written-Clean ss hk.1 hv.1)

-- The same as a test.
unfoldable pub is_key : Bytes → Bool
unfolding trim_space
is_key k = every no_tab k && (every no_equals k && str_eq (trim_space k) k)

abbrev pub all_keys : List Slot → Bool
all_keys [] = true
all_keys ((k, o) ∷ ss) = is_key k && all_keys ss

pub is_key-IsKey : (k : Bytes) → is_key k ≡ true → IsKey k
unfolding is_key
is_key-IsKey k e =
    let t : every no_tab k ≡ true = ground arith in
    let q : every no_equals k ≡ true = ground arith in
    let s : str_eq (trim_space k) k ≡ true = ground arith in
    ((every-Every no_tab k t, str_eq-eq (trim_space k) k s), every-Every no_equals k q)

pub all_keys-AllKeys : (ss : List Slot) → all_keys ss ≡ true → AllKeys ss
all_keys-AllKeys [] e = tt
all_keys-AllKeys ((k, o) ∷ ss) e =
    let head : is_key k ≡ true = ground arith in
    let rest : all_keys ss ≡ true = ground arith in (is_key-IsKey k head, all_keys-AllKeys ss rest)

msg_id-IsKey : IsKey (codes "_msg_id")
unfolding is_key
msg_id-IsKey = is_key-IsKey (codes "_msg_id") refl

parts-last :
    (o : Option Bytes) (m : HeaderMap)
    → LastCarried o
    → add_parts m (split b'\t' (write_last o)) ≡ set_all m (last_entry o)
unfolding add_parts
parts-last none m h = parts-empty m
parts-last (some v) m h =
    rw (split-last _ (part-no_tab (codes "_msg_id") v msg_id-IsKey h))
      (add_part-carried m (codes "_msg_id") v msg_id-IsKey h)

parts-fields :
    (es : HeaderMap) (o : Option Bytes) (m : HeaderMap)
    → Clean es
    → LastCarried o
    → add_parts m (split b'\t' (write_fields es (write_last o))) ≡ set_all m (es ++ last_entry o)
unfolding add_parts write_fields
parts-fields [] o m h hl = parts-last o m hl
parts-fields ((k, v) ∷ es) o m (hk, hv, h) hl =
    let rest = write_fields es (write_last o) in
    ap (λ s. add_parts m (split b'\t' s)) (sym (append_assoc k (b'=' ∷ v) (b'\t' ∷ rest)))
    ∙ ap (add_parts m) (split-tab (part (k, v)) rest (part-no_tab k v hk hv))
    ∙ ap (λ n. add_parts n (split b'\t' rest)) (add_part-carried m k v hk hv)
    ∙ parts-fields es o ((k, v) ∷ m) h hl

-- `decodeHeader` finds in a header text exactly the fields that were written, in their order, when no
-- value has a tab in it or white space at its ends, and no key has these or a `=`.
pub decode_header-header_string :
    (h : HeaderText)
    → AllKeys h.slots
    → AllCarried h.slots
    → LastCarried h.last_id
    → decode_header (header_string h) ≡ set_all [] (entries h)
unfolding decode_header header_string
decode_header-header_string h hk hv hl =
    parts-fields (written h.slots) h.last_id [] (written-Clean h.slots hk hv) hl

-- A key of letters, digits, colons and underscores.
abbrev is_key_char : ℕ → Bool
is_key_char c = is_graphic c && not (c == b'=')

pub is_key_char-IsKey : (k : Bytes) → Every is_key_char k → IsKey k
is_key_char-IsKey k h = (
  (
    Every-map is_key_char no_tab (λ c d. ground arith) k h,
    trim_space_id k (Every-map is_key_char is_graphic (λ c d. ground arith) k h),
  ),
  Every-map is_key_char no_equals (λ c d. ground arith) k h,
)

tag_name-IsKey : (i : ℕ) → IsKey (tag_name i)
unfolding tag_name
tag_name-IsKey i = is_key_char-IsKey (tag_name i) (
    let digit : (c : ℕ) → is_decimal c ≡ true → is_key_char c ≡ true = λ c d. ground arith in
    Every-append is_key_char (codes "tag_") _ (every-Every is_key_char (codes "tag_") refl) (
      Every-append is_key_char (digits_free 10 16 (i / 10 ^ 4)) (digits_fixed 10 4 i)
        (Every-map is_decimal is_key_char digit (digits_free 10 16 (i / 10 ^ 4))
          (digits_free-decimal-Every 16 (i / 10 ^ 4)))
        (Every-map is_decimal is_key_char digit (digits_fixed 10 4 i)
          (digits_fixed-decimal-Every 4 i))))

pub tag_slots-AllKeys : (x : Externals) (i : ℕ) (ts : List Tag) → AllKeys (tag_slots x i ts)
unfolding tag_slots
tag_slots-AllKeys x i [] = tt
tag_slots-AllKeys x i (t ∷ ts) = (tag_name-IsKey i, tag_slots-AllKeys x (suc i) ts)

pub AllKeys-append : (ss ts : List Slot) → all_keys ss ≡ true → AllKeys ts → AllKeys (ss ++ ts)
AllKeys-append [] ts e h = h
AllKeys-append ((k, o) ∷ ss) ts e h =
    let head : is_key k ≡ true = ground arith in
    let rest : all_keys ss ≡ true = ground arith in
    (is_key-IsKey k head, AllKeys-append ss ts rest h)

-- The same for values, as a test.
unfoldable pub is_carried : Bytes → Bool
unfolding trim_space
is_carried v = every no_tab v && str_eq (trim_space v) v

abbrev pub all_carried : List Slot → Bool
all_carried [] = true
all_carried ((k, none) ∷ ss) = all_carried ss
all_carried ((k, some v) ∷ ss) = is_carried v && all_carried ss

pub is_carried-IsCarried : (v : Bytes) → is_carried v ≡ true → IsCarried v
unfolding is_carried
is_carried-IsCarried v e =
    let t : every no_tab v ≡ true = ground arith in
    let s : str_eq (trim_space v) v ≡ true = ground arith in
    (every-Every no_tab v t, str_eq-eq (trim_space v) v s)

pub all_carried-AllCarried : (ss : List Slot) → all_carried ss ≡ true → AllCarried ss
all_carried-AllCarried [] e = tt
all_carried-AllCarried ((k, none) ∷ ss) e = all_carried-AllCarried ss e
all_carried-AllCarried ((k, some v) ∷ ss) e =
    let head : is_carried v ≡ true = ground arith in
    let rest : all_carried ss ≡ true = ground arith in
    (is_carried-IsCarried v head, all_carried-AllCarried ss rest)
