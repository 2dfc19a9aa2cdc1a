-- ===== src/Wire/Decoder/Header.antt =====
-- `decodeHeader` on a header text of `key=value` parts with tabs between them.
use pod_os_go_client.Prelude.{
  ℕ, ◌≡◌, refl, ap, ◌∙◌, Bool, true, false, not, [], ◌∷◌, ◌++◌, arith, ◌==◌, Bytes,
}
use pod_os_go_client.Text.{before, after, contains_byte, split}
use pod_os_go_client.Wire.Decoder.{add_part, add_parts, HeaderMap, decode_header}
use pod_os_go_client.Text.Laws.{Every, Every-append, Every-map, is_graphic, trim_space_id}

abbrev pub part : Bytes × Bytes → Bytes
part (k, v) = k ++ b'=' ∷ v

abbrev pub header_text : HeaderMap → Bytes
header_text [] = []
header_text (e ∷ []) = part e
header_text (e ∷ (f ∷ es)) = part e ++ b'\t' ∷ header_text (f ∷ es)

-- The parts that were set, the last one first, before `m`.
abbrev pub set_all : HeaderMap → HeaderMap → HeaderMap
set_all m [] = m
set_all m (e ∷ es) = set_all (e ∷ m) es

abbrev pub no_equals : ℕ → Bool
no_equals c = not (c == b'=')

abbrev pub no_tab : ℕ → Bool
no_tab c = not (c == b'\t')

-- Keys and values are graphic characters, and a key holds no `=`.
abbrev pub PlainHeader : HeaderMap → Type 0
PlainHeader [] = Unit {0}
PlainHeader ((k, v) ∷ es) =
    Every is_graphic k × (Every no_equals k × (Every is_graphic v × PlainHeader es))

pub split-tab : (s t : Bytes) → Every no_tab s → split b'\t' (s ++ b'\t' ∷ t) ≡ s ∷ split b'\t' t
unfolding split
split-tab [] t h = refl
split-tab (c ∷ s) t h =
    let other : (c == b'\t') ≡ false = ground arith in rw other (rw (split-tab s t h.1) refl)

pub split-last : (s : Bytes) → Every no_tab s → split b'\t' s ≡ s ∷ []
unfolding split
split-last [] h = refl
split-last (c ∷ s) h =
    let other : (c == b'\t') ≡ false = ground arith in rw other (rw (split-last s h.1) refl)

pub before-equals : (k v : Bytes) → Every no_equals k → before b'=' (k ++ b'=' ∷ v) ≡ k
unfolding before
before-equals [] v h = refl
before-equals (c ∷ k) v h =
    let other : (c == b'=') ≡ false = ground arith in
    rw other (ap (λ t. c ∷ t) (before-equals k v h.1))

pub after-equals : (k v : Bytes) → Every no_equals k → after b'=' (k ++ b'=' ∷ v) ≡ v
unfolding after
after-equals [] v h = refl
after-equals (c ∷ k) v h =
    let other : (c == b'=') ≡ false = ground arith in rw other (after-equals k v h.1)

pub contains_equals : (k v : Bytes) → contains_byte b'=' (k ++ b'=' ∷ v) ≡ true
unfolding contains_byte
contains_equals [] v = refl
contains_equals (c ∷ k) v = rw (contains_equals k v) (ground arith)

add_part-part :
    (m : HeaderMap) (k v : Bytes)
    → Every is_graphic k
    → Every no_equals k
    → Every is_graphic v
    → add_part m (part (k, v)) ≡ (k, v) ∷ m
unfolding add_part
add_part-part m k v hk he hv = rw (contains_equals k v) (
    rw (before-equals k v he)
      (rw (after-equals k v he) (rw (trim_space_id k hk) (rw (trim_space_id v hv) refl))))

graphic-no_tab : (s : Bytes) → Every is_graphic s → Every no_tab s
graphic-no_tab s h = Every-map is_graphic no_tab (λ c d. ground arith) s h

part-no_tab : (k v : Bytes) → Every is_graphic k → Every is_graphic v → Every no_tab (part (k, v))
part-no_tab k v hk hv =
    Every-append no_tab k (b'=' ∷ v) (graphic-no_tab k hk) (refl, graphic-no_tab v hv)

pub parts-empty : (m : HeaderMap) → add_parts m (split b'\t' []) ≡ m
unfolding add_parts add_part split contains_byte
parts-empty m = refl

parts-header_text :
    (es m : HeaderMap) → PlainHeader es → add_parts m (split b'\t' (header_text es)) ≡ set_all m es
unfolding add_parts
parts-header_text [] m h = parts-empty m
parts-header_text ((k, v) ∷ []) m (hk, (he, (hv, h))) =
    rw (split-last (part (k, v)) (part-no_tab k v hk hv)) (add_part-part m k v hk he hv)
parts-header_text ((k, v) ∷ (f ∷ es)) m (hk, (he, (hv, h))) =
    ap (add_parts m) (split-tab (part (k, v)) (header_text (f ∷ es)) (part-no_tab k v hk hv))
    ∙ ap (λ n. add_parts n (split b'\t' (header_text (f ∷ es)))) (add_part-part m k v hk he hv)
    ∙ parts-header_text (f ∷ es) ((k, v) ∷ m) h

-- `decodeHeader` finds exactly the entries of a header text, in the order in which they are set, when
-- the keys and the values are graphic ASCII characters and no key holds a `=`.
pub decode_header-header_text :
    (es : HeaderMap) → PlainHeader es → decode_header (header_text es) ≡ set_all [] es
unfolding decode_header
decode_header-header_text es h = parts-header_text es [] h
