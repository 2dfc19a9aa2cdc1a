-- ===== src/Payload/TagHeader.antt =====
-- `parseEventTagHeader` of message/tag_format.go on the header fields that a gateway sends.
use pod_os_go_client.Prelude.{
  ℕ, ◌<◌, ◌^◌, ◌≡◌, refl, ap, ap₂, ◌∙◌, ◌≢◌, Bool, true, false, not, some, [], ◌∷◌, ◌++◌, suc, ◌==◌,
  arith, Bytes, codes, length,
}
use pod_os_go_client.Prelude.Int.{pos}
use pod_os_go_client.Strconv.{atoi_value, digits_fixed}
use pod_os_go_client.Strconv.Laws.{digits_fixed-decimal-Every, is_decimal}
use pod_os_go_client.Text.{after, before, contains_byte, cut_prefix, index_byte, split_n}
use pod_os_go_client.Text.Laws.{Every, Every-map}
use pod_os_go_client.Wire.Decoder.Header.{after-equals, before-equals, no_equals}
use pod_os_go_client.Wire.Response.{atoi-digits}
use pod_os_go_client.Payload.{
  empty_tag, event_tag_of, tag_behind, normalize_tag_owner, parse_event_tag_header,
  split_tag_key_value,
}

abbrev pub no_colon : ℕ → Bool
no_colon c = not (c == b':')

-- The text of a field up to a colon, and what stands behind it.
contains-colon : (s t : Bytes) → contains_byte b':' (s ++ b':' ∷ t) ≡ true
unfolding contains_byte
contains-colon [] t = refl
contains-colon (c ∷ s) t = rw (contains-colon s t) (ground arith)

before-colon : (s t : Bytes) → Every no_colon s → before b':' (s ++ b':' ∷ t) ≡ s
unfolding before
before-colon [] t h = refl
before-colon (c ∷ s) t h =
    let other : (c == b':') ≡ false = ground arith in
    rw other (ap (λ r. c ∷ r) (before-colon s t h.1))

after-colon : (s t : Bytes) → Every no_colon s → after b':' (s ++ b':' ∷ t) ≡ t
unfolding after
after-colon [] t h = refl
after-colon (c ∷ s) t h =
    let other : (c == b':') ≡ false = ground arith in rw other (after-colon s t h.1)

split_n-colon :
    (n : ℕ) (s t : Bytes)
    → Every no_colon s
    → split_n b':' (suc (suc n)) (s ++ b':' ∷ t) ≡ s ∷ split_n b':' (suc n) t
unfolding split_n
split_n-colon n s t h =
    rw (contains-colon s t) (rw (before-colon s t h) (rw (after-colon s t h) refl))

cut_prefix-append : (p s : Bytes) → cut_prefix p (p ++ s) ≡ some s
unfolding cut_prefix
cut_prefix-append [] s = refl
cut_prefix-append (c ∷ p) s = rw (cut_prefix-append p s) (ground arith)

index_byte-equals :
    (k v : Bytes) → Every no_equals k → index_byte b'=' (k ++ b'=' ∷ v) ≡ some (length k)
unfolding index_byte
index_byte-equals [] v h = refl
index_byte-equals (c ∷ k) v h =
    let other : (c == b'=') ≡ false = ground arith in rw other (rw (index_byte-equals k v h.1) refl)

split_tag_key_value-pair :
    (k v : Bytes) → k ≢ [] → Every no_equals k → split_tag_key_value (k ++ b'=' ∷ v) ≡ (k, v)
unfolding split_tag_key_value
split_tag_key_value-pair [] v some_key h = absurd (some_key refl)
split_tag_key_value-pair (c ∷ k) v some_key h =
    rw (index_byte-equals (c ∷ k) v h, split_tag_key_value)
      (rw (before-equals (c ∷ k) v h) (rw (after-equals (c ∷ k) v h) refl))

atoi_value-digits : (n : ℕ) → n < 10 ^ 9 → atoi_value (digits_fixed 10 9 n) ≡ pos n
unfolding atoi_value
atoi_value-digits n h = rw (atoi-digits n h, atoi_value) refl

digits-no_colon : (n : ℕ) → Every no_colon (digits_fixed 10 9 n)
digits-no_colon n =
    Every-map is_decimal no_colon (λ c d. ground arith) _ (digits_fixed-decimal-Every 9 n)

-- The name of the header field of a tag, with its number, its frequency, its time and its owner.
abbrev pub event_tag_name : (number frequency : ℕ) → (timestamp owner : Bytes) → Bytes
event_tag_name number frequency timestamp owner =
    codes "event_tag:"
    ++ digits_fixed 10 9 number
    ++ b':' ∷ digits_fixed 10 9 frequency
    ++ b':' ∷ timestamp
    ++ b':' ∷ owner

-- A tag is read back whole from its header field: the number, the frequency, the time, the key, the
-- value and the owner, which may hold colons, except that an owner that stands for none is dropped.
-- (The two numbers have nine digits, the time has no colon, and the key is not empty and has no `=`.)
pub parse_event_tag_header-event_tag_name :
    (number frequency : ℕ) (timestamp owner key value : Bytes)
    → number < 10 ^ 9
    → frequency < 10 ^ 9
    → Every no_colon timestamp
    → key ≢ []
    → Every no_equals key
    → parse_event_tag_header (event_tag_name number frequency timestamp owner) (key ++ b'=' ∷ value)
      ≡ some (record empty_tag {
        tag_number = pos number;
        frequency = pos frequency;
        timestamp = timestamp;
        owner = normalize_tag_owner owner;
        key = key;
        value = value;
      })
unfolding parse_event_tag_header split_n digits_fixed
parse_event_tag_header-event_tag_name number frequency timestamp owner key value hn hf ht some_key
      he =
    let n = digits_fixed 10 9 number in
    let f = digits_fixed 10 9 frequency in
    let behind_f = timestamp ++ b':' ∷ owner in
    let behind_n = f ++ b':' ∷ behind_f in
    let parts =
      split_n-colon 2 n behind_n (digits-no_colon number)
      ∙ ap (λ r. n ∷ r)
          (split_n-colon 1 f behind_f (digits-no_colon frequency)
            ∙ ap (λ r. f ∷ r) (split_n-colon 0 timestamp owner ht)) in
    ap (tag_behind (key ++ b'=' ∷ value))
      (cut_prefix-append (codes "event_tag:") (n ++ b':' ∷ behind_n))
    ∙ ap₂ event_tag_of parts (split_tag_key_value-pair key value some_key he)
    ∙ rw (atoi_value-digits number hn) (rw (atoi-digits frequency hf) refl)
