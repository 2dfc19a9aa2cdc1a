-- ===== src/Wire/RawEdit/Commutes.antt =====
-- Replacing the From address in the bytes of a message is encoding the message with that address.
use pod_os_go_client.Prelude.{
  ℕ, ◌+◌, ◌-◌, ◌^◌, ◌≤◌, ◌<◌, ◌≡◌, refl, sym, ap, ◌∙◌, true, [], ◌∷◌, ◌++◌, append-nil,
  append_assoc, arith, lt→ltb, le→leb, Bytes, length, length-append, slice, slice_skip, slice_first,
}
use pod_os_go_client.Prelude.Int.{pos, ◌+ℤ◌, ◌-ℤ◌, leb_ℤ, +ℤ-pos, -ℤ-pos}
use pod_os_go_client.Prelude.Result.{ok}
use pod_os_go_client.Wire.Encoder.Layout.{
  IsPlain, encode_frame-eq-ok, frame_bytes-IsPlain, hex_field, rest_of_frame, total_length-IsPlain,
}
use pod_os_go_client.Text.Laws.{Every, is_ascii}
use pod_os_go_client.Wire.Encoder.{encode_frame, frame_bytes, total_length, encode_length}
use pod_os_go_client.Wire.Decoder.Parts.{
  fields_of, fields_of-AllNine, frame_bytes-joined, length-fields_of,
}
use pod_os_go_client.Wire.RawEdit.{
  invalid_payload_length, invalid_from_length, invalid_to_length, EditError, or_fail,
  replace_from_in_raw_message, slice_of, rebuild,
}
use pod_os_go_client.Wire.Decoder.Fields.{AllNine, Fields, joined, slice_b, slice_c, slice_g}
use pod_os_go_client.Wire.{Frame, max_message_size}
use pod_os_go_client.Wire.SizeParam.Laws.{decode_hex}
use pod_os_go_client.Wire.SizeParam.{decode_message_size_param}
use pod_os_go_client.Wire.Decoder.OfFrame.{slice_input}
use pod_os_go_client.Strconv.{format_08x}
use pod_os_go_client.Strconv.Laws.{length-digits_fixed, format_08x-digits_fixed}

encode_length-hex_field : (n : ℕ) → n < 16 ^ 8 → encode_length n ≡ hex_field n
encode_length-hex_field n h = ap (◌∷◌ b'x') (format_08x-digits_fixed n h)

pub eight_places : (n : ℕ) → n < 16 ^ 8 → length (format_08x n) ≡ 8
eight_places n h = rw (format_08x-digits_fixed n h) (length-digits_fixed 16 8 n)

pub leb_ℤ-pos : (a b : ℕ) → a ≤ b → leb_ℤ (pos a) (pos b) ≡ true
leb_ℤ-pos a b h = ground arith

pub +ℤ-difference : (a b c : ℕ) → c ≤ a → pos a +ℤ (pos b -ℤ pos c) ≡ pos (a + b - c)
unfolding ◌+ℤ◌ ◌-ℤ◌
+ℤ-difference a b c h = ground arith

pub slice_of-pos :
    (E : Type 0) (lo hi : ℕ) (raw : Bytes)
    → lo ≤ hi
    → hi ≤ length raw
    → slice_of {E = E} (pos lo) (pos hi) raw ≡ ok (slice lo hi raw)
unfolding slice_of
slice_of-pos E lo hi raw h k = rw (le→leb lo hi h) (rw (le→leb _ _ k))

-- The lengths are not negative and fit the message: every guard passes.
rebuild-pos :
    (raw new : Bytes) (t f p : ℕ)
    → 63 + t + f + p ≤ length raw
    → length raw + length new < 16 ^ 8
    → rebuild raw new (pos t) (pos f) (pos p)
      ≡ ok (
          encode_length (length raw + length new - f)
          ++ (slice 9 18 raw
              ++ (encode_length (length new)
                  ++ (encode_length (length raw - (63 + t + f) - p)
                      ++ (slice 36 (63 + t) raw ++ (new ++ slice (63 + t + f) (length raw) raw))))))
unfolding rebuild
rebuild-pos raw new t f p h k = rw (+ℤ-pos 63 t) (
    rw (+ℤ-pos (63 + t) f) (
      rw (-ℤ-pos (length raw) (63 + t + f) (omega arith)) (
        rw (-ℤ-pos (length raw - (63 + t + f)) p (omega arith)) (
          rw (+ℤ-difference (length raw) (length new) f (omega arith)) (
            rw (leb_ℤ-pos (63 + t + f) (length raw) (omega arith)) (
              rw (leb_ℤ-pos 0 (length raw - (63 + t + f) - p) (omega arith)) (
                rw (leb_ℤ-pos 0 (length raw + length new - f) (omega arith)) (
                  rw (eight_places (length raw + length new - f) (omega arith)) (
                    rw (eight_places (length new) (omega arith)) (
                      rw (eight_places (length raw - (63 + t + f) - p) (omega arith)) (
                        rw (slice_of-pos EditError 36 (63 + t) raw (omega arith) (omega arith)) (
                          rw (
                            slice_of-pos EditError (63 + t + f) (length raw) raw (omega arith)
                              (omega arith))))))))))))))

-- The bytes that the function copies between the From length and the From address.
numbers_and_to :
    (s : Fields) (n : AllNine s) (to back : Bytes)
    → s.rest ≡ to ++ back
    → slice 36 (63 + length to) (joined s) ≡ s.e ++ (s.f ++ (s.g ++ to))
numbers_and_to s n to back e =
    let front = s.e ++ (s.f ++ (s.g ++ to)) in
    let regroup : s.e ++ (s.f ++ (s.g ++ s.rest)) ≡ (s.e ++ (s.f ++ (s.g ++ to))) ++ back =
      rw e (simp append_assoc) in
    slice_skip 9 36 (63 + length to) 27 (54 + length to) s.a _ n.nine_a (omega arith) (omega arith)
    ∙ slice_skip 9 27 (54 + length to) 18 (45 + length to) s.b _ n.nine_b (omega arith)
        (omega arith)
    ∙ slice_skip 9 18 (45 + length to) 9 (36 + length to) s.c _ n.nine_c (omega arith) (omega arith)
    ∙ slice_skip 9 9 (36 + length to) 0 (27 + length to) s.d _ n.nine_d (omega arith) (omega arith)
    ∙ ap (slice 0 (27 + length to)) regroup
    ∙ slice_first (27 + length to) (s.e ++ (s.f ++ (s.g ++ to))) back
        (omega (arith, length-append {0}, n.nine_e, n.nine_f, n.nine_g))

-- The bytes behind the From address.
behind_from :
    (f : Frame) (p : IsPlain f) (small : total_length f < max_message_size)
    → slice
        (63 + length f.to + length f.from)
        (63 + length f.to + length f.from + length f.header + length f.payload)
        (frame_bytes f ++ [])
      ≡ f.header ++ f.payload
behind_from f p small =
    slice_input f [] p small _ _ (length f.to + length f.from)
      (length f.to + length f.from + length f.header + length f.payload) (omega arith) (omega arith)
    ∙ slice_skip (length f.to) _ _ (length f.from)
        (length f.from + length f.header + length f.payload) f.to _ refl refl (omega arith)
    ∙ slice_skip (length f.from) _ _ 0 (length f.header + length f.payload) f.from _ refl
        (omega arith) (omega arith)
    ∙ ap (slice 0 (length f.header + length f.payload)) (simp (append_assoc, append-nil))
    ∙ slice_first (length f.header + length f.payload) (f.header ++ f.payload) []
        (length-append f.header f.payload)

-- One of the three length fields that are read.
read_length :
    (e : EditError) (n : ℕ)
    → n < 2 ^ 31
    → or_fail (decode_message_size_param (hex_field n)) e ≡ ok (pos n)
read_length e n h = rw (decode_hex n (omega arith)) (rw (lt→ltb n (2 ^ 31) h))

-- The three lengths are read from a message of seven fields.
replace-joined :
    (s : Fields) (n : AllNine s) (new : Bytes) (t f p : ℕ)
    → 63 ≤ length (joined s)
    → t < 2 ^ 31
    → f < 2 ^ 31
    → p < 2 ^ 31
    → s.b ≡ hex_field t
    → s.c ≡ hex_field f
    → s.g ≡ hex_field p
    → replace_from_in_raw_message (joined s) new ≡ rebuild (joined s) new (pos t) (pos f) (pos p)
unfolding replace_from_in_raw_message
replace-joined s n new t f p big ht hf hp eb ec eg = rw (le→leb _ _ big) (
    rw (slice_b s n ∙ eb, read_length invalid_to_length t ht)
      (rw (slice_c s n ∙ ec, read_length invalid_from_length f hf)
        (rw (slice_g s n ∙ eg, read_length invalid_payload_length p hp))))

assemble :
    {a a' b b' c c' d d' e e' f f' : Bytes} (new : Bytes)
    → a ≡ a'
    → b ≡ b'
    → c ≡ c'
    → d ≡ d'
    → e ≡ e'
    → f ≡ f'
    → a ++ (b ++ (c ++ (d ++ (e ++ (new ++ f)))))
      ≡ a' ++ (b' ++ (c' ++ (d' ++ (e' ++ (new ++ f')))))
assemble new p q r s t u = cc

module _ (f : Frame) (new : Bytes) (p : IsPlain f) (new_ascii : Every is_ascii new) where
  abbrev renamed : Frame
  renamed = record f { from = new }

  renamed-IsPlain : IsPlain renamed
  renamed-IsPlain = record {
    to_ascii = p.to_ascii;
    from_ascii = new_ascii;
    header_ascii = p.header_ascii;
    type_fits = p.type_fits;
    data_type_fits = p.data_type_fits;
  }

  abbrev raw : Bytes
  raw = joined (fields_of f [])

  pieces :
      total_length f < max_message_size
      → total_length renamed ≤ max_message_size
      → encode_length (length raw + length new - length f.from)
          ++ (slice 9 18 raw
              ++ (encode_length (length new)
                  ++ (encode_length
                        (length raw - (63 + length f.to + length f.from) - length f.payload)
                      ++ (slice 36 (63 + length f.to) raw
                          ++ (new ++ slice (63 + length f.to + length f.from) (length raw) raw)))))
        ≡ frame_bytes renamed
  unfolding rest_of_frame
  pieces small fits =
      let t = total_length-IsPlain f p in
      let t' = total_length-IsPlain renamed renamed-IsPlain in
      let len = length-fields_of f [] in
      let total : length raw + length new - length f.from ≡ total_length renamed =
        omega (arith, len, t') in
      let span : length raw - (63 + length f.to + length f.from) - length f.payload
          ≡ length f.header =
        omega (arith, len) in
      let end : length raw ≡ 63 + length f.to + length f.from + length f.header + length f.payload =
        omega (arith, len) in
      assemble new
        (ap encode_length total ∙ encode_length-hex_field (total_length renamed) (omega arith))
        (slice_b (fields_of f []) (fields_of-AllNine f []))
        (encode_length-hex_field (length new) (omega arith))
        (ap encode_length span ∙ encode_length-hex_field (length f.header) (omega arith))
        (numbers_and_to (fields_of f []) (fields_of-AllNine f []) f.to _ refl)
        (ap (λ h. slice (63 + length f.to + length f.from) h raw) end
          ∙ ap (slice _ _) (sym (frame_bytes-joined f [] p (omega arith)))
          ∙ behind_from f p small)
      ∙ (simp append_assoc)
      ∙ sym (frame_bytes-IsPlain renamed renamed-IsPlain fits)

  -- Replacing the From address in an encoded message gives the very bytes that encoding the message
  -- with the new address gives, for a plain frame below 2^31 bytes, an ASCII address, and where that
  -- second encoding succeeds.
  pub replace_from-encode_frame :
      (b b' : Bytes)
      → total_length f < max_message_size
      → encode_frame f ≡ ok b
      → encode_frame (record f { from = new }) ≡ ok b'
      → replace_from_in_raw_message b new ≡ ok b'
  replace_from-encode_frame b b' small e e' =
      let (is_frame, _) = encode_frame-eq-ok f e in
      let (is_frame', fits) = encode_frame-eq-ok renamed e' in
      let t = total_length-IsPlain f p in
      let t' = total_length-IsPlain renamed renamed-IsPlain in
      let len = length-fields_of f [] in
      let as_fields : b ≡ raw =
        is_frame ∙ sym (append-nil (frame_bytes f)) ∙ frame_bytes-joined f [] p (omega arith) in
      ap (λ r. replace_from_in_raw_message r new) as_fields
      ∙ replace-joined (fields_of f []) (fields_of-AllNine f []) new (length f.to) (length f.from)
          (length f.payload) (omega (arith, len)) (omega arith) (omega arith) (omega arith) refl
          refl refl
      ∙ rebuild-pos raw new (length f.to) (length f.from) (length f.payload) (omega (arith, len))
          (omega (arith, len, t'))
      ∙ ap ok (pieces small fits ∙ sym is_frame')
