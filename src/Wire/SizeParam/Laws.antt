-- ===== src/Wire/SizeParam/Laws.antt =====
-- What the encoder writes into a length field is read back, below 2^31, and refused from there on.
use pod_os_go_client.Prelude.{
  ℕ, ◌^◌, ◌<◌, ◌≡◌, refl, ap, ◌∙◌, ◌≢◌, false, none, some, [], ◌∷◌, arith, ltb, ◌==◌, if◌then◌else◌,
  Bytes, length,
}
use pod_os_go_client.Prelude.Int.{pos}
use pod_os_go_client.Strconv.{digits_fixed, parse_int, parse_unsigned, parse_digits, atoi}
use pod_os_go_client.Strconv.Laws.{
  parse_digits-hex, parse_digits-decimal, digits_fixed-hex-Every, digits_fixed-decimal-Every,
  is_digit, is_decimal, length-digits_fixed,
}
use pod_os_go_client.Text.Laws.{Every, Every-map, is_graphic, trim_space_id, trim_right_nul_id}
use pod_os_go_client.Text.{trim_space, trim_right_nul}
use pod_os_go_client.Wire.SizeParam.{decode_trimmed, decode_message_size_param}

decode-graphic : (s : Bytes) → Every is_graphic s → decode_message_size_param s ≡ decode_trimmed s
unfolding decode_message_size_param
decode-graphic s h = rw (trim_right_nul_id s h) (rw (trim_space_id s h))

-- A run of digits has no sign, so `ParseInt` is `ParseUint` with the cutoff.
pub parse_int-digits :
    (base cutoff n : ℕ) (s : Bytes)
    → Every is_digit s
    → s ≢ []
    → parse_digits base 0 s ≡ some n
    → parse_int base cutoff s ≡ (if ltb n cutoff then some (pos n) else none)
unfolding parse_int parse_unsigned
parse_int-digits base cutoff n [] d ne e = absurd (ne refl)
parse_int-digits base cutoff n (c ∷ s) d ne e =
    let plus : (c == b'+') ≡ false = ground arith in
    let minus : (c == b'-') ≡ false = ground arith in rw plus (rw minus (rw e))

pub digits_fixed-ne-nil : (base k n : ℕ) → 0 < k → digits_fixed base k n ≢ []
digits_fixed-ne-nil base k n h e = absurd (omega (arith, length-digits_fixed base k n, ap length e))

-- A field of `x` and eight hexadecimal digits.
pub decode_hex :
    (n : ℕ)
    → n < 16 ^ 8
    → decode_message_size_param (b'x' ∷ digits_fixed 16 8 n)
      ≡ (if ltb n (2 ^ 31) then some (pos n) else none)
unfolding decode_trimmed
decode_hex n h =
    decode-graphic (b'x' ∷ digits_fixed 16 8 n)
      (refl, Every-map is_digit is_graphic (λ c d. ground arith) _ (digits_fixed-hex-Every 8 n))
    ∙ parse_int-digits 16 (2 ^ 31) n (digits_fixed 16 8 n) (digits_fixed-hex-Every 8 n)
        (digits_fixed-ne-nil 16 8 n (omega arith)) (parse_digits-hex 8 n h)

decimal_not_x :
    (s : Bytes) → Every is_decimal s → s ≢ [] → decode_trimmed s ≡ parse_int 10 (2 ^ 31) s
unfolding decode_trimmed
decimal_not_x [] d ne = absurd (ne refl)
decimal_not_x (c ∷ s) d ne = let x : (c == b'x') ≡ false = ground arith in rw x

-- A field of nine decimal digits.
pub decode_decimal :
    (n : ℕ) → n < 10 ^ 9 → decode_message_size_param (digits_fixed 10 9 n) ≡ some (pos n)
decode_decimal n h =
    let places = digits_fixed-decimal-Every 9 n in
    let some_places = digits_fixed-ne-nil 10 9 n (omega arith) in
    decode-graphic (digits_fixed 10 9 n)
      (Every-map is_decimal is_graphic (λ c d. ground arith) _ places)
    ∙ decimal_not_x _ places some_places
    ∙ parse_int-digits 10 (2 ^ 31) n _
        (Every-map is_decimal is_digit (λ c d. ground arith) _ places) some_places
        (parse_digits-decimal 9 n h)
    ∙ ground arith

-- The same field read by the trimming and `Atoi` of `DecodeMessage`.
pub atoi_trimmed :
    (n : ℕ) → n < 10 ^ 9 → atoi (trim_space (trim_right_nul (digits_fixed 10 9 n))) ≡ some (pos n)
unfolding atoi
atoi_trimmed n h =
    let places = digits_fixed-decimal-Every 9 n in
    let graphic = Every-map is_decimal is_graphic (λ c d. ground arith) _ places in
    rw (trim_right_nul_id _ graphic) (
      rw (trim_space_id _ graphic) (
        parse_int-digits 10 (2 ^ 63) n _
          (Every-map is_decimal is_digit (λ c d. ground arith) _ places)
          (digits_fixed-ne-nil 10 9 n (omega arith)) (parse_digits-decimal 9 n h)
        ∙ ground arith))
