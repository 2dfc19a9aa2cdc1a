-- ===== src/Strconv/Laws.antt =====
-- Numbers are read back as they were written.
use pod_os_go_client.Prelude.{
  ℕ, zero, suc, ◌+◌, ◌*◌, ◌/◌, ◌%◌, ◌^◌, ◌≤◌, ◌<◌, ◌≡◌, refl, ap, ◌∙◌, inl, inr, Bool, true, ◌&&◌,
  ◌||◌, some, [], ◌∷◌, ◌++◌, arith, leb, ◌==◌, Bool-cases, Option-cases, Bytes, length,
  length-append, none_ne_some,
}
use native.Mathlib.Nat.{pow-suc}
use pod_os_go_client.Text.Laws.{Every, Every-append}
use pod_os_go_client.Strconv.{
  digit_char, digits_fixed, digits_free, format_08x, format_09d, digit_value, parse_digits,
}

digit_value-digit_char :
    (base d : ℕ) → d < base → base ≤ 16 → digit_value base (digit_char d) ≡ some d
unfolding digit_value digit_char
digit_value-digit_char base d h k = ground arith

pub length-digits_fixed : (base k n : ℕ) → length (digits_fixed base k n) ≡ k
unfolding digits_fixed
length-digits_fixed base zero n = refl
length-digits_fixed base (suc k) n = omega (
  arith,
  length-append (digits_fixed base k (n / base)) (digit_char (n % base) ∷ []),
  length-digits_fixed base k (n / base),
)

parse_digits-concat :
    (base acc v d : ℕ) (s : Bytes) (c : ℕ)
    → parse_digits base acc s ≡ some v
    → digit_value base c ≡ some d
    → parse_digits base acc (s ++ c ∷ []) ≡ some (v * base + d)
unfolding parse_digits
parse_digits-concat base acc v d [] c p q = rw (q, parse_digits) (ground arith)
parse_digits-concat base acc v d (x ∷ s) c p q = elim (Option-cases (digit_value base x)) [
  | inl e ↦ absurd (none_ne_some (rw (e, parse_digits) at p))
  | inr (a, e) ↦
      rw (e, parse_digits)
        (parse_digits-concat base (acc * base + a) v d s c (rw (e, parse_digits) at p) q)
]

pub parse_digits-hex : (k n : ℕ) → n < 16 ^ k → parse_digits 16 0 (digits_fixed 16 k n) ≡ some n
unfolding digits_fixed parse_digits
parse_digits-hex zero n h = ap some (omega arith)
parse_digits-hex (suc k) n h =
    parse_digits-concat 16 0 (n / 16) (n % 16) (digits_fixed 16 k (n / 16)) _
      (parse_digits-hex k (n / 16) (omega (arith, pow-suc 16 k)))
      (digit_value-digit_char 16 (n % 16) (omega arith) (omega arith))
    ∙ ap some (omega arith)

pub parse_digits-decimal : (k n : ℕ) → n < 10 ^ k → parse_digits 10 0 (digits_fixed 10 k n) ≡ some n
unfolding digits_fixed parse_digits
parse_digits-decimal zero n h = ap some (omega arith)
parse_digits-decimal (suc k) n h =
    parse_digits-concat 10 0 (n / 10) (n % 10) (digits_fixed 10 k (n / 10)) _
      (parse_digits-decimal k (n / 10) (omega (arith, pow-suc 10 k)))
      (digit_value-digit_char 10 (n % 10) (omega arith) (omega arith))
    ∙ ap some (omega arith)

-- A number below 16^8 has exactly eight hexadecimal places.
pub format_08x-digits_fixed : (n : ℕ) → n < 16 ^ 8 → format_08x n ≡ digits_fixed 16 8 n
unfolding format_08x digits_free
format_08x-digits_fixed n h = let e : n / 16 ^ 8 ≡ 0 = omega arith in rw e

pub format_09d-digits_fixed : (n : ℕ) → n < 10 ^ 9 → format_09d n ≡ digits_fixed 10 9 n
unfolding format_09d digits_free
format_09d-digits_fixed n h = let e : n / 10 ^ 9 ≡ 0 = omega arith in rw e

-- Every place is a digit 0 to 9 or a letter a to f.
abbrev pub is_digit : ℕ → Bool
is_digit c = (leb b'0' c && leb c b'9') || (leb b'a' c && leb c b'f')

digit_char-is_digit : (d : ℕ) → d < 16 → is_digit (digit_char d) ≡ true
unfolding digit_char
digit_char-is_digit d h = ground arith

pub digits_fixed-hex-Every : (k n : ℕ) → Every is_digit (digits_fixed 16 k n)
unfolding digits_fixed
digits_fixed-hex-Every zero n = tt
digits_fixed-hex-Every (suc k) n =
    Every-append is_digit (digits_fixed 16 k (n / 16)) _ (digits_fixed-hex-Every k (n / 16))
      (digit_char-is_digit (n % 16) (omega arith), tt)

abbrev pub is_decimal : ℕ → Bool
is_decimal c = leb b'0' c && leb c b'9'

digit_char-is_decimal : (d : ℕ) → d < 10 → is_decimal (digit_char d) ≡ true
unfolding digit_char
digit_char-is_decimal d h = ground arith

pub digits_fixed-decimal-Every : (k n : ℕ) → Every is_decimal (digits_fixed 10 k n)
unfolding digits_fixed
digits_fixed-decimal-Every zero n = tt
digits_fixed-decimal-Every (suc k) n =
    Every-append is_decimal (digits_fixed 10 k (n / 10)) _ (digits_fixed-decimal-Every k (n / 10))
      (digit_char-is_decimal (n % 10) (omega arith), tt)

pub digits_free-decimal-Every : (f n : ℕ) → Every is_decimal (digits_free 10 f n)
unfolding digits_free
digits_free-decimal-Every zero n = tt
digits_free-decimal-Every (suc f) n = elim (Bool-cases (n == 0)) [
  | inl z ↦ rw z tt
  | inr z ↦ rw z (
      Every-append is_decimal (digits_free 10 f (n / 10)) _ (digits_free-decimal-Every f (n / 10))
        (digit_char-is_decimal (n % 10) (omega arith), tt))
]
