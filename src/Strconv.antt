-- ===== src/Strconv.antt =====
-- The formats "%08x" and "%09d" of package `fmt`, and `ParseInt` and `Atoi` of package `strconv`.
pub mod Laws
use pod_os_go_client.Prelude.{
  ℕ, zero, suc, ◌+◌, ◌-◌, ◌*◌, ◌/◌, ◌%◌, ◌^◌, Bool, true, false, ◌&&◌, Option, none, some, List, [],
  ◌∷◌, ◌++◌, ltb, leb, ◌==◌, if◌then◌else◌, Bytes, min,
}
use pod_os_go_client.Prelude.Int.{ℤ, pos, neg}

unfoldable pub digit_char : ℕ → ℕ
digit_char d = if ltb d 10 then b'0' + d else b'a' + (d - 10)

-- The last `k` digits, zeros included.
unfoldable pub digits_fixed : ℕ → ℕ → ℕ → Bytes
unfolding digit_char
digits_fixed base zero n = []
digits_fixed base (suc k) n = digits_fixed base k (n / base) ++ digit_char (n % base) ∷ []

-- The digits without leading zeros, none for 0; `f` bounds their number.
unfoldable pub digits_free : ℕ → ℕ → ℕ → Bytes
unfolding digit_char
digits_free base zero n = []
digits_free base (suc f) n =
    let front = digits_free base f (n / base) in
    if n == 0 then [] else front ++ digit_char (n % base) ∷ []

-- `fmt.Sprintf("%08x", n)` for an `int` that is not negative: it has at most 16 digits.
unfoldable pub format_08x : ℕ → Bytes
unfolding digits_fixed digits_free
format_08x n = digits_free 16 8 (n / 16 ^ 8) ++ digits_fixed 16 8 n

-- `fmt.Sprintf("%09d", n)`, of at most 19 digits.
unfoldable pub format_09d : ℕ → Bytes
unfolding digits_fixed digits_free
format_09d n = digits_free 10 10 (n / 10 ^ 9) ++ digits_fixed 10 9 n

unfoldable pub digit_value : ℕ → ℕ → Option ℕ
digit_value base c =
    let d : Option ℕ =
      if leb b'0' c && leb c b'9'
      then some (c - b'0')
      else if leb b'a' c && leb c b'z'
      then some (c - b'a' + 10)
      else if leb b'A' c && leb c b'Z'
      then some (c - b'A' + 10)
      else none in
    elim d [ none ↦ none | some v ↦ if ltb v base then some v else none ]

unfoldable pub parse_digits : ℕ → ℕ → Bytes → Option ℕ
parse_digits base acc [] = some acc
parse_digits base acc (c ∷ s) = elim (digit_value base c) [
  | none ↦ none
  | some d ↦ parse_digits base (acc * base + d) s
]

-- `strconv.ParseUint` for base 10 or 16, before the test of the range
unfoldable pub parse_unsigned : ℕ → Bytes → Option ℕ
unfolding parse_digits digit_value
parse_unsigned base [] = none
parse_unsigned base (c ∷ s) = parse_digits base 0 (c ∷ s)

abbrev below_cutoff : ℕ → Option ℕ → Option ℤ
below_cutoff cutoff none = none
below_cutoff cutoff (some n) = if ltb n cutoff then some (pos n) else none

abbrev below_cutoff_neg : ℕ → Option ℕ → Option ℤ
below_cutoff_neg cutoff none = none
below_cutoff_neg cutoff (some n) = if leb n cutoff then some (neg n) else none

-- `strconv.ParseInt(s, base, bits)` with `cutoff` = 2^(bits-1); `none` is any error. The two kinds
-- of error, syntax and range, are one here.
unfoldable pub parse_int : ℕ → ℕ → Bytes → Option ℤ
unfolding parse_unsigned
parse_int base cutoff [] = none
parse_int base cutoff (c ∷ s) =
    if c == b'+'
    then below_cutoff cutoff (parse_unsigned base s)
    else if c == b'-'
    then below_cutoff_neg cutoff (parse_unsigned base s)
    else below_cutoff cutoff (parse_unsigned base (c ∷ s))

-- `strconv.Atoi`, on a 64-bit `int`
unfoldable pub atoi : Bytes → Option ℤ
unfolding parse_int
atoi = parse_int 10 (2 ^ 63)

-- The digits up to the first that makes the number too large for 64 bits, which is then the largest.
unfoldable pub clamp_digits : ℕ → Bytes → Option ℕ
unfolding digit_value
clamp_digits acc [] = some acc
clamp_digits acc (c ∷ s) = elim (digit_value 10 c) [
  | none ↦ none
  | some d ↦
      let rest = clamp_digits (acc * 10 + d) s in
      if ltb (acc * 10 + d) (2 ^ 64) then rest else some (2 ^ 64 - 1)
]

abbrev clamp : Bool → Option ℕ → ℤ
clamp negative none = pos 0
clamp false (some n) = pos (min n (2 ^ 63 - 1))
clamp true (some n) = neg (min n (2 ^ 63))

abbrev clamp_text : Bool → Bytes → ℤ
clamp_text negative [] = pos 0
clamp_text negative (c ∷ s) = clamp negative (clamp_digits 0 (c ∷ s))

-- The number that `strconv.Atoi` returns beside an error: 0 for what is no number, the nearest
-- `int` for one out of range.
unfoldable pub atoi_error : Bytes → ℤ
unfolding clamp_digits
atoi_error [] = pos 0
atoi_error (c ∷ s) =
    if c == b'+'
    then clamp_text false s
    else if c == b'-'
    then clamp_text true s
    else clamp_text false (c ∷ s)

-- `n, _ := strconv.Atoi(s)`
unfoldable pub atoi_value : Bytes → ℤ
unfolding atoi atoi_error
atoi_value s = elim (atoi s) [ none ↦ atoi_error s | some z ↦ z ]
