-- ===== src/Text.antt =====
-- The functions of Go's package `strings` that the sources use, over the bytes of a string:
-- TrimSpace, TrimRight, Split, Cut, Index, HasPrefix, Contains; and `forceASCII` of
-- message/encoder.go.
pub mod Laws
use pod_os_go_client.Prelude.{
  ℕ, zero, suc, ◌+◌, Bool, true, false, ◌&&◌, ◌||◌, Option, none, some, List, [], ◌∷◌, ltb, leb,
  ◌==◌, if◌then◌else◌, Bytes, length,
}
use mathlib.Core.List.{reverse}
use mathlib.Core.Option

-- `forceASCII` keeps the runes up to 127. A byte of 128 or more stands for no such rune: it is
-- part of a longer one, or it decodes to the replacement character; a smaller byte is always a
-- rune of its own.
unfoldable pub force_ascii : Bytes → Bytes
force_ascii [] = []
force_ascii (c ∷ s) = let rest = force_ascii s in if leb c 127 then c ∷ rest else rest

unfoldable pub is_ascii_space : ℕ → Bool
is_ascii_space c = c == 32 || (leb 9 c && leb c 13)

-- One leading white-space rune taken off, `unicode.IsSpace` included beyond ASCII: U+0085, U+00A0,
-- U+1680, U+2000 to U+200A, U+2028, U+2029, U+202F, U+205F, U+3000.
wide_space : ℕ → Bytes → Option Bytes
wide_space a [] = none
wide_space a (b ∷ []) = if a == 0xC2 && (b == 0x85 || b == 0xA0) then some [] else none
wide_space a (b ∷ c ∷ s) =
    if a == 0xC2 && (b == 0x85 || b == 0xA0)
    then some (c ∷ s)
    else if (a == 0xE1 && b == 0x9A && c == 0x80)
        || (a == 0xE2
            && b == 0x80
            && ((leb 0x80 c && leb c 0x8A) || c == 0xA8 || c == 0xA9 || c == 0xAF))
        || (a == 0xE2 && b == 0x81 && c == 0x9F)
        || (a == 0xE3 && b == 0x80 && c == 0x80)
    then some s
    else none

unfoldable pub skip_space : Bytes → Option Bytes
unfolding is_ascii_space wide_space
skip_space [] = none
skip_space (c ∷ s) = if is_ascii_space c then some s else wide_space c s

-- The same at the end of a string, which is given last byte first.
wide_space_rev : ℕ → Bytes → Option Bytes
wide_space_rev c [] = none
wide_space_rev c (b ∷ []) = if b == 0xC2 && (c == 0x85 || c == 0xA0) then some [] else none
wide_space_rev c (b ∷ a ∷ s) =
    if b == 0xC2 && (c == 0x85 || c == 0xA0)
    then some (a ∷ s)
    else if (a == 0xE1 && b == 0x9A && c == 0x80)
        || (a == 0xE2
            && b == 0x80
            && ((leb 0x80 c && leb c 0x8A) || c == 0xA8 || c == 0xA9 || c == 0xAF))
        || (a == 0xE2 && b == 0x81 && c == 0x9F)
        || (a == 0xE3 && b == 0x80 && c == 0x80)
    then some s
    else none

unfoldable pub skip_space_rev : Bytes → Option Bytes
unfolding is_ascii_space wide_space_rev
skip_space_rev [] = none
skip_space_rev (c ∷ s) = if is_ascii_space c then some s else wide_space_rev c s

-- Strips as long as `skip` finds something; every step shortens the text, so its length is fuel
-- enough.
unfoldable pub strip : (Bytes → Option Bytes) → ℕ → Bytes → Bytes
strip skip zero s = s
strip skip (suc f) s = elim (skip s) [ none ↦ s | some r ↦ strip skip f r ]

unfoldable pub trim_space : Bytes → Bytes
unfolding strip skip_space skip_space_rev
trim_space s =
    let left = strip skip_space (length s) s in
    reverse (strip skip_space_rev (length left) (reverse left))

-- `strings.TrimRight(s, "\x00")`
skip_nul : Bytes → Option Bytes
skip_nul [] = none
skip_nul (c ∷ s) = if c == 0 then some s else none

unfoldable pub trim_right_nul : Bytes → Bytes
unfolding strip skip_nul
trim_right_nul s = reverse (strip skip_nul (length s) (reverse s))

unfoldable pub contains_byte : ℕ → Bytes → Bool
contains_byte b [] = false
contains_byte b (c ∷ s) = c == b || contains_byte b s

abbrev pub extend_first : ℕ → List Bytes → List Bytes
extend_first c [] = (c ∷ []) ∷ []
extend_first c (p ∷ ps) = (c ∷ p) ∷ ps

-- `strings.Split` at a one-byte separator
unfoldable pub split : ℕ → Bytes → List Bytes
split sep [] = [] ∷ []
split sep (c ∷ s) = let rest = split sep s in if c == sep then [] ∷ rest else extend_first c rest

-- What stands in front of the first separator, and what stands behind it: `strings.Cut`,
-- `strings.SplitN(s, sep, 2)` and `s[:strings.IndexByte(s, sep)]`.
unfoldable pub before : ℕ → Bytes → Bytes
before sep [] = []
before sep (c ∷ s) = let rest = before sep s in if c == sep then [] else c ∷ rest

unfoldable pub after : ℕ → Bytes → Bytes
after sep [] = []
after sep (c ∷ s) = let rest = after sep s in if c == sep then s else rest

-- `strings.IndexByte`
unfoldable pub index_byte : ℕ → Bytes → Option ℕ
index_byte b [] = none
index_byte b (c ∷ s) = let rest = index_byte b s in if c == b then some 0 else Option.map suc rest

-- `strings.SplitN`, at a one-byte separator
unfoldable pub split_n : ℕ → ℕ → Bytes → List Bytes
unfolding contains_byte before after
split_n sep zero s = []
split_n sep (suc zero) s = s ∷ []
split_n sep (suc (suc n)) s =
    let rest = split_n sep (suc n) (after sep s) in
    if contains_byte sep s then before sep s ∷ rest else s ∷ []

-- `strings.CutPrefix`
unfoldable pub cut_prefix : Bytes → Bytes → Option Bytes
cut_prefix [] s = some s
cut_prefix (p ∷ ps) [] = none
cut_prefix (p ∷ ps) (c ∷ s) = let rest = cut_prefix ps s in if p == c then rest else none

abbrev to_lower : ℕ → ℕ
to_lower c = if leb b'A' c && leb c b'Z' then c + 32 else c

-- `strings.EqualFold` for an ASCII text none of whose letters has a fold beyond ASCII
unfoldable pub equal_fold : Bytes → Bytes → Bool
equal_fold [] [] = true
equal_fold [] (d ∷ t) = false
equal_fold (c ∷ s) [] = false
equal_fold (c ∷ s) (d ∷ t) = to_lower c == to_lower d && equal_fold s t

-- `strings.TrimRight` with one byte
skip_byte : ℕ → Bytes → Option Bytes
skip_byte b [] = none
skip_byte b (c ∷ s) = if c == b then some s else none

unfoldable pub trim_right_byte : ℕ → Bytes → Bytes
unfolding strip skip_byte
trim_right_byte b s = reverse (strip (skip_byte b) (length s) (reverse s))

unfoldable pub has_prefix : Bytes → Bytes → Bool
has_prefix [] s = true
has_prefix (p ∷ ps) [] = false
has_prefix (p ∷ ps) (c ∷ s) = p == c && has_prefix ps s

-- `strings.Index` for a longer pattern
unfoldable pub index : Bytes → Bytes → Option ℕ
unfolding has_prefix
index [] s = some 0
index (p ∷ ps) [] = none
index (p ∷ ps) (c ∷ s) =
    let rest = index (p ∷ ps) s in
    if has_prefix (p ∷ ps) (c ∷ s) then some 0 else Option.map suc rest
