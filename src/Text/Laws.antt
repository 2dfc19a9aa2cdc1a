-- ===== src/Text/Laws.antt =====
-- Laws of the string functions.
use pod_os_go_client.Prelude.{
  ℕ, zero, suc, ◌≤◌, ◌≡◌, refl, Bool, true, not, ◌==◌, ◌&&◌, Option, none, [], ◌∷◌, ◌++◌, arith,
  leb, Bytes, length,
}
use mathlib.Core.List.{reverse, reverse-reverse, reverse-cons}
use pod_os_go_client.Text.{
  force_ascii, skip_space, skip_space_rev, strip, trim_space, trim_right_nul, skip_nul,
}

-- Every byte satisfies the test.
abbrev pub Every : (ℕ → Bool) → Bytes → Type 0
Every p [] = Unit {0}
Every p (c ∷ s) = (p c ≡ true) × Every p s

abbrev pub is_ascii : ℕ → Bool
is_ascii c = leb c 127

pub Every-append : (p : ℕ → Bool) (s t : Bytes) → Every p s → Every p t → Every p (s ++ t)
Every-append p [] t hs ht = ht
Every-append p (c ∷ s) t hs ht = (hs.0, Every-append p s t hs.1 ht)

pub force_ascii_id : (s : Bytes) → Every is_ascii s → force_ascii s ≡ s
unfolding force_ascii
force_ascii_id [] h = refl
force_ascii_id (c ∷ s) h = ground (arith, force_ascii_id s h.1)

pub force_ascii-append : (s t : Bytes) → force_ascii (s ++ t) ≡ force_ascii s ++ force_ascii t
unfolding force_ascii
force_ascii-append [] t = refl
force_ascii-append (c ∷ s) t = ground (arith, force_ascii-append s t)

pub Every-force_ascii : (s : Bytes) → Every is_ascii (force_ascii s)
unfolding force_ascii
Every-force_ascii [] = tt
Every-force_ascii (c ∷ s) = ground (arith, Every-force_ascii s)

pub force_ascii-length-le : (s : Bytes) → length (force_ascii s) ≤ length s
unfolding force_ascii
force_ascii-length-le [] = omega arith
force_ascii-length-le (c ∷ s) = ground (arith, force_ascii-length-le s)

-- A printable ASCII byte: neither white space nor NUL.
abbrev pub is_graphic : ℕ → Bool
is_graphic c = leb 33 c && leb c 126

strip_stuck : (skip : Bytes → Option Bytes) (n : ℕ) (s : Bytes) → skip s ≡ none → strip skip n s ≡ s
unfolding strip
strip_stuck skip zero s e = refl
strip_stuck skip (suc n) s e = rw (e, strip)

skip_space_graphic : (s : Bytes) → Every is_graphic s → skip_space s ≡ none
unfolding skip_space
skip_space_graphic [] h = refl
skip_space_graphic (a ∷ []) h = ground arith
skip_space_graphic (a ∷ b ∷ []) h = ground arith
skip_space_graphic (a ∷ b ∷ c ∷ s) h = ground arith

pub Every-map :
    (p q : ℕ → Bool) → ((c : ℕ) → p c ≡ true → q c ≡ true) → (s : Bytes) → Every p s → Every q s
Every-map p q f [] h = tt
Every-map p q f (c ∷ s) h = (f c h.0, Every-map p q f s h.1)

Every-reverse : (p : ℕ → Bool) (s : Bytes) → Every p s → Every p (reverse s)
Every-reverse p [] h = tt
Every-reverse p (c ∷ s) h =
    rw (reverse-cons c s) (Every-append p (reverse s) (c ∷ []) (Every-reverse p s h.1) (h.0, tt))

skip_space_rev_graphic : (s : Bytes) → Every is_graphic s → skip_space_rev s ≡ none
unfolding skip_space_rev
skip_space_rev_graphic [] h = refl
skip_space_rev_graphic (a ∷ []) h = ground arith
skip_space_rev_graphic (a ∷ b ∷ []) h = ground arith
skip_space_rev_graphic (a ∷ b ∷ c ∷ s) h = ground arith

skip_nul_graphic : (s : Bytes) → Every is_graphic s → skip_nul s ≡ none
unfolding skip_nul
skip_nul_graphic [] h = refl
skip_nul_graphic (a ∷ s) h = ground arith

-- There is nothing to trim from printable text.
pub trim_space_id : (s : Bytes) → Every is_graphic s → trim_space s ≡ s
unfolding trim_space
trim_space_id s h = rw (strip_stuck skip_space (length s) s (skip_space_graphic s h)) (
    rw
      (strip_stuck skip_space_rev (length s) (reverse s)
        (skip_space_rev_graphic (reverse s) (Every-reverse is_graphic s h)))
      (reverse-reverse s))

pub trim_right_nul_id : (s : Bytes) → Every is_graphic s → trim_right_nul s ≡ s
unfolding trim_right_nul
trim_right_nul_id s h =
    rw
      (strip_stuck skip_nul (length s) (reverse s)
        (skip_nul_graphic (reverse s) (Every-reverse is_graphic s h)))
      (reverse-reverse s)

abbrev pub no_nul : ℕ → Bool
no_nul c = not (c == 0)

skip_nul-none : (s : Bytes) → Every no_nul s → skip_nul s ≡ none
unfolding skip_nul
skip_nul-none [] h = refl
skip_nul-none (a ∷ s) h = ground arith

pub trim_right_nul-no_nul : (s : Bytes) → Every no_nul s → trim_right_nul s ≡ s
unfolding trim_right_nul
trim_right_nul-no_nul s h =
    rw
      (strip_stuck skip_nul (length s) (reverse s)
        (skip_nul-none (reverse s) (Every-reverse no_nul s h)))
      (reverse-reverse s)

-- The same as a test.
abbrev pub every : (ℕ → Bool) → Bytes → Bool
every p [] = true
every p (c ∷ s) = p c && every p s

pub every-Every : (p : ℕ → Bool) (s : Bytes) → every p s ≡ true → Every p s
every-Every p [] e = tt
every-Every p (c ∷ s) e = ground (arith, every-Every p s)
