-- ===== src/Prelude/Lists.antt =====
-- Lists measured by native numbers, under the library's names; a Go slice of bytes is a `Bytes`.
use Prim.Native.Nat.{ℕ, zero, suc, ◌+◌, ◌-◌, ◌≤◌}
use Prim.Native.Char.{code}
use Prim.Native.String.{String}
use mathlib.Core.Path.{◌≡◌, refl}
use mathlib.Core.Bool.{Bool, true, false, ◌&&◌}
use mathlib.Core.List.{List, [], ◌∷◌, ◌++◌}
use native.Mathlib.Omega.{arith}
use pod_os_go_client.Prelude.Tests.{◌==◌}

abbrev pub Bytes : Type 0
Bytes = List ℕ

-- The bytes of an ASCII literal. `String` has its own `[]` and `∷`.
abbrev pub codes : String → Bytes
codes String.[] = []
codes (String.◌∷◌ c s) = code c ∷ codes s

module _ {ℓ} {A : Type ℓ} where
  abbrev pub length : List A → ℕ
  length [] = 0
  length (x ∷ xs) = suc (length xs)

  abbrev pub take : ℕ → List A → List A
  take zero xs = []
  take (suc n) [] = []
  take (suc n) (x ∷ xs) = x ∷ take n xs

  abbrev pub drop : ℕ → List A → List A
  drop zero xs = xs
  drop (suc n) [] = []
  drop (suc n) (x ∷ xs) = drop n xs

  pub length-append : (xs ys : List A) → length (xs ++ ys) ≡ length xs + length ys
  length-append [] ys = omega arith
  length-append (x ∷ xs) ys = omega (arith, length-append xs ys)

  pub take-append_len : (xs ys : List A) (n : ℕ) → n ≡ length xs → take n (xs ++ ys) ≡ xs
  take-append_len [] ys zero e = refl
  take-append_len [] ys (suc n) e = absurd (omega arith)
  take-append_len (x ∷ xs) ys zero e = absurd (omega arith)
  take-append_len (x ∷ xs) ys (suc n) e = cc (take-append_len xs ys n (omega arith))

  pub drop-append_len : (xs ys : List A) (n : ℕ) → n ≡ length xs → drop n (xs ++ ys) ≡ ys
  drop-append_len [] ys zero e = refl
  drop-append_len [] ys (suc n) e = absurd (omega arith)
  drop-append_len (x ∷ xs) ys zero e = absurd (omega arith)
  drop-append_len (x ∷ xs) ys (suc n) e = drop-append_len xs ys n (omega arith)

  pub take-append-drop : (n : ℕ) (xs : List A) → take n xs ++ drop n xs ≡ xs
  take-append-drop zero xs = refl
  take-append-drop (suc n) [] = refl
  take-append-drop (suc n) (x ∷ xs) = cc (take-append-drop n xs)

  pub length-drop : (n : ℕ) (xs : List A) → length (drop n xs) ≡ length xs - n
  length-drop zero xs = omega arith
  length-drop (suc n) [] = omega arith
  length-drop (suc n) (x ∷ xs) = omega (arith, length-drop n xs)

  pub length-take : (n : ℕ) (xs : List A) → n ≤ length xs → length (take n xs) ≡ n
  length-take zero xs h = refl
  length-take (suc n) [] h = absurd (omega arith)
  length-take (suc n) (x ∷ xs) h = omega (arith, length-take n xs (omega arith))

-- `s[lo:hi]`, for `lo ≤ hi ≤ len(s)`.
abbrev pub slice {ℓ} : {A : Type ℓ} → ℕ → ℕ → List A → List A
slice lo hi xs = take (hi - lo) (drop lo xs)

-- `==` on two strings.
abbrev pub str_eq : Bytes → Bytes → Bool
str_eq [] [] = true
str_eq (x ∷ xs) (y ∷ ys) = (x == y) && str_eq xs ys
str_eq _ _ = false

module _ {ℓ} {A : Type ℓ} where
  drop-append : (n k : ℕ) (xs ys : List A) → length xs ≡ n → drop (n + k) (xs ++ ys) ≡ drop k ys
  drop-append zero k [] ys e = let z : 0 + k ≡ k = omega arith in rw z
  drop-append zero k (x ∷ xs) ys e = absurd (omega arith)
  drop-append (suc n) k [] ys e = absurd (omega arith)
  drop-append (suc n) k (x ∷ xs) ys e =
      let s : suc n + k ≡ suc (n + k) = omega arith in rw s (drop-append n k xs ys (omega arith))

  -- A slice behind a first part of `n` elements.
  pub slice_skip :
      (n lo hi lo' hi' : ℕ) (xs ys : List A)
      → length xs ≡ n
      → lo ≡ n + lo'
      → hi ≡ n + hi'
      → slice lo hi (xs ++ ys) ≡ slice lo' hi' ys
  slice_skip n lo hi lo' hi' xs ys e p q =
      let d : hi - lo ≡ hi' - lo' = omega arith in rw d (rw p (rw (drop-append n lo' xs ys e)))

  -- The slice that is the first part.
  pub slice_first : (hi : ℕ) (xs ys : List A) → length xs ≡ hi → slice 0 hi (xs ++ ys) ≡ xs
  slice_first hi xs ys e = take-append_len xs ys (hi - 0) (omega arith)

  pub take-append_le : (n : ℕ) (xs ys : List A) → n ≤ length xs → take n (xs ++ ys) ≡ take n xs
  take-append_le zero xs ys h = refl
  take-append_le (suc n) [] ys h = absurd (omega arith)
  take-append_le (suc n) (x ∷ xs) ys h = cc (take-append_le n xs ys (omega arith))

pub str_eq-eq : (s t : Bytes) → str_eq s t ≡ true → s ≡ t
str_eq-eq [] [] e = refl
str_eq-eq [] (y ∷ ys) e = cc
str_eq-eq (x ∷ xs) [] e = cc
str_eq-eq (x ∷ xs) (y ∷ ys) e =
    let head : x ≡ y = ground arith in
    let rest : str_eq xs ys ≡ true = ground arith in cc (head, str_eq-eq xs ys rest)

pub str_eq_refl : (s : Bytes) → str_eq s s ≡ true
str_eq_refl [] = refl
str_eq_refl (x ∷ xs) = ground (arith, str_eq_refl xs)
