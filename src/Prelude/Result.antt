-- ===== src/Prelude/Result.antt =====
-- What a Go function that may fail leaves behind: a value, an error, or a run-time panic.
use mathlib.Core.Path.{◌≡◌, refl}
use mathlib.Core.Bool.{Bool, true, false}

pub data Result {κ ℓ} (E : Type κ) (V : Type ℓ) : Type (κ ⊔ ℓ) where
  panic : Result E V
  err : E → Result E V
  ok : V → Result E V

-- `if !holds { return reason }`
abbrev pub guard {κ} : {E : Type κ} → (holds : Bool) → (reason : E) → Result E (Unit {0})
guard false reason = err reason
guard true reason = ok tt

-- A step that fails ends the block.
infixl 5 ◌>>=◌ ◌>>◌
abbrev pub ◌>>=◌ {κ ℓ ι} :
    {E : Type κ} {V : Type ℓ} {W : Type ι} → Result E V → (V → Result E W) → Result E W
panic >>= rest = panic
err reason >>= rest = err reason
ok v >>= rest = rest v

abbrev pub ◌>>◌ {κ ι} : {E : Type κ} {W : Type ι} → Result E (Unit {0}) → Result E W → Result E W
first >> second = first >>= λ done. second

pub ok-eq {κ ℓ} : {E : Type κ} {V : Type ℓ} {v w : V} → ◌≡◌ {A = Result E V} (ok v) (ok w) → v ≡ w
ok-eq same = cc

pub guard-eq-ok {κ} :
    {E : Type κ} (holds : Bool) (reason : E) {u : Unit {0}}
    → guard holds reason ≡ ok u
    → holds ≡ true
guard-eq-ok false reason passed = cc
guard-eq-ok true reason passed = refl

-- Of a block that succeeds, the first step has succeeded.
pub >>=-eq-ok {κ ℓ ι} :
    {E : Type κ} {V : Type ℓ} {W : Type ι} (first : Result E V) (rest : V → Result E W) {w : W}
    → (first >>= rest) ≡ ok w
    → (v : V) × (first ≡ ok v) × (rest v ≡ ok w)
>>=-eq-ok panic rest whole = cc
>>=-eq-ok (err reason) rest whole = cc
>>=-eq-ok (ok v) rest whole = (v, refl, whole)
