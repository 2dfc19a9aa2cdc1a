-- ===== src/Validate/Address.antt =====
-- The two tests of an address: `isNameAtGateway` of message/validate.go, and the guards of
-- `EncodeMessage`.
use pod_os_go_client.Prelude.{
  ℕ, ◌+◌, ◌-◌, ltb, ◌≡◌, refl, ◌≢◌, ◌↔◌, ◌⊎◌, inl, inr, true, false, not, ◌&&◌, none, some, [], ◌∷◌,
  arith, ◌==◌, Bool-cases, Bytes, length,
}
use pod_os_go_client.Prelude.Result.{ok, guard, ◌>>◌}
use pod_os_go_client.Text.{after, before, contains_byte, index_byte}
use pod_os_go_client.Wire.Encoder.{
  check_from, check_to, invalid_actor_name, invalid_gateway_name, is_empty,
}
use pod_os_go_client.Validate.Report.{is_name_at_gateway}

-- What the first occurrence of a byte says of a text.
record IsSplit (b : ℕ) (s : Bytes) : Type 0 where
  contained : contains_byte b s ≡ true
  found : index_byte b s ≡ some (length (before b s))
  whole : length s ≡ length (before b s) + 1 + length (after b s)

IsSplit-cases :
    (b : ℕ) (s : Bytes) → (contains_byte b s ≡ false) × (index_byte b s ≡ none) ⊎ IsSplit b s
unfolding contains_byte index_byte before after
IsSplit-cases b [] = inl (refl, refl)
IsSplit-cases b (c ∷ s) = elim (Bool-cases (c == b)) [
  | inl hit ↦
      inr (record { contained = rw hit refl; found = rw hit refl; whole = rw hit (omega arith) })
  | inr miss ↦ elim (IsSplit-cases b s) [
    | inl (absent, nowhere) ↦ inl (rw miss absent, rw miss (rw nowhere refl))
    | inr i ↦ inr (record {
      contained = rw miss i.contained;
      found = rw miss (rw i.found refl);
      whole = rw miss (omega (arith, i.whole));
    })
  ]
]

before-nil : (b : ℕ) → before b [] ≡ []
unfolding before
before-nil b = refl

-- The tests on the parts `p` and `q` of a text of length `n`, where `r` is the front of `q`.
parts_iff :
    (p q r : Bytes) (n : ℕ)
    → n ≡ length p + 1 + length q
    → (q ≡ [] → r ≡ [])
    → ((guard (not (is_empty p)) invalid_actor_name
          >> guard (not (is_empty r)) invalid_gateway_name)
        ≡ ok tt)
      ↔ (((ltb 0 (length p) && ltb (length p) (n - 1)) ≡ true) × (r ≢ []))
parts_iff [] q r n e h = ((λ d. cc), λ d. ground arith)
parts_iff (c ∷ p) q [] n e h = ((λ d. cc), λ d. absurd (d.1 refl))
parts_iff (c ∷ p) [] (a ∷ r) n e h = ((λ d. ground (arith, h refl)), λ d. refl)
parts_iff (c ∷ p) (b ∷ q) (a ∷ r) n e h = ((λ d. (ground arith, λ f. cc)), λ d. refl)

-- An address of the form name@gateway, where no second `@` follows the first at once.
abbrev pub IsAddress : Bytes → Type 0
IsAddress s = (is_name_at_gateway s ≡ true) × (before b'@' (after b'@' s) ≢ [])

-- `EncodeMessage` takes a To address exactly when `Validate` finds it of the form name@gateway and no
-- second `@` follows the first at once.
pub check_to-is_name_at_gateway : (s : Bytes) → (check_to s ≡ ok tt) ↔ IsAddress s
unfolding check_to is_name_at_gateway
check_to-is_name_at_gateway s = elim (IsSplit-cases b'@' s) [
  | inl (absent, nowhere) ↦ rw absent (rw (nowhere, is_name_at_gateway) ((λ d. cc), λ d. cc (d.0)))
  | inr i ↦ rw i.contained (
      rw (i.found, is_name_at_gateway)
        (parts_iff (before b'@' s) (after b'@' s) (before b'@' (after b'@' s)) (length s) i.whole
          (λ e. rw e (before-nil b'@'))))
]

-- The guards on a From address hold where those on a To address do.
pub check_from-check_to : (s : Bytes) → check_to s ≡ ok tt → check_from s ≡ ok tt
unfolding check_to check_from contains_byte
check_from-check_to [] e = cc
check_from-check_to (c ∷ s) e = ground arith
