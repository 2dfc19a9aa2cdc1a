-- ===== src/Client/Invariant.antt =====
-- The pending maps hold open channels of their own kind, each channel once.
use pod_os_go_client.Prelude.{
  ℕ, ◌≤◌, ◌≡◌, refl, sym, subst, ap, ◌∙◌, ◌≢◌, inl, inr, Bool, true, false, none, some, [], ◌∷◌,
  arith, ◌==◌, Bool-cases, Bytes, str_eq, some-eq, str_eq-eq, none_ne_some,
}
use pod_os_go_client.Client.{find, put, Call, Client, PendingMap, Store, remove}

-- An entry's call has the entry's id and the map's kind, and an open channel.
abbrev pub IsEntry : Bool → Store → Bytes → ℕ → Type 0
IsEntry kind s id n =
    (k : Call) × (s n ≡ some k) × (k.id ≡ id) × (k.raw ≡ kind) × (k.closed ≡ false)

abbrev pub Entries : Bool → Store → PendingMap → Type 0
Entries kind s [] = Unit {0}
Entries kind s ((id, n) ∷ m) = IsEntry kind s id n × Entries kind s m

abbrev pub Fresh : ℕ → PendingMap → Type 0
Fresh n [] = Unit {0}
Fresh n ((id, j) ∷ m) = (n ≢ j) × Fresh n m

abbrev pub Distinct : PendingMap → Type 0
Distinct [] = Unit {0}
Distinct ((id, n) ∷ m) = Fresh n m × Distinct m

pub record IsWellFormed (c : Client) : Type 0 where
  pub unused : (n : ℕ) → c.next ≤ n → c.calls n ≡ none
  pub entries : Entries false c.calls c.pending
  pub raw_entries : Entries true c.calls c.pending_with_raw
  pub distinct : Distinct c.pending
  pub raw_distinct : Distinct c.pending_with_raw

-- Every call is kept, with its id, its kind and its channel as open as it was.
abbrev pub Keeps : Store → Store → Type 0
Keeps s t =
    (n : ℕ) (k : Call)
    → s n ≡ some k
    → (l : Call) × (t n ≡ some l) × (l.id ≡ k.id) × (l.raw ≡ k.raw) × (l.closed ≡ k.closed)

pub Entries-Keeps :
    (kind : Bool) (s t : Store) (m : PendingMap) → Keeps s t → Entries kind s m → Entries kind t m
Entries-Keeps kind s t [] h e = tt
Entries-Keeps kind s t ((id, n) ∷ m) h ((k, is, i, r, o), e) =
    let (l, at_n, i2, r2, o2) = h n k is in
    ((l, at_n, i2 ∙ i, r2 ∙ r, o2 ∙ o), Entries-Keeps kind s t m h e)

pub Entries-remove :
    (kind : Bool) (s : Store) (id : Bytes) (m : PendingMap)
    → Entries kind s m
    → Entries kind s (remove id m)
unfolding remove
Entries-remove kind s id [] e = tt
Entries-remove kind s id ((j, n) ∷ m) e = elim (Bool-cases (str_eq j id)) [
  | inl hit ↦ rw hit (Entries-remove kind s id m e.1)
  | inr miss ↦ rw miss (e.0, Entries-remove kind s id m e.1)
]

Fresh-remove : (n : ℕ) (id : Bytes) (m : PendingMap) → Fresh n m → Fresh n (remove id m)
unfolding remove
Fresh-remove n id [] e = tt
Fresh-remove n id ((j, l) ∷ m) e = elim (Bool-cases (str_eq j id)) [
  | inl hit ↦ rw hit (Fresh-remove n id m e.1)
  | inr miss ↦ rw miss (e.0, Fresh-remove n id m e.1)
]

pub Distinct-remove : (id : Bytes) (m : PendingMap) → Distinct m → Distinct (remove id m)
unfolding remove
Distinct-remove id [] e = tt
Distinct-remove id ((j, n) ∷ m) e = elim (Bool-cases (str_eq j id)) [
  | inl hit ↦ rw hit (Distinct-remove id m e.1)
  | inr miss ↦ rw miss (Fresh-remove n id m e.0, Distinct-remove id m e.1)
]

pub put-other : (n m : ℕ) (k : Call) (s : Store) → m ≢ n → put n k s m ≡ s m
put-other n m k s h = let other : (m == n) ≡ false = ground arith in rw other refl

pub put-same : (n : ℕ) (k : Call) (s : Store) → put n k s n ≡ some k
put-same n k s = let same : (n == n) ≡ true = ground arith in rw same refl

-- A new call in an unused place keeps the others.
pub put-unused-Keeps : (n : ℕ) (k : Call) (s : Store) → s n ≡ none → Keeps s (put n k s)
put-unused-Keeps n k s free m l is = elim (Bool-cases (m == n)) [
  | inl same ↦ let e : m ≡ n = ground arith in absurd (none_ne_some (sym free ∙ ap s (sym e) ∙ is))
  | inr miss ↦ (l, rw miss is, refl, refl, refl)
]

-- A call that changes neither its id nor its kind nor whether its channel is closed.
pub put-Keeps :
    (n : ℕ) (k l : Call) (s : Store)
    → s n ≡ some k
    → l.id ≡ k.id
    → l.raw ≡ k.raw
    → l.closed ≡ k.closed
    → Keeps s (put n l s)
put-Keeps n k l s is i r o m j ism = elim (Bool-cases (m == n)) [
  | inl same ↦
      let e : m ≡ n = ground arith in
      let both : k ≡ j = some-eq (sym is ∙ ap s (sym e) ∙ ism) in
      (
        l,
        rw same refl,
        i ∙ ap (λ c. c.id) both,
        r ∙ ap (λ c. c.raw) both,
        o ∙ ap (λ c. c.closed) both,
      )
  | inr miss ↦ (j, rw miss ism, refl, refl, refl)
]

-- No entry is a call that is not there.
pub Entries-Fresh :
    (kind : Bool) (n : ℕ) (s : Store) (m : PendingMap) → s n ≡ none → Entries kind s m → Fresh n m
Entries-Fresh kind n s [] free e = tt
Entries-Fresh kind n s ((id, j) ∷ m) free ((k, is, i, r, o), e) =
    (λ same. none_ne_some (sym free ∙ ap s same ∙ is), Entries-Fresh kind n s m free e)

-- Another call may change in any way.
pub Entries-put :
    (kind : Bool) (n : ℕ) (l : Call) (s : Store) (m : PendingMap)
    → Fresh n m
    → Entries kind s m
    → Entries kind (put n l s) m
Entries-put kind n l s [] f e = tt
Entries-put kind n l s ((id, j) ∷ m) f ((k, is, i, r, o), e) =
    ((k, put-other n j l s (λ same. f.0 (sym same)) ∙ is, i, r, o), Entries-put kind n l s m f.1 e)

-- The number that a map gives is one of its entries.
pub find-IsEntry :
    (kind : Bool) (s : Store) (id : Bytes) (m : PendingMap) {n : ℕ}
    → Entries kind s m
    → find id m ≡ some n
    → IsEntry kind s id n
unfolding find
find-IsEntry kind s id [] e is = cc
find-IsEntry kind s id ((j, l) ∷ m) e is = elim (Bool-cases (str_eq j id)) [
  | inl hit ↦
      subst (IsEntry kind s id) (some-eq (rw hit at is))
        (subst (λ i. IsEntry kind s i l) (str_eq-eq j id hit) e.0)
  | inr miss ↦ find-IsEntry kind s id m e.1 (rw miss at is)
]
