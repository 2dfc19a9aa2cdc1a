-- ===== src/Payload/Order.antt =====
-- `sortTagsByNumber` makes the order in which Go ranges over the header map irrelevant.
use pod_os_go_client.Prelude.{
  ◌≡◌, refl, sym, ap, ◌∙◌, ◌≢◌, true, false, inl, inr, Option, none, some, List, [], ◌∷◌, arith,
  Bool-cases, Bytes, ap₂, subst, Option-cases,
}
use mathlib.Core.List.{Permᴰ}
use mathlib.Core.List.Permᴰ
use pod_os_go_client.Wire.Decoder.{HeaderMap}
use pod_os_go_client.Prelude.Int.{ℤ, pos, negsuc, leb_ℤ}
use pod_os_go_client.Payload.{
  TagOutput, event_tags, insert_tag, parse_event_tag_header, parse_event_tag_headers,
  sort_tags_by_number,
}

leb_ℤ-total : (a b : ℤ) → leb_ℤ a b ≡ false → leb_ℤ b a ≡ true
leb_ℤ-total a b e = ground arith

leb_ℤ-antisym : (a b : ℤ) → leb_ℤ a b ≡ true → leb_ℤ b a ≡ true → a ≡ b
leb_ℤ-antisym (pos a) (pos b) e f = ap pos (ground arith)
leb_ℤ-antisym (pos a) (negsuc b) e f = absurd (ground arith)
leb_ℤ-antisym (negsuc a) (pos b) e f = absurd (ground arith)
leb_ℤ-antisym (negsuc a) (negsuc b) e f = ap negsuc (ground arith)

insert_tag-below :
    (a b : TagOutput) (ts : List TagOutput)
    → leb_ℤ a.tag_number b.tag_number ≡ true
    → leb_ℤ b.tag_number a.tag_number ≡ false
    → insert_tag a (insert_tag b ts) ≡ insert_tag b (insert_tag a ts)
unfolding insert_tag
insert_tag-below a b [] e f = ground arith
insert_tag-below a b (u ∷ us) e f = ground (arith, insert_tag-below a b us e f)

insert_tag-swap :
    (a b : TagOutput) (ts : List TagOutput)
    → a.tag_number ≢ b.tag_number
    → insert_tag a (insert_tag b ts) ≡ insert_tag b (insert_tag a ts)
insert_tag-swap a b ts apart = elim (Bool-cases (leb_ℤ a.tag_number b.tag_number)) [
  | inr above ↦ sym (insert_tag-below b a ts (leb_ℤ-total a.tag_number b.tag_number above) above)
  | inl below ↦ elim (Bool-cases (leb_ℤ b.tag_number a.tag_number)) [
    | inl above ↦ absurd (apart (leb_ℤ-antisym a.tag_number b.tag_number below above))
    | inr strict ↦ insert_tag-below a b ts below strict
  ]
]

abbrev pub ApartFrom : TagOutput → List TagOutput → Type 0
ApartFrom t [] = Unit {0}
ApartFrom t (u ∷ us) = (t.tag_number ≢ u.tag_number) × ApartFrom t us

-- No two tags have the same number.
abbrev pub AllApart : List TagOutput → Type 0
AllApart [] = Unit {0}
AllApart (t ∷ ts) = ApartFrom t ts × AllApart ts

ApartFrom-Permᴰ :
    {ts us : List TagOutput} (t : TagOutput) → Permᴰ ts us → ApartFrom t ts → ApartFrom t us
ApartFrom-Permᴰ t Permᴰ.nil h = tt
ApartFrom-Permᴰ t (Permᴰ.cons e p) h =
    (subst (λ u. t.tag_number ≢ u.tag_number) e h.0, ApartFrom-Permᴰ t p h.1)
ApartFrom-Permᴰ t (Permᴰ.swap e f) (h, (g, rest)) = (
  subst (λ u. t.tag_number ≢ u.tag_number) f g,
  (subst (λ u. t.tag_number ≢ u.tag_number) e h, rest),
)
ApartFrom-Permᴰ t (Permᴰ.trans p q) h = ApartFrom-Permᴰ t q (ApartFrom-Permᴰ t p h)

AllApart-Permᴰ : {ts us : List TagOutput} → Permᴰ ts us → AllApart ts → AllApart us
AllApart-Permᴰ Permᴰ.nil h = tt
AllApart-Permᴰ (Permᴰ.cons {a = a} {l₂ = l₂} e p) h =
    (subst (λ u. ApartFrom u l₂) e (ApartFrom-Permᴰ a p h.0), AllApart-Permᴰ p h.1)
AllApart-Permᴰ (Permᴰ.swap {l = l} e f) ((n, ha), (hb, rest)) = (
  ((
    λ same. n (ap (λ u. u.tag_number) e ∙ sym same ∙ sym (ap (λ u. u.tag_number) f)),
    subst (λ u. ApartFrom u l) f hb,
  )),
  (subst (λ u. ApartFrom u l) e ha, rest),
)
AllApart-Permᴰ (Permᴰ.trans p q) h = AllApart-Permᴰ q (AllApart-Permᴰ p h)

sort_tags_by_number-Permᴰ :
    {ts us : List TagOutput}
    → Permᴰ ts us
    → AllApart ts
    → sort_tags_by_number ts ≡ sort_tags_by_number us
unfolding sort_tags_by_number
sort_tags_by_number-Permᴰ Permᴰ.nil h = refl
sort_tags_by_number-Permᴰ (Permᴰ.cons e p) h = ap₂ insert_tag e (sort_tags_by_number-Permᴰ p h.1)
sort_tags_by_number-Permᴰ (Permᴰ.swap {a = a} {b = b} {l = l} e f) h =
    insert_tag-swap a b (sort_tags_by_number l) h.0.0
    ∙ ap₂ (λ u v. insert_tag u (insert_tag v (sort_tags_by_number l))) f e
sort_tags_by_number-Permᴰ (Permᴰ.trans p q) h =
    sort_tags_by_number-Permᴰ p h ∙ sort_tags_by_number-Permᴰ q (AllApart-Permᴰ p h)

-- The tags of one entry more.
abbrev with_tag : Option TagOutput → List TagOutput → List TagOutput
with_tag none ts = ts
with_tag (some t) ts = t ∷ ts

abbrev tag_of : Bytes × Bytes → Option TagOutput
tag_of (k, v) = parse_event_tag_header k v

event_tags-cons :
    (e : Bytes × Bytes) (es : HeaderMap) → event_tags (e ∷ es) ≡ with_tag (tag_of e) (event_tags es)
unfolding event_tags
event_tags-cons (k, v) es = elim (Option-cases (parse_event_tag_header k v)) [
  | inl nothing ↦ rw nothing refl
  | inr (t, is) ↦ rw is refl
]

with_tag-Permᴰ :
    (o : Option TagOutput) {ts us : List TagOutput}
    → Permᴰ ts us
    → Permᴰ (with_tag o ts) (with_tag o us)
with_tag-Permᴰ none p = p
with_tag-Permᴰ (some t) p = Permᴰ.cons refl p

with_tag-swap :
    (o q : Option TagOutput) (ts : List TagOutput)
    → Permᴰ (with_tag o (with_tag q ts)) (with_tag q (with_tag o ts))
with_tag-swap none q ts = Permᴰ.refl _
with_tag-swap (some t) none ts = Permᴰ.refl _
with_tag-swap (some t) (some u) ts = Permᴰ.swap refl refl

Permᴰ-between : {ts ts' us us' : List TagOutput} → ts ≡ ts' → us ≡ us' → Permᴰ ts' us' → Permᴰ ts us
Permᴰ-between {ts} {us' = us'} e f p =
    subst (λ l. Permᴰ ts l) (sym f) (subst (λ l. Permᴰ l us') (sym e) p)

event_tags-Permᴰ : {es fs : HeaderMap} → Permᴰ es fs → Permᴰ (event_tags es) (event_tags fs)
event_tags-Permᴰ Permᴰ.nil = Permᴰ.refl _
event_tags-Permᴰ (Permᴰ.cons {a = a} {b = b} {l₁ = es} {l₂ = fs} e p) =
    Permᴰ-between (event_tags-cons a es)
      (event_tags-cons b fs ∙ ap (λ c. with_tag (tag_of c) (event_tags fs)) (sym e))
      (with_tag-Permᴰ (tag_of a) (event_tags-Permᴰ p))
event_tags-Permᴰ (Permᴰ.swap {a = a} {b = b} {a' = a'} {b' = b'} {l = l} e f) =
    let two : (c d : Bytes × Bytes)
        → event_tags (c ∷ d ∷ l) ≡ with_tag (tag_of c) (with_tag (tag_of d) (event_tags l)) =
      λ c d. event_tags-cons c (d ∷ l) ∙ ap (with_tag (tag_of c)) (event_tags-cons d l) in
    Permᴰ-between (two a b)
      (two a' b'
        ∙ ap₂ (λ c d. with_tag (tag_of c) (with_tag (tag_of d) (event_tags l))) (sym f) (sym e))
      (with_tag-swap (tag_of a) (tag_of b) (event_tags l))
event_tags-Permᴰ (Permᴰ.trans p q) = Permᴰ.trans (event_tags-Permᴰ p) (event_tags-Permᴰ q)

-- The tags of a GetEvent reply do not depend on the order in which Go ranges over the header map, when
-- no two of them have the same number.
pub parse_event_tag_headers-Permᴰ :
    {es fs : HeaderMap}
    → Permᴰ es fs
    → AllApart (event_tags es)
    → parse_event_tag_headers es ≡ parse_event_tag_headers fs
unfolding parse_event_tag_headers
parse_event_tag_headers-Permᴰ p h = sort_tags_by_number-Permᴰ (event_tags-Permᴰ p) h
