-- ===== src/Client/Preserved.antt =====
-- Every event keeps the invariant, follows the protocol, and panics never.
use pod_os_go_client.Prelude.{
  ℕ, suc, ◌≤◌, ◌≡◌, refl, sym, subst, ap, ◌∙◌, inl, inr, Bool, true, false, none, some, ◌∷◌, arith,
  Option-cases, Bytes, none_ne_some,
}
use pod_os_go_client.Prelude.Result.{Result, ok, err, panic, ◌>>=◌}
use pod_os_go_client.Client.{
  Reply, PendingMap, find, remove, route, send_to, put, Call, Client, Disabled, Store, new_call,
  register_call,
}
use pod_os_go_client.Client.Invariant.{
  Distinct, Distinct-remove, Entries, Entries-Fresh, Entries-remove, IsEntry, find-IsEntry,
  put-same, Entries-Keeps, IsWellFormed, Keeps, put-Keeps, put-other, put-unused-Keeps,
}
use pod_os_go_client.Client.Protocol.{
  send-Moves, waiting, Follows, Moves, begin, more, put-Follows, stop, view, view_call,
}

abbrev pub Unused : Store → Store → Type 0
Unused s t = (m : ℕ) → s m ≡ none → t m ≡ none

-- A change of the store that no map notices.
abbrev pub Calm : Store → Store → Type 0
Calm s t = Keeps s t × Follows s t × Unused s t

pub put-Unused : (n : ℕ) (k l : Call) (s : Store) → s n ≡ some k → Unused s (put n l s)
put-Unused n k l s is m free =
    put-other n m l s (λ same. none_ne_some (sym free ∙ ap s same ∙ is)) ∙ free

pub put-Calm :
    (n : ℕ) (k l : Call) (s : Store)
    → s n ≡ some k
    → l.id ≡ k.id
    → l.raw ≡ k.raw
    → l.closed ≡ k.closed
    → Moves (view_call k) (view_call l)
    → Calm s (put n l s)
unfolding view
put-Calm n k l s is i r o go = (
  put-Keeps n k l s is i r o,
  put-Follows n l s (subst (λ c. Moves (view c) (view_call l)) (sym is) go),
  put-Unused n k l s is,
)

pub Calm-IsWellFormed :
    (c : Client) (t : Store)
    → IsWellFormed c
    → Calm c.calls t
    → IsWellFormed (record c { calls = t })
Calm-IsWellFormed c t w (keeps, go, free) = record {
  unused = λ n h. free n (w.unused n h);
  entries = Entries-Keeps false c.calls t c.pending keeps w.entries;
  raw_entries = Entries-Keeps true c.calls t c.pending_with_raw keeps w.raw_entries;
  distinct = w.distinct;
  raw_distinct = w.raw_distinct;
}

-- No panic, and a new state that is well formed and follows the protocol.
abbrev pub IsFine : Store → Result Disabled Client → Type 0
IsFine s panic = ⊥
IsFine s (err why) = Unit {0}
IsFine s (ok d) = IsWellFormed d × Follows s d.calls

-- Registering

abbrev registered : Bytes → Bool → Client → Store
registered id raw c = put c.next (new_call id raw) c.calls

register-Keeps :
    (id : Bytes) (raw : Bool) (c : Client) → IsWellFormed c → Keeps c.calls (registered id raw c)
register-Keeps id raw c w =
    put-unused-Keeps c.next (new_call id raw) c.calls (w.unused c.next (omega arith))

register-Follows :
    (id : Bytes) (raw : Bool) (c : Client) → IsWellFormed c → Follows c.calls (registered id raw c)
unfolding view view_call
register-Follows id raw c w =
    let free : c.calls c.next ≡ none = w.unused c.next (omega arith) in
    put-Follows c.next (new_call id raw) c.calls
      (subst (λ o. Moves (view o) (waiting id)) (sym free) (more stop (begin id)))

register-unused :
    (id : Bytes) (raw : Bool) (c : Client)
    → IsWellFormed c
    → (n : ℕ) → suc c.next ≤ n
    → registered id raw c n ≡ none
register-unused id raw c w n h =
    put-other c.next n (new_call id raw) c.calls (λ same. absurd (omega arith))
    ∙ w.unused n (omega arith)

-- The map that gets the new entry.
new_entry :
    (kind : Bool) (id : Bytes) (c : Client) (m : PendingMap)
    → IsWellFormed c
    → Entries kind c.calls m
    → Distinct m
    → Entries kind (registered id kind c) ((id, c.next) ∷ remove id m)
      × Distinct ((id, c.next) ∷ remove id m)
new_entry kind id c m w e d =
    let rest = Entries-remove kind c.calls id m e in
    (
      (
        (new_call id kind, put-same c.next (new_call id kind) c.calls, refl, refl, refl),
        Entries-Keeps kind c.calls (registered id kind c) (remove id m) (register-Keeps id kind c w)
            rest,
      ),
      (
        Entries-Fresh kind c.next c.calls (remove id m) (w.unused c.next (omega arith)) rest,
        Distinct-remove id m d,
      ),
    )

pub register-IsFine :
    (id : Bytes) (raw : Bool) (c : Client)
    → IsWellFormed c
    → IsFine c.calls (ok (register_call id raw c))
unfolding register_call
register-IsFine id true c w =
    let (entries, distinct) =
      new_entry true id c c.pending_with_raw w w.raw_entries w.raw_distinct in
    (
      record {
        unused = register-unused id true c w;
        entries =
            Entries-Keeps false c.calls (registered id true c) c.pending
              (register-Keeps id true c w) w.entries;
        raw_entries = entries;
        distinct = w.distinct;
        raw_distinct = distinct;
      },
      register-Follows id true c w,
    )
register-IsFine id false c w =
    let (entries, distinct) = new_entry false id c c.pending w w.entries w.distinct in
    (
      record {
        unused = register-unused id false c w;
        entries = entries;
        raw_entries =
            Entries-Keeps true c.calls (registered id false c) c.pending_with_raw
              (register-Keeps id false c w) w.raw_entries;
        distinct = distinct;
        raw_distinct = w.raw_distinct;
      },
      register-Follows id false c w,
    )

-- Routing

send_to-Calm :
    (kind : Bool) (n : ℕ) (r : Reply) (s : Store)
    → IsEntry kind s r.message_id n
    → (t : Store) × (send_to n r s ≡ ok t) × Calm s t
unfolding send_to
send_to-Calm kind n r s (k, is, same, kd, still) = elim (Option-cases k.buffer) [
  | inr (old, full) ↦ (
    s,
    rw (is, send_to) (rw still (rw full refl)),
    ((λ m l at_m. (l, at_m, refl, refl, refl)), (λ m. stop), λ m free. free),
  )
  | inl empty ↦
      let l = record k { buffer = some r } in
      (
        put n l s,
        simp (is, still, empty, send_to),
        put-Calm n k l s is refl refl refl (send-Moves k r still empty (sym same)),
      )
]

sent-IsFine :
    (kind : Bool) (n : ℕ) (r : Reply) (c : Client)
    → IsWellFormed c
    → IsEntry kind c.calls r.message_id n
    → IsFine c.calls (send_to n r c.calls >>= λ calls. ok (record c { calls = calls }))
sent-IsFine kind n r c w e =
    let (t, is, calm) = send_to-Calm kind n r c.calls e in
    rw is (Calm-IsWellFormed c t w calm, calm.1)

pub route-IsFine : (r : Reply) (c : Client) → IsWellFormed c → IsFine c.calls (route r c)
unfolding route
route-IsFine r c w = elim (Option-cases (find r.message_id c.pending_with_raw)) [
  | inr (n, is) ↦
      rw (is, IsFine)
        (sent-IsFine true n r c w (find-IsEntry true c.calls _ c.pending_with_raw w.raw_entries is))
  | inl no_raw ↦ elim (Option-cases (find r.message_id c.pending)) [
    | inr (n, is) ↦
        rw (no_raw, is, IsFine)
          (sent-IsFine false n r c w (find-IsEntry false c.calls _ c.pending w.entries is))
    | inl nobody ↦ rw (no_raw, nobody, IsFine) (w, λ n. stop)
  ]
]
