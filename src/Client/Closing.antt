-- ===== src/Client/Closing.antt =====
-- When the connection is lost, every channel of the maps is closed, and none twice.
use pod_os_go_client.Prelude.{
  ℕ, ◌≡◌, refl, sym, subst, ap, ◌∙◌, ◌≢◌, Bool, true, false, not, some, [], ◌∷◌, Bytes, some-eq,
}
use pod_os_go_client.Prelude.Result.{ok}
use pod_os_go_client.Client.{
  close_all, put, Call, Client, PendingMap, Store, close_channel, notify_connection_lost,
}
use pod_os_go_client.Client.Invariant.{Distinct, Entries, Entries-put, Fresh, IsEntry, IsWellFormed}
use pod_os_go_client.Client.Protocol.{
  Follows, Moves, Moves-trans, close-Moves, put-Follows, stop, view, view_call,
}
use pod_os_go_client.Client.Preserved.{IsFine, Unused, put-Unused}

-- The store after channels of one kind were closed: what a map of the other kind needs is kept.
abbrev Closed : Bool → Store → Store → Type 0
Closed kind s t =
    Follows s t × Unused s t × ((m : PendingMap) → Entries (not kind) s m → Entries (not kind) t m)

Closed-trans : (kind : Bool) (s t u : Store) → Closed kind s t → Closed kind t u → Closed kind s u
Closed-trans kind s t u (f, n, e) (g, o, h) =
    ((λ i. Moves-trans (f i) (g i)), (λ i free. o i (n i free)), λ m es. h m (e m es))

-- A call of one kind is in no map of the other.
other_kind-Fresh :
    (kind : Bool) (n : ℕ) (k : Call) (s : Store) (m : PendingMap)
    → s n ≡ some k
    → k.raw ≡ kind
    → Entries (not kind) s m
    → Fresh n m
other_kind-Fresh kind n k s [] is r e = tt
other_kind-Fresh kind n k s ((id, j) ∷ m) is r ((l, at_j, i, q, o), e) = (
  (λ same.
      let both : k ≡ l = some-eq (sym is ∙ ap s same ∙ at_j) in
      not_kind kind (sym r ∙ ap (λ c. c.raw) both ∙ q)),
  other_kind-Fresh kind n k s m is r e,
)
  where
    not_kind : (b : Bool) → b ≢ not b
    not_kind true e = cc
    not_kind false e = cc

close_channel-Closed :
    (kind : Bool) (id : Bytes) (n : ℕ) (s : Store) (m : PendingMap)
    → IsEntry kind s id n
    → Fresh n m
    → Entries kind s m
    → (t : Store) × (close_channel n s ≡ ok t) × Closed kind s t × Entries kind t m
unfolding close_channel view
close_channel-Closed kind id n s m (k, is, i, r, still) fresh e =
    let l = record k { closed = true } in
    (
      put n l s,
      rw (is, close_channel) (rw still refl),
      (
        put-Follows n l s
            (subst (λ c. Moves (view c) (view_call l)) (sym is) (close-Moves k still)),
        put-Unused n k l s is,
        λ q es. Entries-put (not kind) n l s q (other_kind-Fresh kind n k s q is r es) es,
      ),
      Entries-put kind n l s m fresh e,
    )

close_all-Closed :
    (kind : Bool) (s : Store) (m : PendingMap)
    → Entries kind s m
    → Distinct m
    → (t : Store) × (close_all m s ≡ ok t) × Closed kind s t
unfolding close_all
close_all-Closed kind s [] e d = (s, refl, ((λ n. stop), (λ n free. free), λ q es. es))
close_all-Closed kind s ((id, n) ∷ m) (en, e) (fresh, d) =
    let (t, is, closed, rest) = close_channel-Closed kind id n s m en fresh e in
    let (u, then_is, closed_rest) = close_all-Closed kind t m rest d in
    (u, rw is then_is, Closed-trans kind s t u closed closed_rest)

pub notify_connection_lost-IsFine :
    (c : Client) → IsWellFormed c → IsFine c.calls (notify_connection_lost c)
unfolding notify_connection_lost
notify_connection_lost-IsFine c w =
    let (t, is, (go, free, keep)) = close_all-Closed false c.calls c.pending w.entries w.distinct in
    let (u, raw_is, (raw_go, raw_free, raw_keep)) =
      close_all-Closed true t c.pending_with_raw (keep c.pending_with_raw w.raw_entries)
        w.raw_distinct in
    rw (is, IsFine)
      (rw (raw_is, IsFine)
        (
          record {
            unused = λ n h. raw_free n (free n (w.unused n h));
            entries = tt;
            raw_entries = tt;
            distinct = tt;
            raw_distinct = tt;
          },
          λ n. Moves-trans (go n) (raw_go n),
        ))
