-- ===== src/EventLoop/Recency/Deletion.antt =====
-- `delayDelete` and `deleteConnection`.
use reactor_network_library.Prelude.{
  ℕ, ◌≡◌, refl, sym, ap, ◌∙◌, inl, inr, false, ◌||◌, none, some, List, [], ◌∷◌, arith, ◌==◌,
  if◌then◌else◌, elem, lookup, erase, lookup-erase, Bool-cases, Option-cases, ==_iff,
}
use reactor_network_library.EventLoop.Recency.{
  Recency, delay_delete, delete_one, delete_each, delete_connection,
}
use reactor_network_library.EventLoop.Recency.Index.{
  fds, place_of, conn_of, IsIndexed, without, elem-no_value, deref-place, Fresh-without,
  Distinct-without, value_of-without, without-absent,
}
use reactor_network_library.EventLoop.Recency.Order.{remove, remove_all, fds-without}

delete_one_lem :
    {s : Recency} (fd : ℕ)
    → IsIndexed s
    → (t : Recency) × (delete_one s fd ≡ some t)
      × IsIndexed t
      × (fds t.lruconnection ≡ remove fd (fds s.lruconnection))
      × ((k : ℕ)
          → conn_of k t.lruconnection ≡ (if fd == k then none else conn_of k s.lruconnection))
unfolding delete_one
delete_one_lem {s} fd v = elim (Option-cases (lookup fd s.connectionmap)) [
  | inl e ↦
      let absent : elem fd (fds s.lruconnection) ≡ false =
        elem-no_value _ fd s.lruconnection (sym (v.index fd) ∙ e) in
      (
        s,
        rw (e, delete_one) refl,
        v,
        sym (ap fds (without-absent fd s.lruconnection absent)) ∙ fds-without fd s.lruconnection,
        λ k.
            ap (conn_of k) (sym (without-absent fd s.lruconnection absent))
            ∙ value_of-without (λ n. n.conn) k fd s.lruconnection v.distinct,
      )
  | inr (p, e) ↦
      let at : place_of fd s.lruconnection ≡ some p = sym (v.index fd) ∙ e in
      let (n, found, is_fd, is_place, cut, below, gone, conn) =
        deref-place fd p s.next_place s.lruconnection v.fresh at in
      (
        record s {
          lruconnection = without fd s.lruconnection;
          connectionmap = erase fd s.connectionmap;
        },
        rw (e, delete_one) (rw (found, delete_one) (rw cut refl)),
        record {
          index = λ k. ground (
            arith,
            v.index k,
            lookup-erase fd k s.connectionmap,
            value_of-without (λ n. n.place) k fd s.lruconnection v.distinct,
          );
          distinct = Distinct-without fd s.lruconnection v.distinct;
          fresh = Fresh-without s.next_place fd s.lruconnection v.fresh;
        },
        fds-without fd s.lruconnection,
        λ k. value_of-without (λ n. n.conn) k fd s.lruconnection v.distinct,
      )
]

delete_each_lem :
    (gone : List ℕ) {s : Recency}
    → IsIndexed s
    → (t : Recency) × (delete_each s gone ≡ some t)
      × IsIndexed t
      × (fds t.lruconnection ≡ remove_all gone (fds s.lruconnection))
      × ((k : ℕ)
          → conn_of k t.lruconnection ≡ (if elem k gone then none else conn_of k s.lruconnection))
unfolding delete_each remove_all
delete_each_lem [] {s} v = (s, refl, v, refl, λ k. refl)
delete_each_lem (fd ∷ gone) {s} v =
    let (t, e, w, f, c) = delete_one_lem fd v in
    let (u, e', w', f', c') = delete_each_lem gone w in
    (u, rw (e, delete_each) e', w', f' ∙ ap (remove_all gone) f, λ k. ground (arith, c k, c' k))

-- `deleteConnection` never uses a dead iterator. It takes the delayed descriptors out of the list
-- and the map, leaves the others in their order, hands each delayed descriptor to the server once,
-- and empties the set.
pub delete_connection_lem :
    {s : Recency}
    → IsIndexed s
    → (t : Recency) × (delete_connection s ≡ some (t, s.delay_delete_connectionfd))
      × IsIndexed t
      × (fds t.lruconnection ≡ remove_all s.delay_delete_connectionfd (fds s.lruconnection))
      × (t.delay_delete_connectionfd ≡ [])
      × ((k : ℕ)
          → conn_of k t.lruconnection
            ≡ (if elem k s.delay_delete_connectionfd then none else conn_of k s.lruconnection))
unfolding delete_connection
delete_connection_lem {s} v =
    let (t, e, w, f, c) = delete_each_lem s.delay_delete_connectionfd v in
    (
      record t { delay_delete_connectionfd = [] },
      rw (e, delete_connection) refl,
      record { index = w.index; distinct = w.distinct; fresh = w.fresh },
      f,
      refl,
      c,
    )

-- `delayDelete` adds to the set, and touches nothing else.
pub delay_delete_lem :
    (s : Recency) (fd : ℕ)
    → ((delay_delete s fd).lruconnection ≡ s.lruconnection)
      × (IsIndexed s → IsIndexed (delay_delete s fd))
      × ((k : ℕ)
          → elem k (delay_delete s fd).delay_delete_connectionfd
            ≡ ((fd == k) || elem k s.delay_delete_connectionfd))
unfolding delay_delete
delay_delete_lem s fd = (
  refl,
  λ v. record { index = v.index; distinct = v.distinct; fresh = v.fresh },
  λ k. elim (Bool-cases (fd == k)) [
    | inl same ↦
        let e : elem fd s.delay_delete_connectionfd ≡ elem k s.delay_delete_connectionfd =
          ap (λ j. elem j s.delay_delete_connectionfd) ((==_iff _ _).0 same) in
        ground arith
    | inr other ↦ ground arith
  ],
)
