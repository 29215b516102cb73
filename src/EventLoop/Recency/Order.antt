-- ===== src/EventLoop/Recency/Order.antt =====
-- The operations on the descriptors in the order of activity, most recent first.
use reactor_network_library.Prelude.{
  ℕ, ◌+◌, ◌<◌, ◌≡◌, refl, sym, ap, ◌∙◌, inl, inr, false, none, some, List, [], ◌∷◌, arith, ◌==◌,
  if◌then◌else◌, elem, lookup, insert, Distinct, lookup-insert, Bool-cases, Option-cases,
}
use reactor_network_library.EventLoop.Recency.{
  Node, Recency, empty, deref, new_connection, splice_front, update_connection,
}
use reactor_network_library.EventLoop.Recency.Index.{
  fds, value_of, place_of, conn_of, IsIndexed, without, deref-Fresh, Fresh-mono, elem-value,
  elem-no_value, deref-place, Fresh-without, elem-without, Distinct-without, value_of-without,
}

-- The specification: a list of descriptors without repetition.
unfoldable pub remove : ℕ → List ℕ → List ℕ
remove fd [] = []
remove fd (x ∷ xs) = if x == fd then xs else x ∷ remove fd xs

unfoldable pub to_front : ℕ → List ℕ → List ℕ
to_front fd xs = if elem fd xs then fd ∷ remove fd xs else xs

unfoldable pub remove_all : List ℕ → List ℕ → List ℕ
remove_all [] xs = xs
remove_all (fd ∷ gone) xs = remove_all gone (remove fd xs)

pub fds-without : (fd : ℕ) (ns : List Node) → fds (without fd ns) ≡ remove fd (fds ns)
unfolding without remove
fds-without fd [] = refl
fds-without fd (n ∷ ns) = ground (arith, fds-without fd ns)

pub empty-IsIndexed : IsIndexed empty
unfolding lookup value_of
empty-IsIndexed = record { index = λ fd. refl; distinct = tt; fresh = tt }

-- A new connection becomes the most recent one. Its descriptor is not in the list: it was closed
-- since.
pub new_connection_lem :
    {s : Recency} (fd conn : ℕ)
    → IsIndexed s
    → elem fd (fds s.lruconnection) ≡ false
    → IsIndexed (new_connection s fd conn)
      × (fds (new_connection s fd conn).lruconnection ≡ fd ∷ fds s.lruconnection)
      × ((k : ℕ)
          → conn_of k (new_connection s fd conn).lruconnection
            ≡ (if fd == k then some conn else conn_of k s.lruconnection))
      × ((new_connection s fd conn).delay_delete_connectionfd ≡ s.delay_delete_connectionfd)
unfolding new_connection value_of
new_connection_lem {s} fd conn v h = (
  record {
    index = indexed;
    distinct = (h, v.distinct);
    fresh = (
      omega arith,
      deref-Fresh s.next_place s.next_place s.lruconnection v.fresh (omega arith),
      Fresh-mono s.next_place (s.next_place + 1) s.lruconnection (omega arith) v.fresh,
    );
  },
  refl,
  λ k. refl,
  refl,
)
  where
    indexed :
        (k : ℕ)
        → lookup k (insert fd s.next_place s.connectionmap)
          ≡ place_of k (new_connection s fd conn).lruconnection
    indexed k = unfold value_of in rw lookup-insert (ground (arith, v.index k))

moved-IsIndexed :
    {s : Recency} (p : ℕ) (n : Node)
    → IsIndexed s
    → place_of n.fd s.lruconnection ≡ some p
    → n.place ≡ p
    → p < s.next_place
    → deref p (without n.fd s.lruconnection) ≡ none
    → IsIndexed (record s { lruconnection = n ∷ without n.fd s.lruconnection })
unfolding value_of
moved-IsIndexed {s} p n v at e below gone = record {
  index = λ k.
      ground (arith, v.index k, value_of-without (λ n. n.place) k n.fd s.lruconnection v.distinct);
  distinct = (
    ground (arith, elem-without n.fd n.fd s.lruconnection v.distinct),
    Distinct-without n.fd s.lruconnection v.distinct,
  );
  fresh = (omega arith, rw e gone, Fresh-without s.next_place n.fd s.lruconnection v.fresh);
}

moved-conn :
    (k : ℕ) (n : Node) (ns : List Node)
    → Distinct (fds ns)
    → conn_of n.fd ns ≡ some n.conn
    → conn_of k (n ∷ without n.fd ns) ≡ conn_of k ns
unfolding value_of
moved-conn k n ns d e = elim (Bool-cases (n.fd == k)) [
  | inl same ↦ rw same (sym e ∙ ap (λ j. conn_of j ns) (ground arith))
  | inr other ↦ rw other (value_of-without (λ n. n.conn) k n.fd ns d ∙ rw other refl)
]

-- `updateConnection` always finds its node where the map says, and makes the descriptor the most
-- recent one; one that the loop does not hold changes nothing.
pub update_connection_lem :
    {s : Recency} (fd : ℕ)
    → IsIndexed s
    → (t : Recency) × (update_connection s fd ≡ some t)
      × IsIndexed t
      × (fds t.lruconnection ≡ to_front fd (fds s.lruconnection))
      × ((k : ℕ) → conn_of k t.lruconnection ≡ conn_of k s.lruconnection)
      × (t.delay_delete_connectionfd ≡ s.delay_delete_connectionfd)
unfolding update_connection to_front
update_connection_lem {s} fd v = elim (Option-cases (lookup fd s.connectionmap)) [
  | inl e ↦ (
    s,
    rw (e, update_connection) refl,
    v,
    ground (arith, elem-no_value _ fd s.lruconnection (sym (v.index fd) ∙ e)),
    λ k. refl,
    refl,
  )
  | inr (p, e) ↦
      let at : place_of fd s.lruconnection ≡ some p = sym (v.index fd) ∙ e in
      let (n, found, is_fd, is_place, cut, below, gone, conn) =
        deref-place fd p s.next_place s.lruconnection v.fresh at in
      (
        record s { lruconnection = n ∷ without n.fd s.lruconnection },
        rw (e, update_connection) (rw (found, splice_front) (rw (cut, is_fd) refl)),
        moved-IsIndexed p n v (rw is_fd at) is_place below (rw is_fd gone),
        rw is_fd (
            rw (elem-value _ fd p s.lruconnection at)
              (ap (◌∷◌ fd) (fds-without fd s.lruconnection))),
        λ k. moved-conn k n s.lruconnection v.distinct (rw is_fd conn),
        refl,
      )
]
