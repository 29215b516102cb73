-- ===== src/Server/Listed.antt =====
-- A list of a loop whose nodes are in the order of activity, seen through the times of its descriptors.
use reactor_network_library.Prelude.{
  ℕ, ◌≤◌, ◌≡◌, refl, inl, inr, Bool, false, Option, some, List, [], ◌∷◌, arith, ◌==◌, elem,
  Bool-cases, ==_iff, ==_refl, subst, Distinct,
}
use reactor_network_library.EventLoop.Recency.{Node}
use reactor_network_library.EventLoop.Recency.Index.{fds, conn_of, value_of, elem-value}
use reactor_network_library.EventLoop.Recency.Keep.{keep, elem-keep}
use reactor_network_library.EventLoop.Recency.Expiry.{AllBefore, IsRecent, AllLive}
use reactor_network_library.Server.Clock.{Descends}

module _ (last time : ℕ → ℕ) where
  pub Descends-IsRecent :
      (top : ℕ) (ns : List Node)
      → Distinct (fds ns)
      → ((fd conn : ℕ) → conn_of fd ns ≡ some conn → last conn ≡ time fd)
      → Descends time top (fds ns)
      → IsRecent last ns × ((t : ℕ) → top ≤ t → AllBefore last t ns)
  unfolding value_of
  Descends-IsRecent top [] u h d = (tt, λ t q. tt)
  Descends-IsRecent top (n ∷ ns) u h d =
      let own : last n.conn ≡ time n.fd = h n.fd n.conn (rw ==_refl refl) in
      let (recent, before) =
        Descends-IsRecent (time n.fd) ns u.1
          (λ fd conn e. h fd conn (ground (arith, e, elem-value (λ n. n.conn) fd conn ns e))) d.1 in
      (
        (before (last n.conn) (omega (arith, own)), recent),
        λ t q. (omega (arith, own, d.0), before t (omega (arith, d.0))),
      )

  pub AllLive-of_conns :
      (lock : ℕ → Option ℕ) (ns : List Node)
      → Distinct (fds ns)
      → ((fd conn : ℕ) → conn_of fd ns ≡ some conn → lock conn ≡ some (last conn))
      → AllLive last lock ns
  unfolding value_of
  AllLive-of_conns lock [] u h = tt
  AllLive-of_conns lock (n ∷ ns) u h = (
    h n.fd n.conn (rw ==_refl refl),
    AllLive-of_conns lock ns u.1
        (λ fd conn e. h fd conn (ground (arith, e, elem-value (λ n. n.conn) fd conn ns e))),
  )

-- The descriptors of the nodes that pass a test on their Connection.
pub elem-passing :
    (p : Node → Bool) (q : ℕ → Bool) (fd conn : ℕ) (ns : List Node)
    → ((n : Node) → p n ≡ q n.conn)
    → Distinct (fds ns)
    → conn_of fd ns ≡ some conn
    → elem fd (fds (keep p ns)) ≡ q conn
unfolding keep value_of
elem-passing p q fd conn [] same u e = cc
elem-passing p q fd conn (n ∷ ns) same u e = elim (Bool-cases (n.fd == fd)) [
  | inl own ↦
      let at : n.fd ≡ fd = (==_iff _ _).0 own in
      let absent : elem fd (fds ns) ≡ false = subst (λ k. elem k (fds ns) ≡ false) at u.0 in
      ground (arith, e, elem-keep p fd ns absent, same n)
  | inr other ↦ ground (arith, e, elem-passing p q fd conn ns same u.1)
]
