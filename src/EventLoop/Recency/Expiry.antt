-- ===== src/EventLoop/Recency/Expiry.antt =====
-- `removeTimeOutConnection`: which connections leave the list, and in what order the server hears of
-- them.
use mathlib.Core.List.{reverse-cons, reverse-reverse}
use reactor_network_library.Prelude.{
  ℕ, ◌+◌, ◌≤◌, ◌<◌, ◌≡◌, refl, sym, ap, ◌∙◌, inl, inr, Bool, false, not, Option, some, List, [],
  ◌∷◌, ◌++◌, reverse, arith, erase, erase_all, lookup-erase_all, Bool-cases, subst,
}
use reactor_network_library.EventLoop.Recency.{
  Node, Recency, is_timeout, expire, remove_timeout_connection,
}
use reactor_network_library.EventLoop.Recency.Keep.{
  keep, keep-reverse, elem-reverse, fds-reverse, keep-IsIndexed,
}
use reactor_network_library.EventLoop.Recency.Index.{fds, IsIndexed}

module _ (last : ℕ → ℕ) where
  -- From the back: every connection was last active before those that follow.
  abbrev AllAfter : ℕ → List Node → Type 0
  AllAfter t [] = Unit {0}
  AllAfter t (n ∷ ns) = (t ≤ last n.conn) × AllAfter t ns

  abbrev Ascending : List Node → Type 0
  Ascending [] = Unit {0}
  Ascending (n ∷ ns) = AllAfter (last n.conn) ns × Ascending ns

  abbrev pub AllBefore : ℕ → List Node → Type 0
  AllBefore t [] = Unit {0}
  AllBefore t (n ∷ ns) = (last n.conn ≤ t) × AllBefore t ns

  -- From the front: the most recent first.
  abbrev pub IsRecent : List Node → Type 0
  IsRecent [] = Unit {0}
  IsRecent (n ∷ ns) = AllBefore (last n.conn) ns × IsRecent ns

  AllAfter-snoc :
      (t : ℕ) (ns : List Node) (n : Node)
      → AllAfter t ns
      → t ≤ last n.conn
      → AllAfter t (ns ++ n ∷ [])
  AllAfter-snoc t [] n a h = (h, tt)
  AllAfter-snoc t (x ∷ ns) n a h = (a.0, AllAfter-snoc t ns n a.1 h)

  Ascending-snoc :
      (ns : List Node) (n : Node)
      → Ascending ns
      → AllBefore (last n.conn) ns
      → Ascending (ns ++ n ∷ [])
  Ascending-snoc [] n a b = (tt, tt)
  Ascending-snoc (x ∷ ns) n a b =
      (AllAfter-snoc (last x.conn) ns n a.0 b.0, Ascending-snoc ns n a.1 b.1)

  AllBefore-append :
      (t : ℕ) (xs ys : List Node) → AllBefore t xs → AllBefore t ys → AllBefore t (xs ++ ys)
  AllBefore-append t [] ys a b = b
  AllBefore-append t (x ∷ xs) ys a b = (a.0, AllBefore-append t xs ys a.1 b)

  AllBefore-reverse : (t : ℕ) (ns : List Node) → AllBefore t ns → AllBefore t (reverse ns)
  AllBefore-reverse t [] a = tt
  AllBefore-reverse t (n ∷ ns) a =
      rw reverse-cons
        (AllBefore-append t (reverse ns) (n ∷ []) (AllBefore-reverse t ns a.1) (a.0, tt))

  Ascending-reverse : (ns : List Node) → IsRecent ns → Ascending (reverse ns)
  Ascending-reverse [] r = tt
  Ascending-reverse (n ∷ ns) r =
      rw reverse-cons
        (Ascending-snoc (reverse ns) n (Ascending-reverse ns r.1) (AllBefore-reverse _ ns r.0))

  -- Every connection in the list still exists.
  abbrev pub AllLive : (ℕ → Option ℕ) → List Node → Type 0
  AllLive lock [] = Unit {0}
  AllLive lock (n ∷ ns) = (lock n.conn ≡ some (last n.conn)) × AllLive lock ns

  AllLive-append :
      (lock : ℕ → Option ℕ) (xs ys : List Node)
      → AllLive lock xs
      → AllLive lock ys
      → AllLive lock (xs ++ ys)
  AllLive-append lock [] ys a b = b
  AllLive-append lock (x ∷ xs) ys a b = (a.0, AllLive-append lock xs ys a.1 b)

  AllLive-reverse :
      (lock : ℕ → Option ℕ) (ns : List Node) → AllLive lock ns → AllLive lock (reverse ns)
  AllLive-reverse lock [] a = tt
  AllLive-reverse lock (n ∷ ns) a =
      rw reverse-cons
        (AllLive-append lock (reverse ns) (n ∷ []) (AllLive-reverse lock ns a.1) (a.0, tt))

  module _ (now interval : ℕ) where
    unfoldable pub stale : Node → Bool
    stale n = is_timeout now (last n.conn) interval

    keep-stale_after :
        (t : ℕ) (ns : List Node) → AllAfter t ns → now < t + interval → keep stale ns ≡ []
    unfolding keep stale is_timeout
    keep-stale_after t [] a h = refl
    keep-stale_after t (n ∷ ns) a h = ground (arith, keep-stale_after t ns a.1 h)

    keep-active_after :
        (t : ℕ) (ns : List Node)
        → AllAfter t ns
        → now < t + interval
        → keep (λ n. not (stale n)) ns ≡ ns
    unfolding keep stale is_timeout
    keep-active_after t [] a h = refl
    keep-active_after t (n ∷ ns) a h = ground (arith, keep-active_after t ns a.1 h)

    not_stale : (n : Node) → stale n ≡ false → now < last n.conn + interval
    unfolding stale is_timeout
    not_stale n h = ground arith

    kept :
        (ns : List Node)
        → reverse (keep (λ n. not (stale n)) (reverse ns)) ≡ keep (λ n. not (stale n)) ns
    kept ns = rw keep-reverse (reverse-reverse _)

    gone_order : (ns : List Node) → fds (keep stale (reverse ns)) ≡ reverse (fds (keep stale ns))
    gone_order ns = ap fds (keep-reverse stale ns) ∙ fds-reverse (keep stale ns)

    expire_lem :
        (lock : ℕ → Option ℕ) (ns : List Node) (m : List (ℕ × ℕ))
        → Ascending ns
        → AllLive lock ns
        → expire lock now interval ns m
          ≡ (keep (λ n. not (stale n)) ns, erase_all (fds (keep stale ns)) m, fds (keep stale ns))
    unfolding expire keep erase_all stale
    expire_lem lock [] m a l = refl
    expire_lem lock (n ∷ ns) m a l = elim (Bool-cases (stale n)) [
      | inl old ↦
          rw (l.0, expire)
            (rw old (ap (λ r. (r.0, r.1, n.fd ∷ r.2)) (expire_lem lock ns (erase n.fd m) a.1 l.1)))
      | inr recent ↦
          rw (l.0, expire)
            (rw recent (
              rw (
                keep-stale_after (last n.conn) ns a.0 (not_stale n recent),
                keep-active_after (last n.conn) ns a.0 (not_stale n recent),
              )))
    ]

    -- With the list in the order of activity, and every connection in it alive, exactly those that
    -- have been idle for the interval leave the list and the map; the others stay in their order.
    -- The server is told of those that leave, the longest idle first.
    pub remove_timeout_connection_lem :
        (lock : ℕ → Option ℕ) (s : Recency)
        → IsIndexed s
        → IsRecent s.lruconnection
        → AllLive lock s.lruconnection
        → let (t, gone) = remove_timeout_connection lock now interval s in
          (t.lruconnection ≡ keep (λ n. not (stale n)) s.lruconnection)
          × (gone ≡ reverse (fds (keep stale s.lruconnection)))
          × IsIndexed t
    unfolding remove_timeout_connection
    remove_timeout_connection_lem lock s v r l =
        rw
          (expire_lem lock (reverse s.lruconnection) s.connectionmap
            (Ascending-reverse s.lruconnection r) (AllLive-reverse lock s.lruconnection l))
          (
            kept s.lruconnection,
            gone_order s.lruconnection,
            subst
                (λ ns. IsIndexed (record s {
                  lruconnection = ns;
                  connectionmap =
                      erase_all (fds (keep stale (reverse s.lruconnection))) s.connectionmap;
                }))
                (sym (kept s.lruconnection))
                (keep-IsIndexed stale _ v
                  (λ k. rw (lookup-erase_all, gone_order s.lruconnection, elem-reverse k) refl)),
          )
