-- ===== src/Server/Ownership.antt =====
-- The server's map against the lists of its sub-loops.
use reactor_network_library.Prelude.{
  ℕ, ◌%◌, ◌<◌, ◌≡◌, refl, sym, ap, ◌∙◌, inl, inr, true, false, Option, none, some, List, [], ◌∷◌,
  arith, ◌==◌, if◌then◌else◌, elem, lookup, erase, erase_all, Bool-cases, ==_iff,
}
use reactor_network_library.EventLoop.Recency.{Recency}
use reactor_network_library.EventLoop.Recency.Index.{conn_of, IsIndexed}
use reactor_network_library.EventLoop.Recency.Order.{update_connection_lem}
use reactor_network_library.Server.{Server, Effect, update_loop, call_each, touch}

-- The server's map and the loops' lists hold the same connections: each client in the list of sub-loop
-- `fd % threads`, and in no other.
pub record Agrees (s : Server) : Type 0 where
  pub threads : 0 < s.threadsnums
  pub indexed : (i : ℕ) → IsIndexed (s.psubloop i)
  pub owned :
      (fd : ℕ)
      → conn_of fd (s.psubloop (fd % s.threadsnums)).lruconnection
        ≡ lookup fd s.client_connection_map
  pub elsewhere :
      (i fd : ℕ)
      → (i == fd % s.threadsnums) ≡ false
      → conn_of fd (s.psubloop i).lruconnection ≡ none
  pub local :
      (i fd : ℕ)
      → elem fd (s.psubloop i).delay_delete_connectionfd ≡ true
      → (i == fd % s.threadsnums) ≡ true

-- What a handler does to loop `i` and to the map, as far as `Agrees` sees it.
module _ (s : Server) (i : ℕ) (t : Recency) where
  pub update_loop-IsIndexed :
      ((j : ℕ) → IsIndexed (s.psubloop j))
      → IsIndexed t
      → (j : ℕ) → IsIndexed (update_loop s.psubloop i t j)
  unfolding update_loop
  update_loop-IsIndexed all v j = elim (Bool-cases (i == j)) [
    | inl same ↦ rw same v
    | inr other ↦ rw other (all j)
  ]

  -- One change to the list of loop `i` and to the map, at descriptors of that loop alone.
  pub change-Agrees :
      (change : ℕ → Option ℕ → Option ℕ) (m : List (ℕ × ℕ)) (next : ℕ)
      → Agrees s
      → IsIndexed t
      → ((k : ℕ) → conn_of k t.lruconnection ≡ change k (conn_of k (s.psubloop i).lruconnection))
      → ((k : ℕ) → lookup k m ≡ change k (lookup k s.client_connection_map))
      → ((k : ℕ) (o : Option ℕ) → (i == k % s.threadsnums) ≡ false → change k o ≡ o)
      → ((k : ℕ) → elem k t.delay_delete_connectionfd ≡ true → (i == k % s.threadsnums) ≡ true)
      → Agrees (record s {
        psubloop = update_loop s.psubloop i t;
        client_connection_map = m;
        next_conn = next;
      })
  unfolding update_loop
  change-Agrees change m next a v list clients mine delayed = record {
    threads = a.threads;
    indexed = update_loop-IsIndexed a.indexed v;
    owned = owned;
    elsewhere = elsewhere;
    local = λ j fd h. ground (arith, a.local j fd, delayed fd);
  }
    where
      owned :
          (fd : ℕ)
          → conn_of fd (update_loop s.psubloop i t (fd % s.threadsnums)).lruconnection ≡ lookup fd m
      owned fd = elim (Bool-cases (i == fd % s.threadsnums)) [
        | inl same ↦ rw same (
            list fd
            ∙ ap (change fd) (
                ap (λ j. conn_of fd (s.psubloop j).lruconnection) ((==_iff _ _).0 same)
                ∙ a.owned fd)
            ∙ sym (clients fd))
        | inr other ↦ rw other (a.owned fd ∙ sym (clients fd ∙ mine fd _ other))
      ]

      elsewhere :
          (j fd : ℕ)
          → (j == fd % s.threadsnums) ≡ false
          → conn_of fd (update_loop s.psubloop i t j).lruconnection ≡ none
      elsewhere j fd h = elim (Bool-cases (i == j)) [
        | inl same ↦
            let apart : (i == fd % s.threadsnums) ≡ false = ground arith in
            rw same (list fd ∙ mine fd _ apart ∙ a.elsewhere i fd apart)
        | inr other ↦ rw other (a.elsewhere j fd h)
      ]

  -- The descriptors in `gone`, all of loop `i`, leave both its list and the map.
  pub drop-Agrees :
      (gone : List ℕ) (m : List (ℕ × ℕ))
      → Agrees s
      → IsIndexed t
      → ((k : ℕ)
          → conn_of k t.lruconnection
            ≡ (if elem k gone then none else conn_of k (s.psubloop i).lruconnection))
      → ((k : ℕ) → lookup k m ≡ (if elem k gone then none else lookup k s.client_connection_map))
      → ((k : ℕ) → elem k gone ≡ true → (i == k % s.threadsnums) ≡ true)
      → ((k : ℕ) → elem k t.delay_delete_connectionfd ≡ true → (i == k % s.threadsnums) ≡ true)
      → Agrees (record s { psubloop = update_loop s.psubloop i t; client_connection_map = m })
  drop-Agrees gone m a v list clients mine =
      change-Agrees (λ k o. if elem k gone then none else o) m s.next_conn a v list clients
        (λ k o other. ground (arith, mine k))

pub lookup-call_each :
    (callback : Server → ℕ → Server × List Effect)
    → ((s : Server) (fd : ℕ)
        → (callback s fd).0 ≡ record s { client_connection_map = erase fd s.client_connection_map })
    → (s : Server) (gone : List ℕ)
    → (call_each callback s gone).0
      ≡ record s { client_connection_map = erase_all gone s.client_connection_map }
unfolding call_each erase_all
lookup-call_each callback h s [] = refl
lookup-call_each callback h s (fd ∷ gone) =
    lookup-call_each callback h (callback s fd).0 gone
    ∙ ap
        (λ (u : Server). record u {
          client_connection_map = erase_all gone u.client_connection_map;
        })
        (h s fd)

-- `updateConnection` and `delayDelete` leave the ownership alone.
pub touch-Agrees :
    (s : Server) (i fd : ℕ) → Agrees s → (t : Server) × (touch s i fd ≡ some t) × Agrees t
unfolding touch
touch-Agrees s i fd a =
    let (t, e, v, order, conns, same) = update_connection_lem fd (a.indexed i) in
    (
      record s { psubloop = update_loop s.psubloop i t },
      rw (e, touch) refl,
      drop-Agrees s i t [] s.client_connection_map a v conns (λ k. refl) (λ k h. cc)
          (λ k h. a.local i k (rw (← same) h)),
    )
