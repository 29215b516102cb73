-- ===== src/Server/Rounds.antt =====
-- The handlers of the server one by one, against the ownership.
use reactor_network_library.Prelude.{
  ℕ, ◌+◌, ◌%◌, ◌≡◌, refl, sym, ap, ◌∙◌, inl, inr, Bool, true, false, Option, none, some, List, [],
  ◌∷◌, arith, ◌==◌, if◌then◌else◌, elem, lookup, insert, erase_all, lookup-insert, lookup-erase_all,
  Bool-cases, ==_iff, ==_refl, subst,
}
use reactor_network_library.EventLoop.Recency
use reactor_network_library.EventLoop.Recency.{Recency, Node}
use reactor_network_library.EventLoop.Recency.Index.{fds, conn_of, elem-no_value}
use reactor_network_library.EventLoop.Recency.Order.{new_connection_lem}
use reactor_network_library.EventLoop.Recency.Deletion.{delete_connection_lem, delay_delete_lem}
use reactor_network_library.EventLoop.Recency.Popped.{
  AllHeld, AllHeld-of_conns, value_of-gone, remove_popped,
}
use reactor_network_library.Server.{
  Server, Effect, adds_to_epoll, user_created, update_loop, created, create_connection,
  delete_connection, remove_timeout_connection, call_each, held, lock, handle_timer, end_round,
  close_connection,
}
use reactor_network_library.Server.Ownership.{Agrees, change-Agrees, drop-Agrees, lookup-call_each}

pub held-lookup : (m : List (ℕ × ℕ)) (fd conn : ℕ) → lookup fd m ≡ some conn → held m conn ≡ true
unfolding held lookup
held-lookup [] fd conn e = cc
held-lookup ((j, c) ∷ m) fd conn e = ground (arith, held-lookup m fd conn)

none-ne-some : {c : ℕ} → ◌≡◌ {A = Option ℕ} none (some c) → ⊥
none-ne-some e = cc

true-ne-false : ◌≡◌ {A = Bool} true false → ⊥
true-ne-false e = cc

-- Every connection in a list of a sub-loop is held by the server.
pub lock-held :
    (s : Server) (last : ℕ → ℕ) (i : ℕ)
    → Agrees s
    → AllHeld (lock s last) (s.psubloop i).lruconnection
unfolding lock
lock-held s last i a = AllHeld-of_conns (lock s last) _ (a.indexed i).distinct λ fd conn e.
    elim (Bool-cases (i == fd % s.threadsnums)) [
      | inl same ↦
          let at : conn_of fd (s.psubloop (fd % s.threadsnums)).lruconnection ≡ some conn =
            ap (λ j. conn_of fd (s.psubloop j).lruconnection) (sym ((==_iff _ _).0 same)) ∙ e in
          rw (held-lookup s.client_connection_map fd conn (sym (a.owned fd) ∙ at)) (λ q. cc)
      | inr other ↦ absurd (none-ne-some (sym (a.elsewhere i fd other) ∙ e))
    ]

-- A descriptor in the list of loop `i` is one of loop `i`.
listed-local :
    (s : Server) (i k : ℕ)
    → Agrees s
    → elem k (fds (s.psubloop i).lruconnection) ≡ true
    → (i == k % s.threadsnums) ≡ true
listed-local s i k a h = elim (Bool-cases (i == k % s.threadsnums)) [
  | inl same ↦ same
  | inr other ↦ cc (elem-no_value (λ n. n.conn) k _ (a.elsewhere i k other), h)
]

-- The timer takes the idle connections of its loop out of the loop and the server alike.
pub handle_timer-Agrees :
    (s : Server) (i : ℕ) (last : ℕ → ℕ) (now interval : ℕ)
    → Agrees s
    → Agrees (handle_timer s i last now interval).0
unfolding handle_timer
handle_timer-Agrees s i last now interval a =
    let (t, gone) = Recency.remove_timeout_connection (lock s last) now interval (s.psubloop i) in
    let (kept, indexed, inside, delayed) =
      remove_popped (lock s last) now interval (s.psubloop i) (a.indexed i)
        (lock-held s last i a) in
    subst Agrees
      (sym (
        lookup-call_each remove_timeout_connection
          (λ u fd. unfold remove_timeout_connection in refl)
          (record s { psubloop = update_loop s.psubloop i t }) gone))
      (drop-Agrees s i t gone (erase_all gone s.client_connection_map) a indexed
        (λ k. ap (conn_of k) kept ∙ value_of-gone (λ n. n.conn) gone k (s.psubloop i).lruconnection)
        (λ k. lookup-erase_all gone k s.client_connection_map)
        (λ k h. listed-local s i k a (inside k h)) (λ k h. a.local i k (rw (← delayed) h)))

-- The end of a round uses no dead iterator, and takes the delayed descriptors out of the loop and the
-- server alike.
pub end_round-Agrees :
    (s : Server) (i : ℕ)
    → Agrees s
    → (r : Server × List Effect) × (end_round s i ≡ some r) × Agrees r.0
unfolding end_round
end_round-Agrees s i a =
    let (t, e, indexed, order, emptied, conns) = delete_connection_lem (a.indexed i) in
    let gone = (s.psubloop i).delay_delete_connectionfd in
    (
      call_each delete_connection (record s { psubloop = update_loop s.psubloop i t }) gone,
      rw (e, end_round) refl,
      subst Agrees
          (sym (
            lookup-call_each delete_connection (λ u fd. unfold delete_connection in refl)
              (record s { psubloop = update_loop s.psubloop i t }) gone))
          (drop-Agrees s i t gone (erase_all gone s.client_connection_map) a indexed conns
            (λ k. lookup-erase_all gone k s.client_connection_map) (λ k h. a.local i k h)
            (λ k h. absurd (true-ne-false (sym h ∙ ap (elem k) emptied)))),
    )

-- `delayDelete` of a descriptor of its own loop.
pub close_connection-Agrees :
    (s : Server) (i fd : ℕ)
    → Agrees s
    → (i == fd % s.threadsnums) ≡ true
    → Agrees (close_connection s i fd)
unfolding close_connection
close_connection-Agrees s i fd a h =
    let (same, valid, delayed) = delay_delete_lem (s.psubloop i) fd in
    drop-Agrees s i (Recency.delay_delete (s.psubloop i) fd) [] s.client_connection_map a
      (valid (a.indexed i)) (λ k. ap (conn_of k) same) (λ k. refl)
      (λ k q. absurd (true-ne-false (sym q)))
      (λ k q. elim (Bool-cases (fd == k)) [
        | inl eq ↦ ap (λ j. i == j % s.threadsnums) (sym ((==_iff _ _).0 eq)) ∙ h
        | inr ne ↦ a.local i k (ground (arith, delayed k))
      ])

created-Agrees :
    (s : Server) (fd : ℕ)
    → Agrees s
    → lookup fd s.client_connection_map ≡ none
    → Agrees (created s fd)
unfolding created
created-Agrees s fd a unused =
    let i = fd % s.threadsnums in
    let old = s.psubloop i in
    let (valid, order, conns, delayed) =
      new_connection_lem fd s.next_conn (a.indexed i)
        (elem-no_value (λ n. n.conn) fd old.lruconnection (a.owned fd ∙ unused)) in
    change-Agrees s i (Recency.new_connection old fd s.next_conn)
      (λ k o. if fd == k then some s.next_conn else o)
      (insert fd s.next_conn s.client_connection_map) (s.next_conn + 1) a valid conns
      (λ k. lookup-insert fd k s.next_conn s.client_connection_map)
      (λ k o other. apart s.threadsnums k o other) (λ k h. a.local i k (rw (← delayed) h))
  where
    apart :
        (n k : ℕ) (o : Option ℕ)
        → (fd % n == k % n) ≡ false
        → (if fd == k then some s.next_conn else o) ≡ o
    apart n k o other = elim (Bool-cases (fd == k)) [
      | inl same ↦ absurd (
          true-ne-false
            (sym (==_refl (fd % n)) ∙ ap (λ j. fd % n == j % n) ((==_iff _ _).0 same) ∙ other))
      | inr ne ↦ rw ne refl
    ]

-- A descriptor that the kernel hands out is not one of a Connection that is still held. The new
-- Connection goes into the map and into the list of one loop; no Connection is destroyed.
pub create_connection-Agrees :
    (s : Server) (fd : ℕ)
    → Agrees s
    → lookup fd s.client_connection_map ≡ none
    → (r : Server × List Effect) × (create_connection s fd ≡ some r)
      × Agrees r.0
      × (lookup fd r.0.client_connection_map ≡ some s.next_conn)
      × (r.1 ≡ adds_to_epoll s.next_conn ∷ (if s.handles_create then user_created fd ∷ [] else []))
unfolding create_connection
create_connection-Agrees s fd a unused = (
  (
    created s fd,
    adds_to_epoll s.next_conn ∷ (if s.handles_create then user_created fd ∷ [] else []),
  ),
  ground (arith, unused, a.threads),
  created-Agrees s fd a unused,
  lookup-insert fd fd s.next_conn s.client_connection_map ∙ rw ==_refl refl,
  refl,
)
