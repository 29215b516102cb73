-- ===== src/Server/Interest/Turns.antt =====
-- The handlers of src/TcpServer.cpp with the epolls of the loops, in any order.
use reactor_network_library.Prelude.{
  ℕ, ◌+◌, ◌%◌, ◌≡◌, ◌≢◌, refl, ap, Option, none, some, List, [], ◌∷◌, ◌++◌, arith, if◌then◌else◌,
  lookup, insert,
}
use reactor_network_library.Channel.Kernel.{Kernel}
use reactor_network_library.EventLoop.Recency
use reactor_network_library.EventLoop.Recency.Order.{update_connection_lem}
use reactor_network_library.EventLoop.Recency.Deletion.{delete_connection_lem}
use reactor_network_library.Server.{
  Server, Effect, adds_to_epoll, user_created, update_loop, destroyed, created, create_connection,
  delete_connection, remove_timeout_connection, call_each, lock, handle_timer, end_round, touch,
  close_connection,
}
use reactor_network_library.Server.Ownership.{Agrees, lookup-call_each}
use reactor_network_library.Server.Safety.{
  Event, accepts, active, closes, timer, ends, step, Happens,
}
use reactor_network_library.Server.Interest.{
  Watch, Turn, occurs, writes_on, writes_off, perform, perform_all, constructed,
}
use reactor_network_library.Server.Interest.Change.{IsWatched}
use reactor_network_library.Server.Interest.Lifetime.{created-IsWatched}
use reactor_network_library.Server.Interest.Handlers.{
  and_true, Leads, user_call-Leads, call_each-Leads, remove_timeout_connection-Drops,
  delete_connection-Drops,
}

module _ {K : Type 0} (epoll : Kernel K) (n : ℕ) (base : ℕ → ℕ → Option ℕ) where
  -- A server with `n` loops, against the epolls.
  pub record Watches (s : Server) (w : Watch K) : Type 0 where
    pub threads : s.threadsnums ≡ n
    pub agrees : Agrees s
    pub watched : IsWatched epoll n base s.client_connection_map s.next_conn w

  -- The kernel hands out no descriptor that a loop had from the start.
  abbrev pub Comes : Server → Turn → Type 0
  Comes s (occurs (accepts fd)) = Happens s (accepts fd) × (base (fd % n) fd ≡ none)
  Comes s (occurs (active i fd)) = Unit {0}
  Comes s (occurs (closes i fd)) = Happens s (closes i fd)
  Comes s (occurs (timer i last now interval)) = Unit {0}
  Comes s (occurs (ends i)) = Unit {0}
  Comes s (writes_on fd) = lookup fd s.client_connection_map ≢ none
  Comes s (writes_off fd) = lookup fd s.client_connection_map ≢ none

  pub Comes-Happens : (s : Server) (e : Event) → Comes s (occurs e) → Happens s e
  Comes-Happens s (accepts fd) h = h.0
  Comes-Happens s (active i fd) h = h
  Comes-Happens s (closes i fd) h = h
  Comes-Happens s (timer i last now interval) h = h
  Comes-Happens s (ends i) h = h

  -- What a step does to the epolls.
  abbrev pub Steps : Server → Event → Watch K → Type 0
  Steps s e w =
      (u : Server) × (effects : List Effect) × (step s e ≡ some (u, effects))
      × (u.threadsnums ≡ s.threadsnums)
      × Leads epoll n base (constructed s e w) effects u.client_connection_map u.next_conn

  accepts-Steps :
      (s : Server) (fd : ℕ) (w : Watch K)
      → Comes s (occurs (accepts fd))
      → Agrees s
      → IsWatched epoll n base s.client_connection_map s.next_conn w
      → Steps s (accepts fd) w
  unfolding step create_connection constructed created perform_all
  accepts-Steps s fd w h a v =
      let (done, u) =
        created-IsWatched epoll n base s.client_connection_map s.next_conn w fd v h.0 h.1 in
      let users = if s.handles_create then user_created fd ∷ [] else [] in
      let (done', u') =
        user_call-Leads epoll n base (user_created fd) s.handles_create
          (insert fd s.next_conn s.client_connection_map) (s.next_conn + 1) _
          (λ x. unfold perform in refl) u in
      (
        created s fd,
        destroyed s fd ++ (adds_to_epoll s.next_conn ∷ users),
        ground (arith, a.threads),
        refl,
        rw (h.0, destroyed) (and_true _ _ done done', u'),
      )

  active-Steps :
      (s : Server) (i fd : ℕ) (w : Watch K)
      → Agrees s
      → IsWatched epoll n base s.client_connection_map s.next_conn w
      → Steps s (active i fd) w
  unfolding step touch constructed perform_all
  active-Steps s i fd w a v =
      let (t, e, indexed, order, conns, same) = update_connection_lem fd (a.indexed i) in
      (
        record s { psubloop = update_loop s.psubloop i t },
        [],
        rw (e, step, touch) refl,
        refl,
        (refl, v),
      )

  timer-Steps :
      (s : Server) (i : ℕ) (last : ℕ → ℕ) (now interval : ℕ) (w : Watch K)
      → IsWatched epoll n base s.client_connection_map s.next_conn w
      → Steps s (timer i last now interval) w
  unfolding step handle_timer constructed
  timer-Steps s i last now interval w v =
      let (t, gone) = Recency.remove_timeout_connection (lock s last) now interval (s.psubloop i) in
      let s' = record s { psubloop = update_loop s.psubloop i t } in
      (
        (handle_timer s i last now interval).0,
        (handle_timer s i last now interval).1,
        refl,
        ap (λ (u : Server). u.threadsnums)
            (lookup-call_each remove_timeout_connection
              (λ u fd. unfold remove_timeout_connection in refl) s' gone),
        call_each-Leads epoll n base remove_timeout_connection
            (remove_timeout_connection-Drops epoll n base) gone s' w v,
      )

  ends-Steps :
      (s : Server) (i : ℕ) (w : Watch K)
      → Agrees s
      → IsWatched epoll n base s.client_connection_map s.next_conn w
      → Steps s (ends i) w
  unfolding step end_round constructed
  ends-Steps s i w a v =
      let (t, e, indexed, order, emptied, conns) = delete_connection_lem (a.indexed i) in
      let gone = (s.psubloop i).delay_delete_connectionfd in
      let s' = record s { psubloop = update_loop s.psubloop i t } in
      let after = call_each delete_connection s' gone in
      (
        after.0,
        after.1,
        rw (e, end_round) refl,
        ap (λ (u : Server). u.threadsnums)
            (lookup-call_each delete_connection (λ u fd. unfold delete_connection in refl) s' gone),
        call_each-Leads epoll n base delete_connection (delete_connection-Drops epoll n base) gone
            s' w v,
      )

  pub step-Steps :
      (s : Server) (e : Event) (w : Watch K)
      → Comes s (occurs e)
      → Agrees s
      → IsWatched epoll n base s.client_connection_map s.next_conn w
      → Steps s e w
  unfolding step constructed close_connection perform_all
  step-Steps s (accepts fd) w h a v = accepts-Steps s fd w h a v
  step-Steps s (active i fd) w h a v = active-Steps s i fd w a v
  step-Steps s (closes i fd) w h a v = (close_connection s i fd, [], refl, refl, (refl, v))
  step-Steps s (timer i last now interval) w h a v = timer-Steps s i last now interval w v
  step-Steps s (ends i) w h a v = ends-Steps s i w a v
