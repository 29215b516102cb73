-- ===== src/Server/Interest/Handlers.antt =====
-- The calls of the handlers of src/TcpServer.cpp, on the epolls of the loops.
use reactor_network_library.Prelude.{
  ℕ, ◌≡◌, refl, sym, ap, ◌∙◌, inl, inr, Bool, true, false, Option, none, List, [], ◌∷◌, ◌++◌, ◌&&◌,
  arith, ◌==◌, if◌then◌else◌, lookup, erase, lookup-erase, Bool-cases, Option-cases, ==_iff,
}
use reactor_network_library.Channel.Kernel.{Kernel}
use reactor_network_library.Server.{
  Server, Effect, user_deleted, destroyed, delete_connection, remove_timeout_connection, call_each,
}
use reactor_network_library.Server.Interest.{Watch, perform, perform_all}
use reactor_network_library.Server.Interest.Change.{IsWatched}
use reactor_network_library.Server.Interest.Lifetime.{destroys-IsWatched}

pub and_true : (a b : Bool) → a ≡ true → b ≡ true → (a && b) ≡ true
and_true a b h k = ground arith

erase_absent :
    (m : List (ℕ × ℕ)) (fd : ℕ) → lookup fd m ≡ none → (j : ℕ) → lookup j (erase fd m) ≡ lookup j m
erase_absent m fd absent j = elim (Bool-cases (fd == j)) [
  | inl same ↦
      lookup-erase fd j m ∙ rw same (sym absent ∙ ap (λ i. lookup i m) ((==_iff _ _).0 same))
  | inr apart ↦ lookup-erase fd j m ∙ rw apart refl
]

module _ {K : Type 0} (epoll : Kernel K) (n : ℕ) (base : ℕ → ℕ → Option ℕ) where
  -- Effects that lead from a server's epolls to those of another, every `epoll_ctl` of them succeeding.
  abbrev pub Leads : Watch K → List Effect → List (ℕ × ℕ) → ℕ → Type 0
  Leads w effects m next =
      ((perform_all epoll.ctl n w effects).0 ≡ true)
      × IsWatched epoll n base m next (perform_all epoll.ctl n w effects).1

  pub same-IsWatched :
      (m m' : List (ℕ × ℕ)) (next : ℕ) (w : Watch K)
      → ((j : ℕ) → lookup j m' ≡ lookup j m)
      → IsWatched epoll n base m next w
      → IsWatched epoll n base m' next w
  same-IsWatched m m' next w same v = record {
    live = λ fd conn e. v.live fd conn (sym (same fd) ∙ e);
    absent = λ fd e. v.absent fd (sym (same fd) ∙ e);
    elsewhere = v.elsewhere;
  }

  Leads-append :
      (xs ys : List Effect) (w : Watch K) (m : List (ℕ × ℕ)) (next : ℕ)
      → (perform_all epoll.ctl n w xs).0 ≡ true
      → Leads (perform_all epoll.ctl n w xs).1 ys m next
      → Leads w (xs ++ ys) m next
  unfolding perform_all
  Leads-append [] ys w m next h k = k
  Leads-append (x ∷ xs) ys w m next h k =
      let first : (perform epoll.ctl n w x).0 ≡ true = ground arith in
      let rest : (perform_all epoll.ctl n (perform epoll.ctl n w x).1 xs).0 ≡ true = ground arith in
      let (done, v) = Leads-append xs ys (perform epoll.ctl n w x).1 m next rest k in
      (and_true _ _ first done, v)

  -- A call into the user's code, if it is set.
  pub user_call-Leads :
      (x : Effect) (b : Bool) (m : List (ℕ × ℕ)) (next : ℕ) (w : Watch K)
      → ((u : Watch K) → perform epoll.ctl n u x ≡ (true, u))
      → IsWatched epoll n base m next w
      → Leads w (if b then x ∷ [] else []) m next
  unfolding perform_all
  user_call-Leads x true m next w h v = rw (h w) (refl, v)
  user_call-Leads x false m next w h v = (refl, v)

  destroyed-Leads :
      (s : Server) (fd : ℕ) (w : Watch K)
      → IsWatched epoll n base s.client_connection_map s.next_conn w
      → Leads w (destroyed s fd) (erase fd s.client_connection_map) s.next_conn
  unfolding destroyed perform_all
  destroyed-Leads s fd w v = elim (Option-cases (lookup fd s.client_connection_map)) [
    | inl absent ↦
        rw (absent, destroyed)
          (
            refl,
            same-IsWatched s.client_connection_map (erase fd s.client_connection_map) s.next_conn w
                (erase_absent s.client_connection_map fd absent) v,
          )
    | inr (conn, e) ↦
        let (done, u) =
          destroys-IsWatched epoll n base s.client_connection_map s.next_conn w fd conn v e in
        rw (e, destroyed) (and_true _ _ done refl, u)
  ]

  -- A callback of the loops takes a descriptor out of the map.
  abbrev pub Drops : (Server → ℕ → Server × List Effect) → Type 0
  Drops callback =
      (s : Server) (fd : ℕ) (w : Watch K)
      → IsWatched epoll n base s.client_connection_map s.next_conn w
      → let (t, effects) = callback s fd in Leads w effects t.client_connection_map t.next_conn

  pub remove_timeout_connection-Drops : Drops remove_timeout_connection
  unfolding remove_timeout_connection
  remove_timeout_connection-Drops = destroyed-Leads

  pub delete_connection-Drops : Drops delete_connection
  unfolding delete_connection
  delete_connection-Drops s fd w v =
      let (done, u) = destroyed-Leads s fd w v in
      Leads-append (destroyed s fd) (if s.handles_delete then user_deleted fd ∷ [] else []) w _
        s.next_conn done
        (user_call-Leads (user_deleted fd) s.handles_delete (erase fd s.client_connection_map)
          s.next_conn _ (λ x. unfold perform in refl) u)

  pub call_each-Leads :
      (callback : Server → ℕ → Server × List Effect)
      → Drops callback
      → (fds : List ℕ) (s : Server) (w : Watch K)
      → IsWatched epoll n base s.client_connection_map s.next_conn w
      → let (t, effects) = call_each callback s fds in
        Leads w effects t.client_connection_map t.next_conn
  unfolding call_each
  call_each-Leads callback drops [] s w v = (unfold perform_all in refl, unfold perform_all in v)
  call_each-Leads callback drops (fd ∷ fds) s w v =
      let (done, u) = drops s fd w v in
      Leads-append (callback s fd).1 (call_each callback (callback s fd).0 fds).1 w _ _ done
        (call_each-Leads callback drops fds (callback s fd).0 _ u)
