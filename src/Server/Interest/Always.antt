-- ===== src/Server/Interest/Always.antt =====
-- Any run of the server of src/TcpServer.cpp, with the epolls of its loops.
use reactor_network_library.Prelude.{
  ℕ, ◌%◌, ◌<◌, ◌≡◌, refl, sym, ap, ap₂, ◌∙◌, subst, inl, inr, Bool, true, false, Option, none, some,
  List, ◌==◌, if◌then◌else◌, lookup, Bool-cases, Option-cases, ==_iff,
}
use reactor_network_library.Channel.Flags.{mask}
use reactor_network_library.Channel.{Channel, enablewriting, disablewriting}
use reactor_network_library.Channel.Kernel.{Kernel}
use reactor_network_library.Server.{Server, Effect}
use reactor_network_library.Server.Ownership.{Agrees}
use reactor_network_library.Server.Safety.{Event, step-Agrees, init, init-Agrees}
use reactor_network_library.Server.Interest.{
  Watch, Turn, occurs, writes_on, writes_off, turn, perform_all, constructed, on_channel,
}
use reactor_network_library.Server.Interest.Change.{IsWatched}
use reactor_network_library.Server.Interest.Kept.{writes_on-IsWatched, writes_off-IsWatched}
use reactor_network_library.Server.Interest.Turns.{Watches, Comes, Comes-Happens, step-Steps}

-- What an epoll is due of a descriptor, with the Connection that the map has for it, and what the epoll
-- had of it before any.
abbrev pub due : Option ℕ → Bool → Option ℕ → Option ℕ
due none writing before = before
due (some conn) writing before = some (mask true writing true)

some-eq {ℓ} : {A : Type ℓ} {x y : A} → some x ≡ some y → x ≡ y
some-eq e = cc

module _ {K : Type 0} (epoll : Kernel K) (n : ℕ) (base : ℕ → ℕ → Option ℕ) where
  -- The servers and epolls that turns lead to.
  pub data Runs (s : Server) (w : Watch K) : Server → Watch K → Type 0 where
    here : Runs s w s w
    next :
        {t u : Server} {v x : Watch K} (e : Turn) (done : Bool)
        → Runs s w t v
        → Comes epoll n base t e
        → turn epoll.ctl t v e ≡ some (done, u, x)
        → Runs s w u x

  -- The turn comes, every `epoll_ctl` succeeds, and the epolls follow the server.
  abbrev Follows : Server → Watch K → Turn → Type 0
  Follows s w e =
      (u : Server) × (x : Watch K) × (turn epoll.ctl s w e ≡ some (true, u, x))
      × Watches epoll n base u x

  occurs-Follows :
      (s : Server) (w : Watch K) (e : Event)
      → Watches epoll n base s w
      → Comes epoll n base s (occurs e)
      → Follows s w (occurs e)
  unfolding turn
  occurs-Follows s w e v h =
      let (u, effects, comes, loops, leads) = step-Steps epoll n base s e w h v.agrees v.watched in
      let (r, found, agrees) = step-Agrees s e v.agrees (Comes-Happens epoll n base s e h) in
      let same : r.0 ≡ u = ap (λ (x : Server × List Effect). x.0) (some-eq (sym found ∙ comes)) in
      (
        u,
        (perform_all epoll.ctl n (constructed s e w) effects).1,
        rw (comes, turn)
            (ap
                (λ i.
                  let (done, x) = perform_all epoll.ctl i (constructed s e w) effects in
                  some (done, u, x))
                v.threads
              ∙ ap (λ b. some (b, u, (perform_all epoll.ctl n (constructed s e w) effects).1))
                  leads.0),
        record {
          threads = loops ∙ v.threads;
          agrees = subst Agrees same agrees;
          watched = leads.1;
        },
      )

  -- A Connection of the map that asks for room to write, or no longer does.
  held-Follows :
      (s : Server) (w : Watch K) (e : Turn) (op : K → Channel → Bool × K × Channel) (fd conn : ℕ)
      → Watches epoll n base s w
      → turn epoll.ctl s w e
        ≡ (let (done, x) = on_channel op s.threadsnums w conn in some (done, s, x))
      → (let (done, x) = on_channel op n w conn in
          (done ≡ true) × IsWatched epoll n base s.client_connection_map s.next_conn x)
      → Follows s w e
  held-Follows s w e op fd conn v h kept =
      let y = on_channel op n w conn in
      (
        s,
        y.1,
        h
            ∙ ap (λ i. let (done, x) = on_channel op i w conn in some (done, s, x)) v.threads
            ∙ ap (λ b. some (b, s, y.1)) kept.0,
        record { threads = v.threads; agrees = v.agrees; watched = kept.1 },
      )

  turn-Follows :
      (s : Server) (w : Watch K) (e : Turn)
      → Watches epoll n base s w
      → Comes epoll n base s e
      → Follows s w e
  unfolding turn
  turn-Follows s w (occurs e) v h = occurs-Follows s w e v h
  turn-Follows s w (writes_on fd) v h = elim (Option-cases (lookup fd s.client_connection_map)) [
    | inl absent ↦ absurd (h absent)
    | inr (conn, e) ↦
        held-Follows s w (writes_on fd) (enablewriting epoll.ctl) fd conn v (rw (e, turn) refl) (
          writes_on-IsWatched epoll n base s.client_connection_map s.next_conn w fd conn v.watched
            e)
  ]
  turn-Follows s w (writes_off fd) v h = elim (Option-cases (lookup fd s.client_connection_map)) [
    | inl absent ↦ absurd (h absent)
    | inr (conn, e) ↦
        held-Follows s w (writes_off fd) (disablewriting epoll.ctl) fd conn v (rw (e, turn) refl) (
          writes_off-IsWatched epoll n base s.client_connection_map s.next_conn w fd conn v.watched
            e)
  ]

  Runs-Watches :
      {s : Server} {w : Watch K} {t : Server} {x : Watch K}
      → Watches epoll n base s w
      → Runs s w t x
      → Watches epoll n base t x
  Runs-Watches v here = v
  Runs-Watches v (next {t = t} {u = u} {v = y} {x = z} e done r h comes) =
      let (u', z', found, after) = turn-Follows t y e (Runs-Watches v r) h in
      let same = some-eq (sym found ∙ comes) in
      subst (λ (p : Bool × Server × Watch K). Watches epoll n base p.1 p.2) same after

  init-Watches :
      (c d : Bool) (start : Watch K)
      → 0 < n
      → ((j fd : ℕ) → epoll.registered (start.epolls j) fd ≡ base j fd)
      → Watches epoll n base (init n c d) start
  unfolding init lookup
  init-Watches c d start pos own_only = record {
    threads = refl;
    agrees = init-Agrees n c d pos;
    watched = record {
      live = λ fd conn e. cc;
      absent = λ fd e. own_only (fd % n) fd;
      elsewhere = λ j fd e. own_only j fd;
    };
  }

  interest :
      (s : Server) (w : Watch K) (j fd : ℕ)
      → Watches epoll n base s w
      → (writing : Bool) × (epoll.registered (w.epolls j) fd ≡ (
          if j == fd % n
          then due (lookup fd s.client_connection_map) writing (base j fd)
          else base j fd))
  interest s w j fd v = elim (Bool-cases (j == fd % n)) [
    | inr other ↦ (false, rw other (v.watched.elsewhere j fd other))
    | inl mine ↦ elim (Option-cases (lookup fd s.client_connection_map)) [
      | inl absent ↦ (
        false,
        rw (mine, absent)
            (subst (λ i. epoll.registered (w.epolls i) fd ≡ base i fd) (sym ((==_iff _ _).0 mine))
              (v.watched.absent fd absent)),
      )
      | inr (conn, e) ↦
          let (below, live) = v.watched.live fd conn e in
          (
            live.told.writing,
            rw (mine, e)
                (ap (λ i. epoll.registered (w.epolls i) fd) ((==_iff _ _).0 mine)
                  ∙ ap (epoll.registered (w.epolls (fd % n))) (sym live.of_socket)
                  ∙ live.in_step.interest
                  ∙ ap₂ (λ r g. some (mask r live.told.writing g)) live.reading live.edge),
          )
    ]
  ]

  -- From the start of a server with at least one sub-loop, whose epolls have descriptors of their own
  -- alone, through events and changes of what the Connections ask for, in any order: the next turn that
  -- may come does so with every `epoll_ctl` succeeding; and the epoll of each loop has, besides its own
  -- descriptors, those of the Connections in the map that belong to the loop, each for reading and
  -- edge-triggered, and for writing or not. The kernel hands out no descriptor that is open.
  pub interest_lem :
      (c d : Bool) (start : Watch K) {s : Server} {w : Watch K} (e : Turn) (j fd : ℕ)
      → 0 < n
      → ((i k : ℕ) → epoll.registered (start.epolls i) k ≡ base i k)
      → Runs (init n c d) start s w
      → Comes epoll n base s e
      → ((u : Server) × (x : Watch K) × (turn epoll.ctl s w e ≡ some (true, u, x)))
        × ((writing : Bool) × (epoll.registered (w.epolls j) fd ≡ (
              if j == fd % n
              then due (lookup fd s.client_connection_map) writing (base j fd)
              else base j fd)))
  interest_lem c d start {s} {w} e j fd pos own_only r h =
      let v = Runs-Watches (init-Watches c d start pos own_only) r in
      let (u, x, comes, after) = turn-Follows s w e v h in ((u, x, comes), interest s w j fd v)
