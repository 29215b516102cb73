-- ===== src/Server/Timing.antt =====
-- A server that lives through events while the clock goes on, and which connections its timer takes.
use reactor_network_library.Prelude.{
  ℕ, ◌+◌, ◌%◌, ◌<◌, ◌≤◌, ◌≡◌, refl, sym, ap, ◌∙◌, inl, inr, Bool, true, Option, none, some, List,
  [], ◌∷◌, ◌++◌, arith, ◌==◌, leb, ◌&&◌, if◌then◌else◌, elem, lookup, lookup-erase_all, Bool-cases,
  Option-cases, ==_iff, subst,
}
use reactor_network_library.EventLoop.Recency
use reactor_network_library.EventLoop.Recency.{Recency, Node, is_timeout}
use reactor_network_library.EventLoop.Recency.Index.{fds, conn_of, elem-no_value}
use reactor_network_library.EventLoop.Recency.Keep.{keep, elem-keep, elem-reverse}
use reactor_network_library.EventLoop.Recency.Deletion.{delay_delete_lem}
use reactor_network_library.EventLoop.Recency.Expiry.{AllLive, stale, remove_timeout_connection_lem}
use reactor_network_library.Server.{
  Server, Effect, update_loop, created, create_connection, remove_timeout_connection, lock,
  handle_timer, close_connection, destroyed, adds_to_epoll, user_created,
}
use reactor_network_library.Server.Ownership.{Agrees, lookup-call_each}
use reactor_network_library.Server.Rounds.{held-lookup}
use reactor_network_library.Server.Safety.{
  Event, accepts, active, closes, timer, ends, step, step-Agrees, Happens, init, init-Agrees,
}
use reactor_network_library.Server.Clock.{stamped, Descends-top}
use reactor_network_library.Server.Idle.{
  AllDescend, Runs, update_loop-Descends, created-Descends, touch-Descends, handle_timer-Descends,
  end_round-Descends,
}
use reactor_network_library.Server.Listed.{Descends-IsRecent, AllLive-of_conns, elem-passing}

-- The servers that events lead to, each with the times of the last activity and the clock.
pub data Lives (n : ℕ) (c d : Bool) : Server → (ℕ → ℕ) → ℕ → Type 0 where
  starts : (time : ℕ → ℕ) (now : ℕ) → Lives n c d (init n c d) time now
  ticks :
      {s : Server} {time : ℕ → ℕ} {now : ℕ} (later : ℕ)
      → Lives n c d s time now
      → now ≤ later
      → Lives n c d s time later
  happens :
      {s u : Server} {time : ℕ → ℕ} {now : ℕ} (e : Event) (effects : List Effect)
      → Lives n c d s time now
      → Happens s e
      → Runs s e
      → step s e ≡ some (u, effects)
      → Lives n c d u (stamped e now time) now

step-Descends :
    (s : Server) (e : Event) (time : ℕ → ℕ) (now : ℕ)
    → Agrees s
    → Happens s e
    → Runs s e
    → AllDescend s time now
    → (r : Server × List Effect) × (step s e ≡ some r) × AllDescend r.0 (stamped e now time) now
unfolding step stamped create_connection close_connection
step-Descends s (accepts fd) time now a h runs d = (
  (
    created s fd,
    destroyed s fd
        ++ adds_to_epoll s.next_conn ∷ (if s.handles_create then user_created fd ∷ [] else []),
  ),
  ground (arith, a.threads),
  created-Descends s time now fd a h d,
)
step-Descends s (active i fd) time now a h runs d =
    let (t, e, b) = touch-Descends s time now i fd a runs d in ((t, []), rw (e, step) refl, b)
step-Descends s (closes i fd) time now a h runs d = (
  (close_connection s i fd, []),
  refl,
  update_loop-Descends time now i (Recency.delay_delete (s.psubloop i) fd) s.psubloop
      (rw (delay_delete_lem (s.psubloop i) fd).0 (d i)) (λ j other. d j),
)
step-Descends s (timer i last t interval) time now a h runs d =
    (handle_timer s i last t interval, refl, handle_timer-Descends s time now i last t interval a d)
step-Descends s (ends i) time now a h runs d = end_round-Descends s time now i a d

none-ne-some : {k : ℕ} → ◌≡◌ {A = Option ℕ} none (some k) → ⊥
none-ne-some e = cc

some-eq : {x y : Server × List Effect} → some x ≡ some y → x.0 ≡ y.0
some-eq q = cc

Lives-Descends :
    (n : ℕ) (c d : Bool) {s : Server} {time : ℕ → ℕ} {now : ℕ}
    → 0 < n
    → Lives n c d s time now
    → Agrees s × AllDescend s time now
unfolding init
Lives-Descends n c d pos (starts time now) = (init-Agrees n c d pos, λ i. tt)
Lives-Descends n c d pos (ticks later r h) =
    let (a, b) = Lives-Descends n c d pos r in (a, λ i. Descends-top _ _ later _ h (b i))
Lives-Descends n c d pos (happens {s = s} {time = time} {now = now} e effects r may runs p) =
    let (a, b) = Lives-Descends n c d pos r in
    let (q, found, agrees) = step-Agrees s e a may in
    let (q', found', descends) = step-Descends s e time now a may runs b in
    (
      subst Agrees (some-eq (sym found ∙ p)) agrees,
      subst (λ w. AllDescend w (stamped e now time) now) (some-eq (sym found' ∙ p)) descends,
    )

module _ (s : Server) (last time : ℕ → ℕ) (now i interval : ℕ) where
  -- The Connection of a descriptor in the list of loop `i`.
  listed-held :
      (fd conn : ℕ)
      → Agrees s
      → conn_of fd (s.psubloop i).lruconnection ≡ some conn
      → ((i == fd % s.threadsnums) ≡ true) × (lookup fd s.client_connection_map ≡ some conn)
  listed-held fd conn a e = elim (Bool-cases (i == fd % s.threadsnums)) [
    | inl mine ↦ (
      mine,
      sym (a.owned fd)
          ∙ ap (λ j. conn_of fd (s.psubloop j).lruconnection) (sym ((==_iff _ _).0 mine))
          ∙ e,
    )
    | inr other ↦ absurd (none-ne-some (sym (a.elsewhere i fd other) ∙ e))
  ]

  -- The timer of loop `i` is told of a descriptor with a Connection if it is one of the loop, and idle.
  told :
      (fd conn : ℕ)
      → Agrees s
      → AllDescend s time now
      → ((k c : ℕ) → lookup k s.client_connection_map ≡ some c → last c ≡ time k)
      → lookup fd s.client_connection_map ≡ some conn
      → elem fd (Recency.remove_timeout_connection (lock s last) now interval (s.psubloop i)).1
        ≡ ((i == fd % s.threadsnums) && leb (time fd + interval) now)
  unfolding lock stale is_timeout
  told fd conn a d timed e =
      let ns = (s.psubloop i).lruconnection in
      let distinct = (a.indexed i).distinct in
      let (recent, before) =
        Descends-IsRecent last time now ns distinct (λ k c q. timed k c (listed-held k c a q).1)
          (d i) in
      let live : AllLive last (lock s last) ns =
        AllLive-of_conns last time (lock s last) ns distinct
          (λ k c q. rw (held-lookup s.client_connection_map k c (listed-held k c a q).1) refl) in
      let (kept, order, indexed) =
        remove_timeout_connection_lem last now interval (lock s last) (s.psubloop i) (a.indexed i)
          recent live in
      let gone : elem fd
            (Recency.remove_timeout_connection (lock s last) now interval (s.psubloop i)).1
          ≡ elem fd (fds (keep (stale last now interval) ns)) =
        ap (elem fd) order ∙ elem-reverse fd (fds (keep (stale last now interval) ns)) in
      elim (Bool-cases (i == fd % s.threadsnums)) [
        | inl mine ↦
            let own : conn_of fd ns ≡ some conn =
              ap (λ j. conn_of fd (s.psubloop j).lruconnection) ((==_iff _ _).0 mine)
              ∙ a.owned fd
              ∙ e in
            gone
            ∙ elem-passing (stale last now interval) (λ c. is_timeout now (last c) interval) fd conn
                ns (λ n. refl) distinct own
            ∙ rw (mine, timed fd conn e) refl
        | inr other ↦
            gone
            ∙ rw other
                (elem-keep _ fd ns (elem-no_value (λ n. n.conn) fd ns (a.elsewhere i fd other)))
      ]

none-either :
    (x y : Bool) (o : Option ℕ) → o ≡ none → (if x then none else o) ≡ (if y then none else o)
none-either x y o e = ground arith

-- On a server with a sub-loop, after any events and with a clock that never goes back, where `last` is
-- the time of the last activity of each Connection in the map: the timer of a loop takes out of the
-- map the Connections of that loop that have been idle for the interval, and no other. A Connection is
-- active when it is made and when it reads, and it reads on its own loop.
pub handle_timer_lem :
    (n : ℕ) (c d : Bool) {s : Server} {time : ℕ → ℕ} {now : ℕ} (i interval : ℕ) (last : ℕ → ℕ)
    → 0 < n
    → Lives n c d s time now
    → ((fd conn : ℕ) → lookup fd s.client_connection_map ≡ some conn → last conn ≡ time fd)
    → (fd : ℕ)
    → lookup fd (handle_timer s i last now interval).0.client_connection_map ≡ (
        if (i == fd % s.threadsnums) && leb (time fd + interval) now
        then none
        else lookup fd s.client_connection_map)
unfolding handle_timer
handle_timer_lem n c d {s} {time} {now} i interval last pos r timed fd =
    let (a, b) = Lives-Descends n c d pos r in
    let (t, gone) = Recency.remove_timeout_connection (lock s last) now interval (s.psubloop i) in
    ap (λ (u : Server). lookup fd u.client_connection_map)
      (lookup-call_each remove_timeout_connection (λ w k. unfold remove_timeout_connection in refl)
        (record s { psubloop = update_loop s.psubloop i t }) gone)
    ∙ lookup-erase_all gone fd s.client_connection_map
    ∙ elim (Option-cases (lookup fd s.client_connection_map)) [
      | inl none_there ↦ none-either _ _ _ none_there
      | inr (conn, e) ↦
          ap (λ x. if x then none else lookup fd s.client_connection_map)
            (told s last time now i interval fd conn a b timed e)
    ]
