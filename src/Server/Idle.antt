-- ===== src/Server/Idle.antt =====
-- The lists of the loops against the times of the last activity, and what the timer does at such a
-- server.
use reactor_network_library.Prelude.{
  ℕ, ◌%◌, ◌≡◌, refl, sym, ◌∙◌, inl, inr, true, false, none, some, List, arith, ◌==◌, lookup,
  Bool-cases, ==_refl, subst,
}
use reactor_network_library.EventLoop.Recency
use reactor_network_library.EventLoop.Recency.{Recency, Node, is_timeout}
use reactor_network_library.EventLoop.Recency.Index.{fds, elem-no_value}
use reactor_network_library.EventLoop.Recency.Order.{new_connection_lem, update_connection_lem}
use reactor_network_library.EventLoop.Recency.Deletion.{delete_connection_lem}
use reactor_network_library.EventLoop.Recency.Popped.{remove_popped}
use reactor_network_library.Server.{
  Server, Effect, update_loop, created, delete_connection, remove_timeout_connection, call_each,
  lock, handle_timer, end_round, touch,
}
use reactor_network_library.Server.Ownership.{Agrees, lookup-call_each}
use reactor_network_library.Server.Rounds.{lock-held}
use reactor_network_library.Server.Safety.{Event, accepts, active, closes, timer, ends}
use reactor_network_library.Server.Clock.{
  stamp, Descends, Descends-remove_all, Descends-keep, Descends-stamp, Descends-new,
  Descends-to_front,
}

-- Each list has the most recently active connection first, and no time is after `now`.
abbrev pub AllDescend : Server → (ℕ → ℕ) → ℕ → Type 0
AllDescend s time now = (i : ℕ) → Descends time now (fds (s.psubloop i).lruconnection)

pub update_loop-Descends :
    (time : ℕ → ℕ) (now i : ℕ) (t : Recency) (loops : ℕ → Recency)
    → Descends time now (fds t.lruconnection)
    → ((j : ℕ) → (i == j) ≡ false → Descends time now (fds (loops j).lruconnection))
    → (j : ℕ) → Descends time now (fds (update_loop loops i t j).lruconnection)
unfolding update_loop
update_loop-Descends time now i t loops d all j = elim (Bool-cases (i == j)) [
  | inl same ↦ rw same d
  | inr other ↦ rw other (all j other)
]

-- A descriptor of loop `i` is stamped; the other lists do not have it.
stamp-Descends :
    (s : Server) (time : ℕ → ℕ) (now i fd : ℕ)
    → Agrees s
    → AllDescend s time now
    → (i == fd % s.threadsnums) ≡ true
    → (j : ℕ) → (i == j) ≡ false
    → Descends (stamp fd now time) now (fds (s.psubloop j).lruconnection)
stamp-Descends s time now i fd a d mine j other =
    let apart : (j == fd % s.threadsnums) ≡ false = ground arith in
    Descends-stamp time now now fd _
      (elem-no_value (λ n. n.conn) fd (s.psubloop j).lruconnection (a.elsewhere j fd apart)) (d j)

pub created-Descends :
    (s : Server) (time : ℕ → ℕ) (now fd : ℕ)
    → Agrees s
    → lookup fd s.client_connection_map ≡ none
    → AllDescend s time now
    → AllDescend (created s fd) (stamp fd now time) now
unfolding created
created-Descends s time now fd a unused d =
    let i = fd % s.threadsnums in
    let absent =
      elem-no_value (λ n. n.conn) fd (s.psubloop i).lruconnection (a.owned fd ∙ unused) in
    let (valid, order, conns, delayed) = new_connection_lem fd s.next_conn (a.indexed i) absent in
    update_loop-Descends (stamp fd now time) now i _ s.psubloop
      (subst (Descends (stamp fd now time) now) (sym order)
        (Descends-new time now fd _ absent (d i)))
      (stamp-Descends s time now i fd a d (==_refl i))

-- A Connection runs on its own loop.
abbrev pub Runs : Server → Event → Type 0
Runs s (active i fd) = (i == fd % s.threadsnums) ≡ true
Runs s (accepts fd) = Unit {0}
Runs s (closes i fd) = Unit {0}
Runs s (timer i last now interval) = Unit {0}
Runs s (ends i) = Unit {0}

pub touch-Descends :
    (s : Server) (time : ℕ → ℕ) (now i fd : ℕ)
    → Agrees s
    → (i == fd % s.threadsnums) ≡ true
    → AllDescend s time now
    → (t : Server) × (touch s i fd ≡ some t) × AllDescend t (stamp fd now time) now
unfolding touch
touch-Descends s time now i fd a mine d =
    let (t, e, v, order, conns, same) = update_connection_lem fd (a.indexed i) in
    (
      record s { psubloop = update_loop s.psubloop i t },
      rw (e, touch) refl,
      update_loop-Descends (stamp fd now time) now i t s.psubloop
          (subst (Descends (stamp fd now time) now) (sym order)
            (Descends-to_front time now fd _ (a.indexed i).distinct (d i)))
          (stamp-Descends s time now i fd a d mine),
    )

pub handle_timer-Descends :
    (s : Server) (time : ℕ → ℕ) (now i : ℕ) (last : ℕ → ℕ) (t interval : ℕ)
    → Agrees s
    → AllDescend s time now
    → AllDescend (handle_timer s i last t interval).0 time now
unfolding handle_timer
handle_timer-Descends s time now i last t interval a d =
    let (u, gone) = Recency.remove_timeout_connection (lock s last) t interval (s.psubloop i) in
    let (kept, indexed, inside, delayed) =
      remove_popped (lock s last) t interval (s.psubloop i) (a.indexed i) (lock-held s last i a) in
    subst (λ w. AllDescend w time now)
      (sym (
        lookup-call_each remove_timeout_connection
          (λ w fd. unfold remove_timeout_connection in refl)
          (record s { psubloop = update_loop s.psubloop i u }) gone))
      (update_loop-Descends time now i u s.psubloop
        (subst (λ ns. Descends time now (fds ns)) (sym kept) (Descends-keep time now _ _ (d i)))
        (λ j other. d j))

pub end_round-Descends :
    (s : Server) (time : ℕ → ℕ) (now i : ℕ)
    → Agrees s
    → AllDescend s time now
    → (r : Server × List Effect) × (end_round s i ≡ some r) × AllDescend r.0 time now
unfolding end_round
end_round-Descends s time now i a d =
    let (t, e, indexed, order, emptied, conns) = delete_connection_lem (a.indexed i) in
    let gone = (s.psubloop i).delay_delete_connectionfd in
    (
      call_each delete_connection (record s { psubloop = update_loop s.psubloop i t }) gone,
      rw (e, end_round) refl,
      subst (λ w. AllDescend w time now)
          (sym (
            lookup-call_each delete_connection (λ u fd. unfold delete_connection in refl)
              (record s { psubloop = update_loop s.psubloop i t }) gone))
          (update_loop-Descends time now i t s.psubloop
            (subst (Descends time now) (sym order) (Descends-remove_all time now gone _ (d i)))
            (λ j other. d j)),
    )
