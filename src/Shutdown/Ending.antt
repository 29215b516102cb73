-- ===== src/Shutdown/Ending.antt =====
-- The end of the threads of src/TcpServer.cpp after `stop`.
use reactor_network_library.Prelude.{
  ℕ, zero, suc, ◌+◌, ◌*◌, ◌≤◌, ◌≡◌, ◌≢◌, ◌⊎◌, inl, inr, refl, sym, ◌∙◌, subst, Bool, true, false,
  Option, none, some, List, [], ◌∷◌, ◌++◌, arith, Option-cases, get_elem?,
}
use reactor_network_library.EventLoop.TaskQueue.{Phase, polling, woken, ended}
use reactor_network_library.ThreadPool
use reactor_network_library.ThreadPool.{ThreadPool, Worker, waiting, exited, runs}
use reactor_network_library.ThreadPool.Join.{alive-Progress}
use reactor_network_library.Shutdown.{
  Threads, set_loop, enter, start, Round, round_event, is_woken, Turn, main_runs, works, acts,
  gives_task, wakes_sub, wakes_main, on_sub, on_main, takes, in_loop, step, run,
}
use reactor_network_library.Shutdown.Left.{left, next_round_lem}
use reactor_network_library.Shutdown.Moves.{IsStopping, some-eq}
use reactor_network_library.Shutdown.Turns.{count, step-Moves}
use reactor_network_library.Shutdown.Orders.{
  IsOrderly, start-IsOrderly, step-Orders, run-Orders, orderly-IsStopping,
}
use reactor_network_library.Shutdown.Bound.{left_bound}

-- The threads that are to end: the one in `start`, and those of the pool.
pub data Thread : Type 0 where
  main_thread : Thread
  io_thread : ℕ → Thread

abbrev pub turn_of : Thread → Round → Turn
turn_of main_thread r = main_runs r
turn_of (io_thread i) r = works i r

-- `loop` of the main loop has returned; the I/O thread has, or there is none.
unfoldable pub finished : Threads → Thread → Bool
finished s main_thread = elim s.main.phase [ polling ↦ false | woken ↦ false | ended ↦ true ]
finished s (io_thread i) = elim (get_elem? s.pool.threads i) [
  | none ↦ true
  | some waiting ↦ false
  | some exited ↦ true
  | some (runs j) ↦ false
]

get_elem?-set_worker :
    (ws : List Worker) (i : ℕ) (v w : Worker)
    → get_elem? ws i ≡ some v
    → get_elem? (ThreadPool.set_worker ws i w) i ≡ some w
unfolding ThreadPool.set_worker
get_elem?-set_worker [] i v w e = cc
get_elem?-set_worker (x ∷ ws) zero v w e = refl
get_elem?-set_worker (x ∷ ws) (suc i) v w e = get_elem?-set_worker ws i v w e

Turn-cases : (t : Turn) → (t ≡ acts) ⊎ (t ≢ acts)
Turn-cases (main_runs r) = inr λ e. cc
Turn-cases (works i r) = inr λ e. cc
Turn-cases acts = inl refl
Turn-cases (gives_task j task) = inr λ e. cc
Turn-cases (wakes_sub j val) = inr λ e. cc
Turn-cases (wakes_main val) = inr λ e. cc

module _ (write : ℕ → ℕ → ℕ) (read : ℕ → ℕ) where
  -- The turns of the threads that are to end, among these.
  abbrev pub counts : List Turn → ℕ
  counts [] = 0
  counts (t ∷ ts) = count write read t + counts ts

  no_act : (s : Threads) → s.stops_left ≡ [] → step write read s acts ≡ none
  unfolding step
  no_act s e = rw (e, step) refl

  -- After the actions of `stop`, every turn that counts is one of those left.
  run_left :
      (n : ℕ) (ts : List Turn) (s t : Threads)
      → IsOrderly n s
      → s.stops_left ≡ []
      → run write read s ts ≡ some t
      → (counts ts + left n t ≤ left n s) × IsOrderly n t × (t.stops_left ≡ [])
  unfolding run
  run_left n [] s t v e h =
      subst (λ u. (0 + left n u ≤ left n s) × IsOrderly n u × (u.stops_left ≡ [])) (some-eq h)
        (omega arith, v, e)
  run_left n (x ∷ ts) s t v e h = elim (Option-cases (step write read s x)) [
    | inl never ↦ cc (rw (never, run) at h)
    | inr (u, comes) ↦ elim (Turn-cases x) [
      | inl acting ↦ cc (no_act s e, subst (λ y. step write read s y ≡ some u) acting comes)
      | inr other ↦
          let m = step-Moves write read n s x v.own other u comes in
          let (fewer, w, f) =
            run_left n ts u t (step-Orders write read n s x v u comes) (m.stops_left ∙ e)
              (rw (comes, run) at h) in
          (omega (arith, fewer, m.less (orderly-IsStopping write read n s v e)), w, f)
    ]
  ]

  abbrev Comes : Threads → Thread → Type 0
  Comes s x = (r : Round) × (u : Threads) × (step write read s (turn_of x r) ≡ some u)

  -- A waiting thread of a pool that stops takes a task or returns.
  takes_at :
      (queue : List ℕ) (s : Threads) (i : ℕ)
      → get_elem? s.pool.threads i ≡ some waiting
      → (u : Threads) × (takes write read
            (record s { pool = record s.pool { stop = true; tasksqueue = queue } })
            i
          ≡ some u)
  unfolding takes ThreadPool.turn ThreadPool.take_task
  takes_at [] s i h =
      let q = record s.pool {
        stop = true;
        tasksqueue = [];
        threads = ThreadPool.set_worker s.pool.threads i exited;
      } in
      let turns : ThreadPool.turn (record s.pool { stop = true; tasksqueue = [] }) i ≡ some q =
        rw (h, ThreadPool.turn) refl in
      (
        record s { pool = q },
        rw (turns, takes) (rw (get_elem?-set_worker s.pool.threads i waiting exited h, takes) refl),
      )
  takes_at (j ∷ queue) s i h =
      let q = record s.pool {
        stop = true;
        tasksqueue = queue;
        threads = ThreadPool.set_worker s.pool.threads i (runs j);
        started = s.pool.started ++ (j ∷ []);
      } in
      let turns : ThreadPool.turn (record s.pool { stop = true; tasksqueue = j ∷ queue }) i
          ≡ some q =
        rw (h, ThreadPool.turn) refl in
      (
        record s { pool = q; subs = set_loop s.subs j (enter (s.subs j)) },
        rw (turns, takes)
            (rw (get_elem?-set_worker s.pool.threads i waiting (runs j) h, takes) refl),
      )

  in_loop_at :
      (n : ℕ) (s : Threads) (i j : ℕ)
      → IsStopping n s
      → get_elem? s.pool.threads i ≡ some (runs j)
      → (r : Round) × (u : Threads) × (in_loop write read s i j r ≡ some u)
  unfolding in_loop on_sub
  in_loop_at n s i j v h = by_phase (s.subs j).phase refl
    where
      rounds :
          (p : Phase)
          → (s.subs j).phase ≡ p
          → p ≢ ended
          → (r : Round) × (u : Threads) × (on_sub write read s j (round_event r) ≡ some u)
      rounds p e alive =
          let (r, l, comes) = next_round_lem write read (s.subs j) (λ q. alive (sym e ∙ q)) in
          (r, record s { subs = set_loop s.subs j l }, rw (comes, on_sub) refl)

      by_phase :
          (p : Phase)
          → (s.subs j).phase ≡ p
          → (r : Round) × (u : Threads) × (in_loop write read s i j r ≡ some u)
      by_phase polling e =
          let (r, u, comes) = rounds polling e (λ q. cc) in (r, u, rw (e, in_loop) comes)
      by_phase woken e =
          let (r, u, comes) = rounds woken e (λ q. cc) in (r, u, rw (e, in_loop) comes)
      by_phase ended e =
          let (q, comes, stopped, fewer) = alive-Progress (runs j) s.pool i v.pool h (λ x. cc) in
          (is_woken, record s { pool = q }, rw (e, in_loop) (rw (comes, in_loop) refl))

  next_turn : (n : ℕ) (s : Threads) (x : Thread) → IsStopping n s → finished s x ≡ false → Comes s x
  unfolding finished step on_main
  next_turn n s main_thread v h =
      let (r, l, comes) = next_round_lem write read s.main (λ q. cc (rw (q, finished) at h)) in
      (r, record s { main = l }, rw (comes, on_main) refl)
  next_turn n s (io_thread i) v h = by_worker (get_elem? s.pool.threads i) refl
    where
      by_worker : (o : Option Worker) → get_elem? s.pool.threads i ≡ o → Comes s (io_thread i)
      by_worker none e = cc (rw (e, finished) at h)
      by_worker (some exited) e = cc (rw (e, finished) at h)
      by_worker (some waiting) e =
          let (u, comes) = takes_at s.pool.tasksqueue s i e in
          (
            is_woken,
            u,
            rw (e, step)
                (subst
                  (λ b.
                    takes write read (record s { pool = record s.pool { stop = b } }) i ≡ some u)
                  (sym v.pool) comes),
          )
      by_worker (some (runs j)) e =
          let (r, u, comes) = in_loop_at n s i j v e in (r, u, rw (e, step) comes)

  count-turn_of : (x : Thread) (r : Round) → count write read (turn_of x r) ≡ 1
  count-turn_of main_thread r = refl
  count-turn_of (io_thread i) r = refl

  turn_of-ne-acts : (x : Thread) (r : Round) → turn_of x r ≢ acts
  turn_of-ne-acts main_thread r = λ e. cc
  turn_of-ne-acts (io_thread i) r = λ e. cc

  -- A server with `n` sub-loops, after any turns of its threads, in which `stop` has done all that it
  -- does before it joins, and any further turns. The main thread and the I/O threads have taken at most
  -- 6 n + 2 of these. A thread that is not finished is not stuck: it has a turn, and then fewer are
  -- left. So all of them end, and each `join` with them, with no need of a wake-up.
  pub stop_lem :
      (n : ℕ) (ts us : List Turn) {s t : Threads} (x : Thread)
      → run write read (start n) ts ≡ some s
      → s.stops_left ≡ []
      → run write read s us ≡ some t
      → finished t x ≡ false
      → (counts us + left n t ≤ 6 * n + 2)
        × ((r : Round) × (u : Threads) × (step write read t (turn_of x r) ≡ some u)
            × (left n u + 1 ≤ left n t))
  stop_lem n ts us {s} {t} x h e k alive =
      let v = run-Orders write read n ts (start n) (start-IsOrderly n) s h in
      let (fewer, w, f) = run_left n us s t v e k in
      let stopping = orderly-IsStopping write read n t w f in
      let (r, u, comes) = next_turn n t x stopping alive in
      let m = step-Moves write read n t (turn_of x r) w.own (turn_of-ne-acts x r) u comes in
      (
        omega (arith, fewer, left_bound n s v.own),
        (r, u, comes, omega (arith, m.less stopping, count-turn_of x r)),
      )
