-- ===== src/Shutdown/Turns.antt =====
-- The turns of the I/O threads of src/TcpServer.cpp, and of all threads but the one in `stop`.
use reactor_network_library.Prelude.{
  ℕ, ◌+◌, ◌≤◌, ◌<◌, ◌≡◌, ◌≢◌, refl, ap, ◌∙◌, true, Option, none, some, arith, get_elem?,
}
use reactor_network_library.EventLoop.TaskQueue.{
  Loop, Phase, polling, woken, ended, next_round, adds_task, wakes,
}
use reactor_network_library.ThreadPool
use reactor_network_library.ThreadPool.{ThreadPool, Worker, waiting, exited, runs}
use reactor_network_library.ThreadPool.Join.{turn_left}
use reactor_network_library.Shutdown.{
  Threads, StopAction, stops_main, stops_sub, stops_pool, set_loop, enter, Round, round_event, Turn,
  main_runs, works, acts, gives_task, wakes_sub, wakes_main, on_sub, takes, in_loop, step,
}
use reactor_network_library.Shutdown.Left.{
  phase_left, loops_left, left, loops_left-set_loop, loops_left-same, round_left, adds_phase,
  wakes_phase,
}
use reactor_network_library.Shutdown.Invariant.{IsOwn, turn-Owns, worker-IsWorkerBelow}
use reactor_network_library.Shutdown.Moves.{
  flag, Moved, Moves, Moves-some, Moves-none, set_loop-stop, on_sub-Moves, on_main-Moves,
}

module _ (write : ℕ → ℕ → ℕ) (read : ℕ → ℕ) where
  -- The end of a task, or the return of an I/O thread.
  pool-Moves :
      (n : ℕ) (s : Threads) (i : ℕ) (q : ThreadPool)
      → IsOwn n s.pool
      → ThreadPool.turn s.pool i ≡ some q
      → Moved n 1 s (record s { pool = q })
  unfolding left
  pool-Moves n s i q own e =
      let (owns, stop) = turn-Owns n s.pool i own q e in
      record {
        own = owns;
        flags = flags stop;
        stops_left = refl;
        less = λ stopping. omega (arith, (turn_left s.pool q i stopping.pool e).1);
      }
    where
      flags :
          q.stop ≡ s.pool.stop
          → (x : StopAction) → flag s x ≡ true
          → flag (record s { pool = q }) x ≡ true
      flags stop stops_main h = h
      flags stop stops_pool h = stop ∙ h
      flags stop (stops_sub k) h = h

  -- An I/O thread enters loop `j`.
  enters-Moved :
      (n : ℕ) (s : Threads) (i j : ℕ) (q : ThreadPool)
      → IsOwn n s.pool
      → ThreadPool.turn s.pool i ≡ some q
      → j < n
      → Moved n 1 s (record s { pool = q; subs = set_loop s.subs j (enter (s.subs j)) })
  unfolding left enter
  enters-Moved n s i j q own e below =
      let m = pool-Moves n s i q own e in
      record {
        own = m.own;
        flags = flags m.flags;
        stops_left = refl;
        less = λ stopping.
            let at_end : next_round (s.subs j).stop ≡ ended = rw (stopping.subs j below) refl in
            let fewer = loops_left-set_loop n j (enter (s.subs j)) s.subs below in
            omega (arith, m.less stopping, fewer, ap phase_left at_end);
      }
    where
      flags :
          ((x : StopAction) → flag s x ≡ true → flag (record s { pool = q }) x ≡ true)
          → (x : StopAction) → flag s x ≡ true
          → flag (record s { pool = q; subs = set_loop s.subs j (enter (s.subs j)) }) x ≡ true
      flags f stops_main h = h
      flags f stops_pool h = f stops_pool h
      flags f (stops_sub k) h = set_loop-stop write read s.subs j k (enter (s.subs j)) (λ x. x) h

  takes-Moves : (n : ℕ) (s : Threads) (i : ℕ) → IsOwn n s.pool → Moves n 1 s (takes write read s i)
  unfolding takes
  takes-Moves n s i own = by_pool (ThreadPool.turn s.pool i) refl
    where
      by_worker :
          (q : ThreadPool) (o : Option Worker)
          → ThreadPool.turn s.pool i ≡ some q
          → get_elem? q.threads i ≡ o
          → Moves n 1 s (takes write read s i)
      by_worker q none e f = rw (e, takes) (rw (f, takes) (Moves-none n 1))
      by_worker q (some waiting) e f = rw (e, takes) (rw (f, takes) (Moves-none n 1))
      by_worker q (some exited) e f =
          rw (e, takes) (rw (f, takes) (Moves-some n 1 (pool-Moves n s i q own e)))
      by_worker q (some (runs j)) e f =
          rw (e, takes)
            (rw (f, takes)
              (Moves-some n 1 (
                enters-Moved n s i j q own e (
                  worker-IsWorkerBelow n q.threads i (runs j)
                    (turn-Owns n s.pool i own q e).0.threads f))))

      by_pool :
          (o : Option ThreadPool)
          → ThreadPool.turn s.pool i ≡ o
          → Moves n 1 s (takes write read s i)
      by_pool none e = rw (e, takes) (Moves-none n 1)
      by_pool (some q) e = by_worker q (get_elem? q.threads i) e refl

  in_loop-Moves :
      (n : ℕ) (s : Threads) (i j : ℕ) (r : Round)
      → IsOwn n s.pool
      → j < n
      → Moves n 1 s (in_loop write read s i j r)
  unfolding in_loop
  in_loop-Moves n s i j r own below = by_phase (s.subs j).phase refl
    where
      rounds : Moves n 1 s (on_sub write read s j (round_event r))
      rounds = on_sub-Moves write read n 1 s j (round_event r) own λ l comes stopping. omega (
        arith,
        loops_left-set_loop n j l s.subs below,
        (round_left write read (s.subs j) l r (stopping.subs j below) comes).1,
      )

      by_pool :
          (o : Option ThreadPool)
          → ThreadPool.turn s.pool i ≡ o
          → (s.subs j).phase ≡ ended
          → Moves n 1 s (in_loop write read s i j r)
      by_pool none e end = rw (end, in_loop) (rw (e, in_loop) (Moves-none n 1))
      by_pool (some q) e end =
          rw (end, in_loop) (rw (e, in_loop) (Moves-some n 1 (pool-Moves n s i q own e)))

      by_phase : (p : Phase) → (s.subs j).phase ≡ p → Moves n 1 s (in_loop write read s i j r)
      by_phase polling e = rw (e, in_loop) rounds
      by_phase woken e = rw (e, in_loop) rounds
      by_phase ended e = by_pool (ThreadPool.turn s.pool i) refl e

  works-Moves :
      (n : ℕ) (s : Threads) (i : ℕ) (r : Round)
      → IsOwn n s.pool
      → Moves n 1 s (step write read s (works i r))
  unfolding step
  works-Moves n s i r own = by_worker (get_elem? s.pool.threads i) refl
    where
      by_worker :
          (o : Option Worker)
          → get_elem? s.pool.threads i ≡ o
          → Moves n 1 s (step write read s (works i r))
      by_worker none e = rw (e, step) (Moves-none n 1)
      by_worker (some waiting) e = rw (e, step) (takes-Moves n s i own)
      by_worker (some exited) e = rw (e, step) (Moves-none n 1)
      by_worker (some (runs j)) e =
          rw (e, step)
            (in_loop-Moves n s i j r own
              (worker-IsWorkerBelow n s.pool.threads i (runs j) own.threads e))

  -- The turns that count: those of the threads that are to end.
  abbrev pub count : Turn → ℕ
  count (main_runs r) = 1
  count (works i r) = 1
  count acts = 0
  count (gives_task j task) = 0
  count (wakes_sub j val) = 0
  count (wakes_main val) = 0

  same_phase :
      (n : ℕ) (s : Threads) (j : ℕ) (l : Loop)
      → l.phase ≡ (s.subs j).phase
      → 0 + loops_left n (set_loop s.subs j l) ≤ loops_left n s.subs
  same_phase n s j l h = omega (arith, loops_left-same n j l s.subs h)

  pub step-Moves :
      (n : ℕ) (s : Threads) (t : Turn)
      → IsOwn n s.pool
      → t ≢ acts
      → Moves n (count t) s (step write read s t)
  unfolding step
  step-Moves n s (main_runs r) own h =
      on_main-Moves write read n 1 s (round_event r) own
        λ l comes stopping. omega (arith, (round_left write read s.main l r stopping.main comes).1)
  step-Moves n s (works i r) own h = works-Moves n s i r own
  step-Moves n s acts own h = absurd (h refl)
  step-Moves n s (gives_task j task) own h =
      on_sub-Moves write read n 0 s j (adds_task task) own
        λ l comes stopping. same_phase n s j l (adds_phase write read (s.subs j) l task comes).0
  step-Moves n s (wakes_sub j val) own h =
      on_sub-Moves write read n 0 s j (wakes val) own
        λ l comes stopping. same_phase n s j l (wakes_phase write read (s.subs j) l val comes).0
  step-Moves n s (wakes_main val) own h =
      on_main-Moves write read n 0 s (wakes val) own λ l comes stopping.
        omega (arith, ap phase_left (wakes_phase write read s.main l val comes).0)
