-- ===== src/Shutdown/Bound.antt =====
-- How many turns the threads of src/TcpServer.cpp have left at most.
use reactor_network_library.Prelude.{ℕ, zero, suc, ◌+◌, ◌*◌, ◌≤◌, List, [], ◌∷◌, arith, length}
use reactor_network_library.EventLoop.TaskQueue.{Loop, Phase, polling, woken, ended}
use reactor_network_library.ThreadPool.{Worker, waiting, exited, runs}
use reactor_network_library.ThreadPool.Join.{total}
use reactor_network_library.Shutdown.{Threads}
use reactor_network_library.Shutdown.Left.{phase_left, loops_left, left}
use reactor_network_library.Shutdown.Invariant.{IsOwn}

phase_bound : (p : Phase) → phase_left p ≤ 2
phase_bound polling = omega arith
phase_bound woken = omega arith
phase_bound ended = omega arith

loops_bound : (n : ℕ) (subs : ℕ → Loop) → loops_left n subs ≤ 2 * n
unfolding loops_left
loops_bound zero subs = omega arith
loops_bound (suc k) subs = omega (arith, loops_bound k subs, phase_bound (subs k).phase)

total_bound : (ws : List Worker) → total ws ≤ 2 * length ws
unfolding total
total_bound [] = omega arith
total_bound (waiting ∷ ws) = omega (arith, total_bound ws)
total_bound (exited ∷ ws) = omega (arith, total_bound ws)
total_bound (runs j ∷ ws) = omega (arith, total_bound ws)

pub left_bound : (n : ℕ) (s : Threads) → IsOwn n s.pool → left n s ≤ 6 * n + 2
unfolding left
left_bound n s v = omega (
  arith,
  phase_bound s.main.phase,
  loops_bound n s.subs,
  total_bound s.pool.threads,
  v.few,
  v.size,
)
