-- ===== src/Shutdown/Tests.antt =====
-- A server with one sub-loop that is stopped while its thread is in `epollwait`.
use reactor_network_library.Prelude.{ℕ, ◌+◌, ◌≤◌, ◌≡◌, refl, none, some, List, [], ◌∷◌}
use reactor_network_library.EventLoop.TaskQueue
use reactor_network_library.EventLoop.TaskQueue.{polling, ended}
use reactor_network_library.ThreadPool
use reactor_network_library.ThreadPool.{runs, waiting}
use reactor_network_library.Shutdown.{
  Threads, start, Round, comes_back, Turn, works, acts, step, run,
}
use reactor_network_library.Shutdown.Left.{left}
use reactor_network_library.Shutdown.Ending.{io_thread, turn_of, counts, finished, stop_lem}

abbrev adds_up : ℕ → ℕ → ℕ
adds_up counter val = counter + val

abbrev reads_all : ℕ → ℕ
reads_all counter = 0

abbrev to_stop : List Turn
to_stop = works 0 comes_back ∷ acts ∷ acts ∷ acts ∷ []

abbrev run_of : List Turn → Threads → Threads
run_of ts s = elim (run adds_up reads_all s ts) [ none ↦ s | some t ↦ t ]

abbrev stopped : Threads
stopped = run_of to_stop (start 1)

abbrev later : Threads
later = run_of (works 0 comes_back ∷ []) stopped

stop_lem_example :
    (counts adds_up reads_all (works 0 comes_back ∷ []) + left 1 later ≤ 8)
    × ((r : Round) × (u : Threads) × (step adds_up reads_all later (turn_of (io_thread 0) r)
          ≡ some u)
        × (left 1 u + 1 ≤ left 1 later))
unfolding run step start ThreadPool.add_task ThreadPool.create ThreadPool.turn ThreadPool.set_worker
    TaskQueue.step ThreadPool.stop_pool finished
stop_lem_example =
    stop_lem adds_up reads_all 1 to_stop (works 0 comes_back ∷ []) (io_thread 0) refl refl refl refl
