-- ===== src/Shutdown.antt =====
-- The threads of a TcpServer from its constructor to the end of `stop` (src/TcpServer.cpp): the main
-- thread in `start`, the I/O threads of src/ThreadPool.cpp, each running `loop` of a sub-loop
-- (src/EventLoop.cpp), and the thread that calls `stop`. They take turns. A wake-up of an eventfd may
-- come later than in the code. `write` and `read` are the system calls on an eventfd.
pub mod Left
pub mod Invariant
pub mod Moves
pub mod Turns
pub mod Bound
pub mod Orders
pub mod Ending
mod Tests
use reactor_network_library.Prelude.{
  ℕ, zero, suc, ◌+◌, ◌≡◌, Bool, true, false, Option, none, some, List, [], ◌∷◌, ◌++◌, ◌==◌,
  if◌then◌else◌, get_elem?, replicate,
}
use reactor_network_library.EventLoop.TaskQueue
use reactor_network_library.EventLoop.TaskQueue.{
  Loop, Phase, polling, woken, ended, next_round, waits, handles_tasks, times_out, adds_task, wakes,
  stops,
}
use reactor_network_library.ThreadPool
use reactor_network_library.ThreadPool.{ThreadPool, Worker, waiting, exited, runs}

-- What `stop` does, in order, before it joins the threads.
pub data StopAction : Type 0 where
  stops_main stops_pool : StopAction
  stops_sub : ℕ → StopAction

-- The loops `m_psubloop[j]`; a task of the pool is the number of the loop that it runs.
pub record Threads : Type 0 where
  pub main : Loop
  pub subs : ℕ → Loop
  pub pool : ThreadPool
  pub stops_left : List StopAction

unfoldable pub set_loop : (ℕ → Loop) → ℕ → Loop → ℕ → Loop
set_loop subs j l k = if j == k then l else subs k

-- The `AddTask` calls of the constructor, for the loops from `i` on.
unfoldable pub add_loops : ℕ → ℕ → ThreadPool → ThreadPool
add_loops zero i p = p
add_loops (suc k) i p = add_loops k (i + 1) (ThreadPool.add_task p i)

-- `stop` of the main loop, of each sub-loop from `i` on, and of the pool.
unfoldable pub sub_stops : ℕ → ℕ → List StopAction
sub_stops zero i = stops_pool ∷ []
sub_stops (suc k) i = stops_sub i ∷ sub_stops k (i + 1)

unfoldable pub start : ℕ → Threads
unfolding add_loops sub_stops
start n = record {
  main = TaskQueue.init true;
  subs = λ j. TaskQueue.init false;
  pool = add_loops n 0 (ThreadPool.create n);
  stops_left = stops_main ∷ sub_stops n 0;
}

-- What the thread of a loop may do next: find its eventfd readable, run the tasks, or come back from
-- `epollwait` otherwise, after 10 ms at the latest.
pub data Round : Type 0 where
  is_woken runs_tasks comes_back : Round

abbrev pub round_event : Round → TaskQueue.Event
round_event is_woken = waits
round_event runs_tasks = handles_tasks
round_event comes_back = times_out

-- A turn: the main thread in its loop; I/O thread `i`, in the pool or in the loop that it runs; the
-- thread in `stop`; and any thread that gives sub-loop `j` a task or writes to an eventfd.
pub data Turn : Type 0 where
  main_runs : Round → Turn
  works : ℕ → Round → Turn
  acts : Turn
  gives_task wakes_sub : ℕ → ℕ → Turn
  wakes_main : ℕ → Turn

-- A thread that took a task is in `loop`, at the test of `m_stop`.
unfoldable pub enter : Loop → Loop
enter l = record l { phase = next_round l.stop }

module _ (write : ℕ → ℕ → ℕ) (read : ℕ → ℕ) where
  unfoldable pub on_sub : Threads → ℕ → TaskQueue.Event → Option Threads
  unfolding set_loop
  on_sub s j e = elim (TaskQueue.step write read (s.subs j) e) [
    | none ↦ none
    | some l ↦ some (record s { subs = set_loop s.subs j l })
  ]

  unfoldable pub on_main : Threads → TaskQueue.Event → Option Threads
  on_main s e = elim (TaskQueue.step write read s.main e) [
    | none ↦ none
    | some l ↦ some (record s { main = l })
  ]

  -- An I/O thread that waits takes a task and enters its loop, or returns from the pool.
  unfoldable pub takes : Threads → ℕ → Option Threads
  unfolding set_loop enter
  takes s i = elim (ThreadPool.turn s.pool i) [
    | none ↦ none
    | some p ↦ elim (get_elem? p.threads i) [
      | none ↦ none
      | some waiting ↦ none
      | some exited ↦ some (record s { pool = p })
      | some (runs j) ↦ some (record s { pool = p; subs = set_loop s.subs j (enter (s.subs j)) })
    ]
  ]

  -- An I/O thread in the loop that it runs: the task ends when `loop` has returned.
  unfoldable pub in_loop : Threads → ℕ → ℕ → Round → Option Threads
  unfolding on_sub
  in_loop s i j r = elim (s.subs j).phase [
    | ended ↦ elim (ThreadPool.turn s.pool i) [
      | none ↦ none
      | some p ↦ some (record s { pool = p })
    ]
    | polling ↦ on_sub s j (round_event r)
    | woken ↦ on_sub s j (round_event r)
  ]

  unfoldable pub act : Threads → StopAction → Option Threads
  unfolding on_sub on_main
  act s stops_main = on_main s stops
  act s (stops_sub j) = on_sub s j stops
  act s stops_pool = some (record s { pool = ThreadPool.stop_pool s.pool })

  -- `none` is a turn that cannot come now.
  unfoldable pub step : Threads → Turn → Option Threads
  unfolding on_sub on_main takes in_loop act
  step s (main_runs r) = on_main s (round_event r)
  step s (works i r) = elim (get_elem? s.pool.threads i) [
    | none ↦ none
    | some waiting ↦ takes s i
    | some exited ↦ none
    | some (runs j) ↦ in_loop s i j r
  ]
  step s acts = elim s.stops_left [ [] ↦ none | a ∷ left ↦ act (record s { stops_left = left }) a ]
  step s (gives_task j task) = on_sub s j (adds_task task)
  step s (wakes_sub j val) = on_sub s j (wakes val)
  step s (wakes_main val) = on_main s (wakes val)

  unfoldable pub run : Threads → List Turn → Option Threads
  run s [] = some s
  run s (t ∷ ts) = elim (step s t) [ none ↦ none | some u ↦ run u ts ]
