-- ===== src/ThreadPool/Tests.antt =====
-- A pool of two threads, and the instances of the theorems.
use reactor_network_library.Prelude.{ℕ, ◌+◌, ◌≡◌, refl, true, false, some, List, [], ◌∷◌, ◌++◌}
use reactor_network_library.ThreadPool.{
  waiting, exited, runs, ThreadPool, create, Event, adds, stops, turns, step, run, turn, take_task,
  add_task, stop_pool, set_worker,
}
use reactor_network_library.ThreadPool.Order.{has_exited, early, late}
use reactor_network_library.ThreadPool.Fairness.{run_fair, run_complete}
use reactor_network_library.ThreadPool.Join.{turns_left, run_turns, run_turns_lem}

-- Two tasks, a stop, one more task; thread 1 returns in the end.
abbrev calls : List Event
calls =
    adds 7
    ∷ adds 8
    ∷ turns 0
    ∷ stops
    ∷ turns 1
    ∷ adds 9
    ∷ turns 1
    ∷ turns 0
    ∷ turns 0
    ∷ turns 1
    ∷ []

abbrev final : ThreadPool
final = record {
  threads = runs 9 ∷ exited ∷ [];
  tasksqueue = [];
  stop = true;
  started = 7 ∷ 8 ∷ 9 ∷ [];
}

calls-run : run (create 2) calls ≡ some final
unfolding run step turn take_task add_task stop_pool set_worker create
calls-run = refl

run_fair_example : final.started ++ final.tasksqueue ≡ 7 ∷ 8 ∷ 9 ∷ []
unfolding early late
run_fair_example = run_fair 2 calls final calls-run

run_complete_example :
    (final.stop ≡ true) × ((waits : List ℕ) × (final.started ≡ early false calls ++ waits))
unfolding has_exited
run_complete_example = run_complete 2 calls final calls-run refl

-- One thread runs a task, one waits, and a task is in the queue when the pool is stopped.
abbrev stopped : ThreadPool
stopped = record {
  threads = runs 7 ∷ waiting ∷ [];
  tasksqueue = 8 ∷ [];
  stop = true;
  started = 7 ∷ [];
}

abbrev later : ThreadPool
later = record {
  threads = runs 7 ∷ runs 8 ∷ [];
  tasksqueue = [];
  stop = true;
  started = 7 ∷ 8 ∷ [];
}

one_turn : run_turns stopped (1 ∷ []) ≡ some later
unfolding run_turns turn take_task set_worker
one_turn = refl

run_turns_lem_example :
    (r : ThreadPool) × (turn later 0 ≡ some r)
    × (1 + turns_left later ≡ turns_left stopped)
    × (turns_left r + 1 ≡ turns_left later)
run_turns_lem_example =
    run_turns_lem (1 ∷ []) stopped later 0 (runs 7) refl one_turn refl (λ e. cc e)
