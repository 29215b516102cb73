-- ===== src/EventLoop/TaskQueue/Tests.antt =====
-- A run of turns with an eventfd, and the instances of the theorems.
use reactor_network_library.Prelude.{
  ℕ, ◌+◌, ◌-◌, ◌^◌, ◌≡◌, refl, false, true, some, List, [], ◌∷◌, ◌++◌, arith, ltb, if◌then◌else◌,
}
use reactor_network_library.EventLoop.TaskQueue.{
  polling, Loop, init, run_tasks, Event, adds_task, wakes, waits, handles_tasks, step, run,
}
use reactor_network_library.EventLoop.TaskQueue.Wakeup.{Documented, added, AllSignal, run_fifo}

-- The counter of eventfd(2): a sum, unless it would be too large or the value is not counted.
abbrev fd_write : ℕ → ℕ → ℕ
fd_write c val = if ltb (c + val) (2 ^ 64 - 1) then c + val else c

abbrev fd_read : ℕ → ℕ
fd_read c = 0

fd_write-Documented : Documented fd_write
fd_write-Documented = record {
  keeps = λ c val. ground arith;
  signals = λ c val pos small. ground arith;
}

abbrev turns : List Event
turns = adds_task 5 ∷ adds_task 6 ∷ wakes 9 ∷ waits ∷ wakes 9 ∷ handles_tasks ∷ adds_task 7 ∷ []

turns-AllSignal : AllSignal turns
unfolding AllSignal
turns-AllSignal =
    (tt, (tt, ((omega arith, omega arith), (tt, ((omega arith, omega arith), (tt, (tt, tt)))))))

abbrev final : Loop
final = record {
  is_main_loop = false;
  stop = false;
  taskqueue = 7 ∷ [];
  ran = 5 ∷ 6 ∷ [];
  counter = 9;
  waking = 1;
  phase = polling;
}

turns-run : run fd_write fd_read (init false) turns ≡ some final
unfolding run step run_tasks
turns-run = refl

-- A write of 0 wakes nobody: the task waits, and nothing is on its way.
lost_wakeup :
    run fd_write fd_read (init false) (adds_task 5 ∷ wakes 0 ∷ [])
    ≡ some (record (init false) { taskqueue = 5 ∷ [] })
unfolding run step
lost_wakeup = refl

run_fifo_example : final.ran ++ final.taskqueue ≡ 5 ∷ 6 ∷ 7 ∷ []
unfolding added
run_fifo_example =
    run_fifo fd_write fd_read fd_write-Documented turns final turns-AllSignal turns-run

-- The main loop is told to stop; the thread that does so has not written to the eventfd yet.
abbrev told : Loop
told = record (init true) { stop = true; waking = 1 }
