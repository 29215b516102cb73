-- ===== src/EventLoop/TaskQueue/Service.antt =====
-- How many turns a task waits for.
use reactor_network_library.Prelude.{ℕ, ◌<◌, ◌≡◌, refl, false, some, [], ◌∷◌, arith, ◌==◌}
use reactor_network_library.EventLoop.TaskQueue.{
  polling, Loop, run_tasks, next_round, waits, handles_tasks, step, run,
}

module _ (write : ℕ → ℕ → ℕ) (read : ℕ → ℕ) where
  -- A sub-loop at `epollwait`.
  abbrev at_poll : Loop → Loop
  at_poll s = record s { is_main_loop = false; phase = polling }

  abbrev served : Loop → Loop
  served s = record s {
    is_main_loop = false;
    ran = run_tasks s.ran s.taskqueue;
    taskqueue = [];
    counter = read s.counter;
    phase = next_round s.stop;
  }

  not_zero : (n : ℕ) → 0 < n → (n == 0) ≡ false
  not_zero n h = ground arith

  serve :
      (s : Loop)
      → 0 < s.counter
      → run write read (at_poll s) (waits ∷ handles_tasks ∷ []) ≡ some (served s)
  unfolding run step
  serve s h = rw (not_zero s.counter h, run, step) refl
