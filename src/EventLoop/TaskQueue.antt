-- ===== src/EventLoop/TaskQueue.antt =====
-- The tasks of an EventLoop (`addTask`, `handleWakeUp`, `stop` and `loop` of src/EventLoop.cpp) and
-- its eventfd (src/EventFd.cpp). The threads take turns between critical sections and system calls:
-- an event is what one of them does in one turn. The system calls `write` and `read` on the eventfd
-- are parameters, on the counter of the kernel.
pub mod Wakeup
pub mod Service
pub mod Stopping
mod Tests
use reactor_network_library.Prelude.{
  ℕ, ◌+◌, ◌-◌, ◌≡◌, Bool, true, false, Option, none, some, List, [], ◌∷◌, ◌++◌, arith, ltb, ◌==◌,
  if◌then◌else◌,
}

-- Where the thread of the loop is: at `epollwait`, in `handleWakeUp` between `wait` and the tasks, or
-- out of `loop`.
pub data Phase : Type 0 where
  polling woken ended : Phase

-- A task is a number, and `ran` has those that were run. `waking` counts the threads in `addTask` or
-- `stop` that have still to call `wakeup`.
pub record Loop : Type 0 where
  pub is_main_loop : Bool
  pub stop : Bool
  pub taskqueue : List ℕ
  pub ran : List ℕ
  pub counter : ℕ
  pub waking : ℕ
  pub phase : Phase

abbrev pub init : Bool → Loop
init is_main_loop = record {
  is_main_loop = is_main_loop;
  stop = false;
  taskqueue = [];
  ran = [];
  counter = 0;
  waking = 0;
  phase = polling;
}

-- The `while` loop of `handleWakeUp`: the tasks run from the front.
unfoldable pub run_tasks : List ℕ → List ℕ → List ℕ
run_tasks ran [] = ran
run_tasks ran (task ∷ queue) = run_tasks (ran ++ (task ∷ [])) queue

-- The test of the `while` loop of `loop`, after a round.
abbrev pub next_round : Bool → Phase
next_round stop = if stop then ended else polling

-- A thread pushes a task; one stores `m_stop`; one calls `wakeup`, which writes `val`. The loop's
-- thread finds the eventfd readable and reads it; runs the tasks; or comes back from `epollwait`
-- with nothing for it.
pub data Event : Type 0 where
  adds_task : ℕ → Event
  stops : Event
  wakes : ℕ → Event
  waits handles_tasks times_out : Event

module _ (write : ℕ → ℕ → ℕ) (read : ℕ → ℕ) where
  -- `none` is a turn that cannot come now.
  unfoldable pub step : Loop → Event → Option Loop
  step s (adds_task task) =
      some (record s { taskqueue = s.taskqueue ++ (task ∷ []); waking = s.waking + 1 })
  step s stops = some (record s { stop = true; waking = s.waking + 1 })
  step s (wakes val) =
      if s.waking == 0
      then none
      else some (record s { counter = write s.counter val; waking = s.waking - 1 })
  step s waits = elim s.phase [
    | polling ↦
        if s.counter == 0 then none else some (record s { counter = read s.counter; phase = woken })
    | woken ↦ none
    | ended ↦ none
  ]
  step s handles_tasks = elim s.phase [
    | polling ↦ none
    | woken ↦
        if s.is_main_loop
        then some (record s { phase = next_round s.stop })
        else some (record s {
          ran = run_tasks s.ran s.taskqueue;
          taskqueue = [];
          phase = next_round s.stop;
        })
    | ended ↦ none
  ]
  step s times_out = elim s.phase [
    | polling ↦ some (record s { phase = next_round s.stop })
    | woken ↦ none
    | ended ↦ none
  ]

  unfoldable pub run : Loop → List Event → Option Loop
  run s [] = some s
  run s (e ∷ es) = elim (step s e) [ none ↦ none | some t ↦ run t es ]
