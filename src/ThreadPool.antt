-- ===== src/ThreadPool.antt =====
-- src/ThreadPool.cpp and src/include/ThreadPool.h: workers that take tasks from one queue. Threads
-- take turns: a turn of a worker is its critical section, or the end of the task that it runs.
pub mod Order
pub mod Fairness
pub mod Join
mod Tests
use reactor_network_library.Prelude.{
  ℕ, zero, suc, ◌+◌, ◌≡◌, Bool, true, false, ◌&&◌, Option, none, some, List, [], ◌∷◌, ◌++◌,
  get_elem?, replicate, is_empty, if◌then◌else◌,
}

-- A worker waits for a task, runs one, or has returned.
pub data Worker : Type 0 where
  waiting exited : Worker
  runs : ℕ → Worker

-- A task is a number; `started` has those that were taken from the queue, in order.
pub record ThreadPool : Type 0 where
  pub threads : List Worker
  pub tasksqueue : List ℕ
  pub stop : Bool
  pub started : List ℕ

unfoldable pub create : ℕ → ThreadPool
create num = record { threads = replicate num waiting; tasksqueue = []; stop = false; started = [] }

unfoldable pub add_task : ThreadPool → ℕ → ThreadPool
add_task p task = record p { tasksqueue = p.tasksqueue ++ (task ∷ []) }

-- What `stop` does before it joins the threads.
unfoldable pub stop_pool : ThreadPool → ThreadPool
stop_pool p = record p { stop = true }

-- The thread at a place of the vector becomes `w`.
unfoldable pub set_worker : List Worker → ℕ → Worker → List Worker
set_worker [] i w = []
set_worker (v ∷ vs) zero w = w ∷ vs
set_worker (v ∷ vs) (suc i) w = v ∷ set_worker vs i w

-- The critical section of worker `i`. With nothing to take and no stop it keeps waiting: `none`.
unfoldable pub take_task : ThreadPool → ℕ → Option ThreadPool
take_task p i =
    if p.stop && is_empty p.tasksqueue
    then some (record p { threads = set_worker p.threads i exited })
    else (elim p.tasksqueue [
      | [] ↦ none
      | task ∷ queue ↦ some (record p {
        threads = set_worker p.threads i (runs task);
        tasksqueue = queue;
        started = p.started ++ (task ∷ []);
      })
    ])

-- A turn of worker `i`; `none` where it has none.
unfoldable pub turn : ThreadPool → ℕ → Option ThreadPool
unfolding take_task
turn p i = elim (get_elem? p.threads i) [
  | none ↦ none
  | some waiting ↦ take_task p i
  | some (runs task) ↦ some (record p { threads = set_worker p.threads i waiting })
  | some exited ↦ none
]

pub data Event : Type 0 where
  adds : ℕ → Event
  stops : Event
  turns : ℕ → Event

unfoldable pub step : ThreadPool → Event → Option ThreadPool
unfolding add_task stop_pool turn
step p (adds task) = some (add_task p task)
step p stops = some (stop_pool p)
step p (turns i) = turn p i

unfoldable pub run : ThreadPool → List Event → Option ThreadPool
unfolding step
run p [] = some p
run p (e ∷ es) = elim (step p e) [ none ↦ none | some q ↦ run q es ]
