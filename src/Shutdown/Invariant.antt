-- ===== src/Shutdown/Invariant.antt =====
-- The tasks of the pool are loops of the server, and what `stop` has still to do is not done
-- (src/TcpServer.cpp).
use reactor_network_library.Prelude.{
  ℕ, zero, suc, ◌+◌, ◌≤◌, ◌<◌, ◌≡◌, inl, inr, refl, ◌∙◌, subst, Bool, true, false, Option, none,
  some, List, [], ◌∷◌, ◌++◌, arith, Bool-cases, get_elem?, replicate, length, length-append,
}
use reactor_network_library.ThreadPool
use reactor_network_library.ThreadPool.{ThreadPool, Worker, waiting, exited, runs, set_worker}
use reactor_network_library.Shutdown.{add_loops}

-- The numbers of loops that the pool has.
abbrev pub AllBelow : ℕ → List ℕ → Type 0
AllBelow n [] = Unit {0}
AllBelow n (x ∷ xs) = (x < n) × AllBelow n xs

abbrev pub IsWorkerBelow : ℕ → Worker → Type 0
IsWorkerBelow n waiting = Unit {0}
IsWorkerBelow n exited = Unit {0}
IsWorkerBelow n (runs j) = j < n

abbrev pub AllWorkersBelow : ℕ → List Worker → Type 0
AllWorkersBelow n [] = Unit {0}
AllWorkersBelow n (w ∷ ws) = IsWorkerBelow n w × AllWorkersBelow n ws

pub record IsOwn (n : ℕ) (p : ThreadPool) : Type 0 where
  pub queue : AllBelow n p.tasksqueue
  pub threads : AllWorkersBelow n p.threads
  pub few : length p.tasksqueue ≤ n
  pub size : length p.threads ≡ n

pub worker-IsWorkerBelow :
    (n : ℕ) (ws : List Worker) (i : ℕ) (w : Worker)
    → AllWorkersBelow n ws
    → get_elem? ws i ≡ some w
    → IsWorkerBelow n w
worker-IsWorkerBelow n [] i w a e = cc
worker-IsWorkerBelow n (v ∷ ws) zero w a e = subst (IsWorkerBelow n) (some-eq e) a.0
  where
    some-eq : {x y : Worker} → some x ≡ some y → x ≡ y
    some-eq q = cc
worker-IsWorkerBelow n (v ∷ ws) (suc i) w a e = worker-IsWorkerBelow n ws i w a.1 e

set_worker-AllWorkersBelow :
    (n : ℕ) (ws : List Worker) (i : ℕ) (w : Worker)
    → AllWorkersBelow n ws
    → IsWorkerBelow n w
    → AllWorkersBelow n (set_worker ws i w)
unfolding set_worker
set_worker-AllWorkersBelow n [] i w a b = tt
set_worker-AllWorkersBelow n (v ∷ ws) zero w a b = (b, a.1)
set_worker-AllWorkersBelow n (v ∷ ws) (suc i) w a b =
    (a.0, set_worker-AllWorkersBelow n ws i w a.1 b)

length-set_worker : (ws : List Worker) (i : ℕ) (w : Worker) → length (set_worker ws i w) ≡ length ws
unfolding set_worker
length-set_worker [] i w = refl
length-set_worker (v ∷ ws) zero w = refl
length-set_worker (v ∷ ws) (suc i) w = omega (arith, length-set_worker ws i w)

-- Whatever pool comes out, with `m_stop` as it was.
abbrev pub Owns : ℕ → Bool → Option ThreadPool → Type 0
Owns n stop out = (q : ThreadPool) → out ≡ some q → IsOwn n q × (q.stop ≡ stop)

Owns-some : (n : ℕ) {p : ThreadPool} → IsOwn n p → Owns n p.stop (some p)
Owns-some n {p} v q e = subst (λ r. IsOwn n r × (r.stop ≡ p.stop)) (some-eq e) (v, refl)
  where
    some-eq : {x y : ThreadPool} → some x ≡ some y → x ≡ y
    some-eq h = cc

Owns-none : (n : ℕ) (stop : Bool) → Owns n stop none
Owns-none n stop q e = cc

-- A worker changes its state, and the queue loses what it loses.
set-IsOwn :
    (n : ℕ) (p : ThreadPool) (i : ℕ) (w : Worker) (queue started : List ℕ) (stop : Bool)
    → IsOwn n p
    → IsWorkerBelow n w
    → AllBelow n queue
    → length queue ≤ n
    → IsOwn n (record {
      threads = set_worker p.threads i w;
      tasksqueue = queue;
      stop = stop;
      started = started;
    })
set-IsOwn n p i w queue started stop v b q h = record {
  queue = q;
  threads = set_worker-AllWorkersBelow n p.threads i w v.threads b;
  few = h;
  size = length-set_worker p.threads i w ∙ v.size;
}

take_task-Owns :
    (n : ℕ) (queue : List ℕ) (p : ThreadPool) (i : ℕ)
    → IsOwn n (record p { tasksqueue = queue })
    → Owns n p.stop (ThreadPool.take_task (record p { tasksqueue = queue }) i)
unfolding ThreadPool.take_task
take_task-Owns n [] p i v = elim (Bool-cases p.stop) [
  | inl stopping ↦ rw stopping (
      Owns-some n (
        set-IsOwn n (record p { tasksqueue = [] }) i exited [] p.started true v tt tt
          (omega arith)))
  | inr going ↦ rw going (Owns-none n false)
]
take_task-Owns n (task ∷ queue) p i v = elim (Bool-cases p.stop) [
  | inl stopping ↦ rw stopping (taken true)
  | inr going ↦ rw going (taken false)
]
  where
    taken :
        (stop : Bool)
        → Owns n stop (
            some (record {
              threads = set_worker p.threads i (runs task);
              tasksqueue = queue;
              stop = stop;
              started = p.started ++ (task ∷ []);
            }))
    taken stop = Owns-some n (
        set-IsOwn n (record p { tasksqueue = task ∷ queue }) i (runs task) queue
          (p.started ++ (task ∷ [])) stop v v.queue.0 v.queue.1 (omega (arith, v.few)))

pub turn-Owns : (n : ℕ) (p : ThreadPool) (i : ℕ) → IsOwn n p → Owns n p.stop (ThreadPool.turn p i)
unfolding ThreadPool.turn
turn-Owns n p i v = by_worker (get_elem? p.threads i) refl
  where
    by_worker :
        (o : Option Worker) → get_elem? p.threads i ≡ o → Owns n p.stop (ThreadPool.turn p i)
    by_worker none e = rw (e, ThreadPool.turn) (Owns-none n p.stop)
    by_worker (some waiting) e = rw (e, ThreadPool.turn) (take_task-Owns n p.tasksqueue p i v)
    by_worker (some (runs task)) e =
        rw (e, ThreadPool.turn)
          (Owns-some n (set-IsOwn n p i waiting p.tasksqueue p.started p.stop v tt v.queue v.few))
    by_worker (some exited) e = rw (e, ThreadPool.turn) (Owns-none n p.stop)

-- The pool of the constructor.
replicate-AllWorkersBelow : (n k : ℕ) → AllWorkersBelow n (replicate k waiting)
replicate-AllWorkersBelow n zero = tt
replicate-AllWorkersBelow n (suc k) = (tt, replicate-AllWorkersBelow n k)

length-replicate : (k : ℕ) → length (replicate k waiting) ≡ k
length-replicate zero = refl
length-replicate (suc k) = omega (arith, length-replicate k)

AllBelow-append : (n : ℕ) (xs ys : List ℕ) → AllBelow n xs → AllBelow n ys → AllBelow n (xs ++ ys)
AllBelow-append n [] ys a b = b
AllBelow-append n (x ∷ xs) ys a b = (a.0, AllBelow-append n xs ys a.1 b)

add_loops-IsOwn :
    (n k i : ℕ) (p : ThreadPool)
    → k + i ≡ n
    → length p.tasksqueue ≡ i
    → IsOwn n p
    → IsOwn n (add_loops k i p)
unfolding add_loops ThreadPool.add_task
add_loops-IsOwn n zero i p h q v = v
add_loops-IsOwn n (suc k) i p h q v =
    let longer = length-append p.tasksqueue (i ∷ []) in
    add_loops-IsOwn n k (i + 1) _ (omega arith) (omega (arith, longer)) (record {
      queue = AllBelow-append n p.tasksqueue (i ∷ []) v.queue (omega arith, tt);
      threads = v.threads;
      few = omega (arith, longer);
      size = v.size;
    })

pub start-IsOwn : (n : ℕ) → IsOwn n (add_loops n 0 (ThreadPool.create n))
unfolding ThreadPool.create
start-IsOwn n = add_loops-IsOwn n n 0 (ThreadPool.create n) (omega arith) refl (record {
  queue = tt;
  threads = replicate-AllWorkersBelow n n;
  few = omega arith;
  size = length-replicate n;
})
