-- ===== src/ThreadPool/Order.antt =====
-- The order of the tasks, and when a thread returns.
use reactor_network_library.Prelude.{
  ℕ, zero, suc, ◌≤◌, ◌≡◌, refl, sym, ap, ◌∙◌, subst, Bool, true, false, ◌||◌, Option, none, some,
  List, [], ◌∷◌, ◌++◌, arith, get_elem?, replicate, length, length-append, append_assoc, append-nil,
}
use reactor_network_library.ThreadPool.{
  Worker, waiting, exited, runs, ThreadPool, create, add_task, stop_pool, set_worker, take_task,
  turn, Event, adds, stops, turns,
}

abbrev pub is_exited : Worker → Bool
is_exited waiting = false
is_exited exited = true
is_exited (runs task) = false

unfoldable pub has_exited : List Worker → Bool
has_exited [] = false
has_exited (w ∷ ws) = is_exited w || has_exited ws

-- What an event adds before the first `stop`, what it adds after it, and whether `stop` was called
-- then.
abbrev pub early_by : Bool → Event → List ℕ
early_by false (adds task) = task ∷ []
early_by true (adds task) = []
early_by stopped stops = []
early_by stopped (turns i) = []

abbrev pub late_by : Bool → Event → List ℕ
late_by false (adds task) = []
late_by true (adds task) = task ∷ []
late_by stopped stops = []
late_by stopped (turns i) = []

abbrev pub stopped_by : Bool → Event → Bool
stopped_by stopped (adds task) = stopped
stopped_by stopped stops = true
stopped_by stopped (turns i) = stopped

unfoldable pub early : Bool → List Event → List ℕ
early stopped [] = []
early stopped (e ∷ es) = early_by stopped e ++ early (stopped_by stopped e) es

unfoldable pub late : Bool → List Event → List ℕ
late stopped [] = []
late stopped (e ∷ es) = late_by stopped e ++ late (stopped_by stopped e) es

has_exited-set_worker :
    (ws : List Worker) (i : ℕ) (w : Worker)
    → has_exited (set_worker ws i w) ≡ true
    → (is_exited w || has_exited ws) ≡ true
unfolding has_exited set_worker
has_exited-set_worker [] i w h = cc
has_exited-set_worker (v ∷ ws) zero w h = ground arith
has_exited-set_worker (v ∷ ws) (suc i) w h = grind (arith, has_exited-set_worker ws i w)

has_exited-create : (n : ℕ) → has_exited (replicate n waiting) ≡ false
unfolding has_exited
has_exited-create zero = refl
has_exited-create (suc n) = has_exited-create n

-- `e` and `l` are the tasks added before and after `stop`.
pub record IsFair (p : ThreadPool) (e l : List ℕ) : Type 0 where
  pub fifo : p.started ++ p.tasksqueue ≡ e ++ l
  pub open_still : p.stop ≡ false → l ≡ []
  pub complete : has_exited p.threads ≡ true → (p.stop ≡ true) × (length e ≤ length p.started)

pub some-eq {ℓ} : {A : Type ℓ} {x y : A} → some x ≡ some y → x ≡ y
some-eq e = cc

start-IsFair :
    (p : ThreadPool) (i task : ℕ) (queue : List ℕ) {e l : List ℕ}
    → IsFair (record p { tasksqueue = task ∷ queue }) e l
    → IsFair
        (record p {
          threads = set_worker p.threads i (runs task);
          tasksqueue = queue;
          started = p.started ++ (task ∷ []);
        })
        e
        l
start-IsFair p i task queue v = record {
  fifo = append_assoc p.started (task ∷ []) queue ∙ v.fifo;
  open_still = v.open_still;
  complete = λ some_exited.
      let (stopped, n) = v.complete (has_exited-set_worker p.threads i (runs task) some_exited) in
      (stopped, omega (arith, n, length-append p.started (task ∷ [])));
}

exit-IsFair :
    (p : ThreadPool) (i : ℕ) {e l : List ℕ}
    → IsFair (record p { tasksqueue = []; stop = true }) e l
    → IsFair
        (record p { tasksqueue = []; stop = true; threads = set_worker p.threads i exited })
        e
        l
exit-IsFair p i {e} {l} v = record {
  fifo = v.fifo;
  open_still = v.open_still;
  complete = λ some_exited.
      (refl, omega (arith, ap length v.fifo, length-append p.started [], length-append e l));
}

take-IsFair :
    (queue : List ℕ) (stopped : Bool) (p q : ThreadPool) (i : ℕ) {e l : List ℕ}
    → IsFair (record p { tasksqueue = queue; stop = stopped }) e l
    → take_task (record p { tasksqueue = queue; stop = stopped }) i ≡ some q
    → IsFair q e l
unfolding take_task
take-IsFair [] true p q i {e} {l} v h = subst (λ r. IsFair r e l) (some-eq h) (exit-IsFair p i v)
take-IsFair [] false p q i v h = cc
take-IsFair (task ∷ queue) true p q i {e} {l} v h =
    subst (λ r. IsFair r e l) (some-eq h) (start-IsFair (record p { stop = true }) i task queue v)
take-IsFair (task ∷ queue) false p q i {e} {l} v h =
    subst (λ r. IsFair r e l) (some-eq h) (start-IsFair (record p { stop = false }) i task queue v)

pub turn-IsFair :
    (w : Option Worker) (p q : ThreadPool) (i : ℕ) {e l : List ℕ}
    → get_elem? p.threads i ≡ w
    → IsFair p e l
    → turn p i ≡ some q
    → IsFair q e l
unfolding turn
turn-IsFair none p q i found v h = cc (rw (found, turn) at h)
turn-IsFair (some waiting) p q i found v h =
    take-IsFair p.tasksqueue p.stop p q i v (rw (found, turn) at h)
turn-IsFair (some exited) p q i found v h = cc (rw (found, turn) at h)
turn-IsFair (some (runs task)) p q i {e} {l} found v h =
    subst (λ r. IsFair r e l) (some-eq (rw (found, turn) at h))
      (record {
        fifo = v.fifo;
        open_still = v.open_still;
        complete =
            λ some_exited. v.complete (has_exited-set_worker p.threads i waiting some_exited);
      })

pub stop-IsFair : {p : ThreadPool} {e l : List ℕ} → IsFair p e l → IsFair (stop_pool p) e l
unfolding stop_pool
stop-IsFair v = record {
  fifo = v.fifo;
  open_still = λ never. absurd (cc never);
  complete = λ some_exited. (refl, (v.complete some_exited).1);
}

pub add_open-IsFair :
    (p : ThreadPool) (task : ℕ) {e l : List ℕ}
    → p.stop ≡ false
    → IsFair p e l
    → IsFair (add_task p task) (e ++ (task ∷ [])) l
unfolding add_task
add_open-IsFair p task {e} {l} s v = record {
  fifo =
      sym (append_assoc p.started p.tasksqueue (task ∷ []))
      ∙ ap (λ u. u ++ (task ∷ [])) (v.fifo ∙ ap (λ u. e ++ u) (v.open_still s) ∙ append-nil e)
      ∙ sym (ap (λ u. e ++ (task ∷ []) ++ u) (v.open_still s) ∙ append-nil _);
  open_still = v.open_still;
  complete = λ some_exited. absurd (cc (s, (v.complete some_exited).0));
}

pub add_late-IsFair :
    (p : ThreadPool) (task : ℕ) {e l : List ℕ}
    → p.stop ≡ true
    → IsFair p e l
    → IsFair (add_task p task) e (l ++ (task ∷ []))
unfolding add_task
add_late-IsFair p task {e} {l} s v = record {
  fifo =
      sym (append_assoc p.started p.tasksqueue (task ∷ []))
      ∙ ap (λ u. u ++ (task ∷ [])) v.fifo
      ∙ append_assoc e l (task ∷ []);
  open_still = λ opened. absurd (cc (s, opened));
  complete = v.complete;
}

pub create-IsFair : (num : ℕ) → IsFair (create num) [] []
unfolding create
create-IsFair num = record {
  fifo = refl;
  open_still = λ opened. refl;
  complete = λ some_exited. absurd (cc (has_exited-create num, some_exited));
}
