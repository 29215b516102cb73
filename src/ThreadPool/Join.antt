-- ===== src/ThreadPool/Join.antt =====
-- The turns that the threads have left after `stop`, for which `join` waits.
use reactor_network_library.Prelude.{
  ℕ, zero, suc, ◌+◌, ◌*◌, ◌≡◌, ◌≢◌, refl, sym, ap, ◌∙◌, inl, inr, true, Option, none, some, List,
  [], ◌∷◌, arith, get_elem?, length, Option-cases, subst, ◌⊎◌,
}
use reactor_network_library.ThreadPool.{
  Worker, waiting, exited, runs, ThreadPool, set_worker, take_task, turn,
}

-- The turns that a thread has still to take by itself, and those of all, where a task is one to take
-- it and one to end it.
abbrev pub weight : Worker → ℕ
weight waiting = 1
weight exited = 0
weight (runs task) = 2

unfoldable pub total : List Worker → ℕ
total [] = 0
total (w ∷ ws) = weight w + total ws

abbrev pub turns_left : ThreadPool → ℕ
turns_left p = 2 * length p.tasksqueue + total p.threads

total-set_worker :
    (ws : List Worker) (i : ℕ) (old new : Worker)
    → get_elem? ws i ≡ some old
    → total (set_worker ws i new) + weight old ≡ total ws + weight new
unfolding total set_worker
total-set_worker [] i old new h = cc
total-set_worker (w ∷ ws) zero old new h = let same : w ≡ old = cc in omega (arith, ap weight same)
total-set_worker (w ∷ ws) (suc i) old new h = omega (arith, total-set_worker ws i old new h)

-- A turn of worker `i`, whose state is `w`, and what it leaves to do.
abbrev pub Progress : ThreadPool → ℕ → Type 0
Progress p i =
    (q : ThreadPool) × (turn p i ≡ some q) × (q.stop ≡ true) × (turns_left q + 1 ≡ turns_left p)

turn-waiting :
    (p : ThreadPool) (i : ℕ) → get_elem? p.threads i ≡ some waiting → turn p i ≡ take_task p i
unfolding turn
turn-waiting p i h = rw (h, turn) refl

take-Progress :
    (queue : List ℕ) (p : ThreadPool) (i : ℕ)
    → get_elem? p.threads i ≡ some waiting
    → Progress (record p { stop = true; tasksqueue = queue }) i
unfolding take_task
take-Progress [] p i h = (
  _,
  turn-waiting (record p { stop = true; tasksqueue = [] }) i h,
  refl,
  omega (arith, total-set_worker p.threads i waiting exited h),
)
take-Progress (task ∷ queue) p i h = (
  _,
  turn-waiting (record p { stop = true; tasksqueue = task ∷ queue }) i h,
  refl,
  omega (arith, total-set_worker p.threads i waiting (runs task) h),
)

runs-Progress :
    (p : ThreadPool) (i task : ℕ)
    → p.stop ≡ true
    → get_elem? p.threads i ≡ some (runs task)
    → Progress p i
unfolding turn
runs-Progress p i task s h = (
  record p { threads = set_worker p.threads i waiting },
  rw (h, turn) refl,
  s,
  omega (arith, total-set_worker p.threads i (runs task) waiting h),
)

pub alive-Progress :
    (w : Worker) (p : ThreadPool) (i : ℕ)
    → p.stop ≡ true
    → get_elem? p.threads i ≡ some w
    → w ≢ exited
    → Progress p i
alive-Progress waiting p i s h alive =
    let same : record p { stop = true; tasksqueue = p.tasksqueue } ≡ p =
      ap (λ b. record p { stop = b }) (sym s) in
    subst (λ r. Progress r i) same (take-Progress p.tasksqueue p i h)
alive-Progress exited p i s h alive = absurd (alive refl)
alive-Progress (runs task) p i s h alive = runs-Progress p i task s h

Worker-cases : (w : Worker) → (w ≡ exited) ⊎ (w ≢ exited)
Worker-cases waiting = inr λ e. cc e
Worker-cases exited = inl refl
Worker-cases (runs task) = inr λ e. cc e

no_turn :
    (p : ThreadPool) (i : ℕ)
    → (get_elem? p.threads i ≡ none) ⊎ (get_elem? p.threads i ≡ some exited)
    → turn p i ≡ none
unfolding turn
no_turn p i (inl h) = rw (h, turn) refl
no_turn p i (inr h) = rw (h, turn) refl

-- Whatever turn came, it was one of the turns left.
pub turn_left :
    (p q : ThreadPool) (i : ℕ)
    → p.stop ≡ true
    → turn p i ≡ some q
    → (q.stop ≡ true) × (turns_left q + 1 ≡ turns_left p)
turn_left p q i s e = elim (Option-cases (get_elem? p.threads i)) [
  | inl outside ↦ cc (no_turn p i (inl outside))
  | inr (w, h) ↦ elim (Worker-cases w) [
    | inl gone ↦ cc (no_turn p i (inr (h ∙ ap some gone)))
    | inr alive ↦
        let (r, f, t, n) = alive-Progress w p i s h alive in
        let same : r ≡ q = some-eq (sym f ∙ e) in
        subst (λ x. (x.stop ≡ true) × (turns_left x + 1 ≡ turns_left p)) same (t, n)
  ]
]
  where
    some-eq : {x y : ThreadPool} → some x ≡ some y → x ≡ y
    some-eq h = cc

-- The turns of the workers at these places, one after the other.
unfoldable pub run_turns : ThreadPool → List ℕ → Option ThreadPool
run_turns p [] = some p
run_turns p (i ∷ is) = elim (turn p i) [ none ↦ none | some q ↦ run_turns q is ]

some-eq {ℓ} : {A : Type ℓ} {x y : A} → some x ≡ some y → x ≡ y
some-eq h = cc

run_turns_left :
    (is : List ℕ) (p q : ThreadPool)
    → p.stop ≡ true
    → run_turns p is ≡ some q
    → (q.stop ≡ true) × (length is + turns_left q ≡ turns_left p)
unfolding run_turns
run_turns_left [] p q s e =
    (ap (λ x. x.stop) (sym (some-eq e)) ∙ s, omega (arith, ap turns_left (some-eq e)))
run_turns_left (i ∷ is) p q s e = elim (Option-cases (turn p i)) [
  | inl never ↦ cc (rw (never, run_turns) at e)
  | inr (r, comes) ↦
      let (t, n) = turn_left p r i s comes in
      let (u, m) = run_turns_left is r q t (rw (comes, run_turns) at e) in (u, omega (arith, n, m))
]

-- After `stop`, in whatever order the threads have taken turns: a thread that has not returned can
-- take its next one, and there are then one fewer left in all. So none is ever stuck, and after
-- `turns_left` turns every thread has returned, and each `join` with it.
pub run_turns_lem :
    (is : List ℕ) (p q : ThreadPool) (i : ℕ) (w : Worker)
    → p.stop ≡ true
    → run_turns p is ≡ some q
    → get_elem? q.threads i ≡ some w
    → w ≢ exited
    → (r : ThreadPool) × (turn q i ≡ some r)
      × (length is + turns_left q ≡ turns_left p)
      × (turns_left r + 1 ≡ turns_left q)
run_turns_lem is p q i w s e h alive =
    let (t, n) = run_turns_left is p q s e in
    let (r, f, u, m) = alive-Progress w q i t h alive in (r, f, n, m)
