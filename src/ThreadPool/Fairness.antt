-- ===== src/ThreadPool/Fairness.antt =====
-- Any sequence of turns, from the start of the pool.
use reactor_network_library.Prelude.{
  append-starts, drop, length, ℕ, ◌≡◌, refl, sym, ap, ◌∙◌, subst, inl, inr, Bool, true, false,
  Option, none, some, List, [], ◌∷◌, ◌++◌, get_elem?, length, Option-cases, append_assoc,
  append-nil,
}
use reactor_network_library.ThreadPool.{
  Worker, waiting, exited, runs, ThreadPool, create, add_task, stop_pool, take_task, turn, Event,
  adds, stops, turns, step, run,
}
use reactor_network_library.ThreadPool.Order.{
  has_exited, early, late, early_by, late_by, stopped_by, create-IsFair, IsFair, some-eq,
  turn-IsFair, stop-IsFair, add_open-IsFair, add_late-IsFair,
}

take-stop :
    (queue : List ℕ) (stopped : Bool) (p q : ThreadPool) (i : ℕ)
    → take_task (record p { tasksqueue = queue; stop = stopped }) i ≡ some q
    → q.stop ≡ stopped
unfolding take_task
take-stop [] true p q i h = ap (λ r. r.stop) (sym (some-eq h))
take-stop [] false p q i h = cc
take-stop (task ∷ queue) true p q i h = ap (λ r. r.stop) (sym (some-eq h))
take-stop (task ∷ queue) false p q i h = ap (λ r. r.stop) (sym (some-eq h))

turn-stop :
    (w : Option Worker) (p q : ThreadPool) (i : ℕ)
    → get_elem? p.threads i ≡ w
    → turn p i ≡ some q
    → q.stop ≡ p.stop
unfolding turn
turn-stop none p q i found h = cc (rw (found, turn) at h)
turn-stop (some waiting) p q i found h = take-stop p.tasksqueue p.stop p q i (rw (found, turn) at h)
turn-stop (some exited) p q i found h = cc (rw (found, turn) at h)
turn-stop (some (runs task)) p q i found h =
    ap (λ r. r.stop) (sym (some-eq (rw (found, turn) at h)))

-- A pool that an event leaves.
abbrev Fair : ThreadPool → Bool → List ℕ → List ℕ → Type 0
Fair q stopped e l = (q.stop ≡ stopped) × IsFair q e l

plain :
    (q : ThreadPool) (stopped : Bool) (e l : List ℕ)
    → Fair q stopped e l
    → Fair q stopped (e ++ []) (l ++ [])
plain q stopped e l f = rw (append-nil e, append-nil l) f

step-Fair :
    (stopped : Bool) (x : Event) (p q : ThreadPool) (e l : List ℕ)
    → p.stop ≡ stopped
    → IsFair p e l
    → step p x ≡ some q
    → Fair q (stopped_by stopped x) (e ++ early_by stopped x) (l ++ late_by stopped x)
unfolding step add_task stop_pool
step-Fair false (adds task) p q e l s v h =
    subst (λ r. Fair r false (e ++ (task ∷ [])) (l ++ [])) (some-eq h)
      (
        s,
        subst (IsFair (add_task p task) (e ++ (task ∷ []))) (sym (append-nil l))
            (add_open-IsFair p task s v),
      )
step-Fair true (adds task) p q e l s v h =
    subst (λ r. Fair r true (e ++ []) (l ++ (task ∷ []))) (some-eq h)
      (
        s,
        subst (λ u. IsFair (add_task p task) u (l ++ (task ∷ []))) (sym (append-nil e))
            (add_late-IsFair p task s v),
      )
step-Fair stopped stops p q e l s v h =
    subst (λ r. Fair r true (e ++ []) (l ++ [])) (some-eq h)
      (plain (stop_pool p) true e l (refl, stop-IsFair v))
step-Fair stopped (turns i) p q e l s v h =
    plain q stopped e l (turn-stop _ p q i refl h ∙ s, turn-IsFair _ p q i refl v h)

run-IsFair :
    (es : List Event) (stopped : Bool) (p q : ThreadPool) (e l : List ℕ)
    → p.stop ≡ stopped
    → IsFair p e l
    → run p es ≡ some q
    → IsFair q (e ++ early stopped es) (l ++ late stopped es)
unfolding run early late
run-IsFair [] stopped p q e l s v h =
    rw (append-nil e, append-nil l) (subst (λ r. IsFair r e l) (some-eq h) v)
run-IsFair (x ∷ es) stopped p q e l s v h = elim (Option-cases (step p x)) [
  | inl never ↦ cc (rw (never, run) at h)
  | inr (r, comes) ↦
      let (t, w) = step-Fair stopped x p r e l s v comes in
      subst (λ u. IsFair q u (l ++ late stopped (x ∷ es)))
        (append_assoc e (early_by stopped x) (early (stopped_by stopped x) es))
        (subst (IsFair q (e ++ early_by stopped x ++ early (stopped_by stopped x) es))
          (append_assoc l (late_by stopped x) (late (stopped_by stopped x) es))
          (run-IsFair es (stopped_by stopped x) r q (e ++ early_by stopped x)
            (l ++ late_by stopped x) t w (rw (comes, run) at h)))
]

-- From a new pool, whatever is called and whichever threads take their turns: the tasks started and
-- those in the queue are the tasks added, once each and in order, those added before `stop` first.
pub run_fair :
    (num : ℕ) (es : List Event) (q : ThreadPool)
    → run (create num) es ≡ some q
    → q.started ++ q.tasksqueue ≡ early false es ++ late false es
unfolding create
run_fair num es q h = (run-IsFair es false (create num) q [] [] refl (create-IsFair num) h).fifo

-- From a new pool, whatever is called and whichever threads take their turns: if a thread has
-- returned, then `stop` was called, and every task added before it has been started.
pub run_complete :
    (num : ℕ) (es : List Event) (q : ThreadPool)
    → run (create num) es ≡ some q
    → has_exited q.threads ≡ true
    → (q.stop ≡ true) × ((waits : List ℕ) × (q.started ≡ early false es ++ waits))
unfolding create
run_complete num es q h some_exited =
    let v = run-IsFair es false (create num) q [] [] refl (create-IsFair num) h in
    let (stopped, n) = v.complete some_exited in
    (
      stopped,
      (
        drop (length (early false es)) q.started,
        append-starts (early false es) q.started (late false es) q.tasksqueue v.fifo n,
      ),
    )
