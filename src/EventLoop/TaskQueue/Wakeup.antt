-- ===== src/EventLoop/TaskQueue/Wakeup.antt =====
-- The tasks and the wake-ups under any sequence of turns.
use reactor_network_library.Prelude.{
  ℕ, ◌+◌, ◌-◌, ◌^◌, ◌≤◌, ◌<◌, ◌≡◌, refl, sym, ap, ◌∙◌, subst, inl, inr, false, Option, none, some,
  List, [], ◌∷◌, ◌++◌, arith, ◌==◌, append_assoc, append-nil, Bool-cases, Option-cases, length,
}
use reactor_network_library.EventLoop.TaskQueue.{
  Phase, polling, woken, ended, Loop, init, run_tasks, Event, adds_task, stops, wakes, waits,
  handles_tasks, times_out, step, run,
}

-- eventfd(2): a write never lowers the counter, and a value that is neither 0 nor the largest leaves
-- it positive, for it is added, or the counter is almost full.
pub record Documented (write : ℕ → ℕ → ℕ) : Type 0 where
  pub keeps : (c val : ℕ) → c ≤ write c val
  pub signals : (c val : ℕ) → 0 < val → val < 2 ^ 64 - 1 → 0 < write c val

-- The tasks that the events add.
abbrev pub added_by : Event → List ℕ
added_by (adds_task task) = task ∷ []
added_by stops = []
added_by (wakes val) = []
added_by waits = []
added_by handles_tasks = []
added_by times_out = []

unfoldable pub added : List Event → List ℕ
added [] = []
added (e ∷ es) = added_by e ++ added es

-- The value written is one that signals.
abbrev pub Signals : Event → Type 0
Signals (wakes val) = (0 < val) × (val < 2 ^ 64 - 1)
Signals (adds_task task) = Unit {0}
Signals stops = Unit {0}
Signals waits = Unit {0}
Signals handles_tasks = Unit {0}
Signals times_out = Unit {0}

unfoldable pub AllSignal : List Event → Type 0
AllSignal [] = Unit {0}
AllSignal (e ∷ es) = Signals e × AllSignal es

pub run_tasks_lem : (ran queue : List ℕ) → run_tasks ran queue ≡ ran ++ queue
unfolding run_tasks
run_tasks_lem ran [] = sym (append-nil ran)
run_tasks_lem ran (task ∷ queue) =
    run_tasks_lem (ran ++ (task ∷ [])) queue ∙ append_assoc ran (task ∷ []) queue

-- The queue is not forgotten: if it has a task, the loop is about to run it, will be woken, or a
-- thread is on its way to wake it.
abbrev pub Noticed : Loop → Type 0
Noticed s = s.phase ≡ polling → 0 < length s.taskqueue → 0 < s.counter + s.waking

pub record IsTended (s : Loop) (past : List ℕ) : Type 0 where
  pub sub_loop : s.is_main_loop ≡ false
  pub fifo : s.ran ++ s.taskqueue ≡ past
  pub noticed : Noticed s

abbrev Tends : Option Loop → List ℕ → Type 0
Tends out past = (t : Loop) → out ≡ some t → IsTended t past

some-eq {ℓ} : {A : Type ℓ} {x y : A} → some x ≡ some y → x ≡ y
some-eq e = cc

Tends-some : {s : Loop} {past : List ℕ} → IsTended s past → Tends (some s) past
Tends-some {s} {past} v t e = subst (λ u. IsTended u past) (some-eq e) v

Tends-none : {past : List ℕ} → Tends none past
Tends-none t e = cc

pub init-IsTended : IsTended (init false) []
init-IsTended = record {
  sub_loop = refl;
  fifo = refl;
  noticed = λ at_poll waiting. absurd (omega (arith, waiting));
}

module _ (write : ℕ → ℕ → ℕ) (read : ℕ → ℕ) (doc : Documented write) where
  adds-Tends :
      (task : ℕ) {s : Loop} {past : List ℕ}
      → IsTended s past
      → Tends (step write read s (adds_task task)) (past ++ (task ∷ []))
  unfolding step
  adds-Tends task {s} v = Tends-some (record {
    sub_loop = v.sub_loop;
    fifo = sym (append_assoc s.ran s.taskqueue (task ∷ [])) ∙ ap (λ u. u ++ (task ∷ [])) v.fifo;
    noticed = λ at_poll waiting. omega arith;
  })

  stops-Tends : {s : Loop} {past : List ℕ} → IsTended s past → Tends (step write read s stops) past
  unfolding step
  stops-Tends v =
      Tends-some
        (record { sub_loop = v.sub_loop; fifo = v.fifo; noticed = λ at_poll waiting. omega arith })

  wakes-Tends :
      (val : ℕ) {s : Loop} {past : List ℕ}
      → Signals (wakes val)
      → IsTended s past
      → Tends (step write read s (wakes val)) past
  unfolding step
  wakes-Tends val {s} ok v = elim (Bool-cases (s.waking == 0)) [
    | inl nobody ↦ rw nobody Tends-none
    | inr somebody ↦ rw somebody (
        Tends-some (record {
          sub_loop = v.sub_loop;
          fifo = v.fifo;
          noticed = λ at_poll waiting. omega (arith, doc.signals s.counter val ok.0 ok.1);
        }))
  ]

  waits-Tends :
      (p : Phase) (s : Loop) {past : List ℕ}
      → IsTended (record s { phase = p }) past
      → Tends (step write read (record s { phase = p }) waits) past
  unfolding step
  waits-Tends polling s v = elim (Bool-cases (s.counter == 0)) [
    | inl silent ↦ rw silent Tends-none
    | inr readable ↦ rw readable (
        Tends-some (record {
          sub_loop = v.sub_loop;
          fifo = v.fifo;
          noticed = λ at_poll waiting. absurd (cc at_poll);
        }))
  ]
  waits-Tends woken s v = Tends-none
  waits-Tends ended s v = Tends-none

  handles-Tends :
      (p : Phase) (s : Loop) {past : List ℕ}
      → IsTended (record s { phase = p }) past
      → Tends (step write read (record s { phase = p }) handles_tasks) past
  unfolding step
  handles-Tends polling s {past} v = Tends-none
  handles-Tends woken s {past} v =
      subst
        (λ m.
          Tends (step write read (record s { is_main_loop = m; phase = woken }) handles_tasks) past)
        (sym v.sub_loop)
        (Tends-some (record {
          sub_loop = refl;
          fifo = append-nil _ ∙ run_tasks_lem s.ran s.taskqueue ∙ v.fifo;
          noticed = λ at_poll waiting. absurd (omega (arith, waiting));
        }))
  handles-Tends ended s {past} v = Tends-none

  times_out-Tends :
      (p : Phase) (s : Loop) {past : List ℕ}
      → IsTended (record s { phase = p }) past
      → Tends (step write read (record s { phase = p }) times_out) past
  unfolding step
  times_out-Tends polling s v = Tends-some (record {
    sub_loop = v.sub_loop;
    fifo = v.fifo;
    noticed = λ at_poll waiting. v.noticed refl waiting;
  })
  times_out-Tends woken s v = Tends-none
  times_out-Tends ended s v = Tends-none

  step-Tends :
      (e : Event) {s : Loop} {past : List ℕ}
      → Signals e
      → IsTended s past
      → Tends (step write read s e) (past ++ added_by e)
  step-Tends (adds_task task) ok v = adds-Tends task v
  step-Tends stops {s} ok v =
      subst (Tends (step write read s stops)) (sym (append-nil _)) (stops-Tends v)
  step-Tends (wakes val) {s} ok v =
      subst (Tends (step write read s (wakes val))) (sym (append-nil _)) (wakes-Tends val ok v)
  step-Tends waits {s} ok v =
      subst (Tends (step write read s waits)) (sym (append-nil _)) (waits-Tends s.phase s v)
  step-Tends handles_tasks {s} ok v =
      subst (Tends (step write read s handles_tasks)) (sym (append-nil _))
        (handles-Tends s.phase s v)
  step-Tends times_out {s} ok v =
      subst (Tends (step write read s times_out)) (sym (append-nil _)) (times_out-Tends s.phase s v)

  pub run-Tends :
      (es : List Event) {s : Loop} {past : List ℕ}
      → AllSignal es
      → IsTended s past
      → Tends (run write read s es) (past ++ added es)
  unfolding run AllSignal added
  run-Tends [] {s} {past} ok v = Tends-some (subst (IsTended s) (sym (append-nil past)) v)
  run-Tends (e ∷ es) {s} {past} ok v = λ t h. elim (Option-cases (step write read s e)) [
    | inl never ↦ cc (rw (never, run) at h)
    | inr (u, comes) ↦
        subst (IsTended t) (append_assoc past (added_by e) (added es))
          (run-Tends es ok.1 (step-Tends e ok.0 v u comes) t (rw (comes, run) at h))
  ]

  -- On a sub-loop, in whatever order the turns come: the tasks that ran and those that wait are the
  -- tasks added, once each and in order. Each write is to have a value that eventfd(2) counts.
  pub run_fifo :
      (es : List Event) (t : Loop)
      → AllSignal es
      → run write read (init false) es ≡ some t
      → t.ran ++ t.taskqueue ≡ added es
  run_fifo es t ok h = (run-Tends es {s = init false} {past = []} ok init-IsTended t h).fifo
