-- ===== src/AsyncLogging/Lifetime/Joining.antt =====
-- `join` after `stop` has cleared `m_running`.
use reactor_network_library.Prelude.{
  ℕ, zero, suc, ◌≤◌, ◌≡◌, ◌≢◌, ◌⊎◌, refl, sym, ap, ◌∙◌, subst, inl, inr, Option, none, some, List,
  ◌++◌, arith, replicate, append-nil, Option-cases, false,
}
use reactor_network_library.AsyncLogging.{
  append_record, Phase, testing, waiting, exited, holding, LogBuffer, System, test, grab, flush,
  appends, runs, step, run,
}
use reactor_network_library.AsyncLogging.Conserve.{recorded, IsSound}
use reactor_network_library.AsyncLogging.Soundness.{run-Goes}
use reactor_network_library.AsyncLogging.Drain.{some-eq}
use reactor_network_library.AsyncLogging.Ending.{stopped-Drains, runs-AreLogs, recorded-runs}

exited-or_not : (p : Phase) → (p ≡ exited) ⊎ (p ≢ exited)
exited-or_not testing = inr λ e. cc
exited-or_not waiting = inr λ e. cc
exited-or_not (holding held) = inr λ e. cc
exited-or_not exited = inl refl

-- `m_running` is as it was.
abbrev pub SameRunning : System → Option System → Type 0
SameRunning s none = Unit {0}
SameRunning s (some t) = t.front.running ≡ s.front.running

-- A thread that has ended stays as it is.
stays : (t : System) → t.phase ≡ exited → step t runs ≡ some t
unfolding step
stays t = by_phase t.phase
  where
    by_phase :
        (p : Phase)
        → p ≡ exited
        → elim p [
          | testing ↦ test t
          | waiting ↦ grab t
          | holding held ↦ flush t held
          | exited ↦ some t
        ]
          ≡ some t
    by_phase testing e = cc
    by_phase waiting e = cc
    by_phase (holding held) e = cc
    by_phase exited e = refl

stays_ended : (k : ℕ) (t : System) → t.phase ≡ exited → run t (replicate k runs) ≡ some t
unfolding run
stays_ended zero t ends = refl
stays_ended (suc k) t ends = rw (stays t ends, run) (stays_ended k t ends)

more_steps :
    (n m : ℕ) (s t : System)
    → n ≤ m
    → run s (replicate n runs) ≡ some t
    → t.phase ≡ exited
    → run s (replicate m runs) ≡ some t
unfolding run
more_steps zero m s t few e ends =
    let same : s ≡ t = some-eq e in
    subst (λ x. run x (replicate m runs) ≡ some t) (sym same) (stays_ended m t ends)
more_steps (suc n) zero s t few e ends = absurd (omega (arith, few))
more_steps (suc n) (suc m) s t few e ends = elim (Option-cases (step s runs)) [
  | inl fails ↦ cc (rw (fails, run) at e)
  | inr (s', goes) ↦
      rw (goes, run) (more_steps n m s' t (omega (arith, few)) (rw (goes, run) at e) ends)
]

test-SameRunning : (s : System) → SameRunning s (test s)
unfolding test
test-SameRunning s = ground arith

grab-SameRunning : (s : System) → SameRunning s (grab s)
unfolding grab
grab-SameRunning s = ground arith

flush-SameRunning : (s : System) (held : List LogBuffer) → SameRunning s (flush s held)
unfolding flush
flush-SameRunning s held = ground arith

pub append-SameRunning : (s : System) (log : List ℕ) → SameRunning s (step s (appends log))
unfolding step append_record
append-SameRunning s log = ground arith

pub runs-SameRunning : (s : System) → SameRunning s (step s runs)
unfolding step
runs-SameRunning s = by_phase s.phase
  where
    by_phase :
        (p : Phase)
        → SameRunning s (elim p [
          | testing ↦ test s
          | waiting ↦ grab s
          | holding held ↦ flush s held
          | exited ↦ some s
        ])
    by_phase testing = test-SameRunning s
    by_phase waiting = grab-SameRunning s
    by_phase (holding held) = flush-SameRunning s held
    by_phase exited = refl

same_trans :
    (s u : System) (o : Option System)
    → u.front.running ≡ s.front.running
    → SameRunning u o
    → SameRunning s o
same_trans s u none e h = tt
same_trans s u (some t) e h = h ∙ e

steps-SameRunning : (n : ℕ) (s : System) → SameRunning s (run s (replicate n runs))
unfolding run
steps-SameRunning zero s = refl
steps-SameRunning (suc n) s = elim (Option-cases (step s runs)) [
  | inl fails ↦ rw (fails, run) tt
  | inr (u, goes) ↦
      rw (goes, run)
        (same_trans s u (run u (replicate n runs)) (subst (SameRunning s) goes (runs-SameRunning s))
          (steps-SameRunning n u))
]

-- The thread ends within five steps once `m_running` is false.
ends_within :
    (s : System) {past : List ℕ}
    → IsSound s past
    → s.front.running ≡ false
    → (t : System) × (run s (replicate 5 runs) ≡ some t) × (t.phase ≡ exited)
ends_within s v off = elim (exited-or_not s.phase) [
  | inl ended ↦ (s, stays_ended 5 s ended, ended)
  | inr alive ↦
      let (n, t, few, goes, ends, idle) = stopped-Drains s v off alive in
      (t, more_steps n 5 s t few goes ends, ends)
]

-- What `join` finds then.
pub joined_lem :
    (s : System) {past : List ℕ}
    → IsSound s past
    → s.front.running ≡ false
    → (t : System) × (run s (replicate 5 runs) ≡ some t)
      × (t.phase ≡ exited)
      × (t.front.running ≡ false)
      × IsSound t past
joined_lem s {past} v off =
    let (t, goes, ends) = ends_within s v off in
    let (u, e, w) = run-Goes (replicate 5 runs) {s = s} (runs-AreLogs 5) v in
    (
      t,
      goes,
      ends,
      subst (SameRunning s) goes (steps-SameRunning 5 s) ∙ off,
      subst (IsSound t) (ap (λ x. past ++ x) (recorded-runs 5) ∙ append-nil past)
          (subst (λ x. IsSound x (past ++ recorded (replicate 5 runs))) (some-eq (sym e ∙ goes)) w),
    )
