-- ===== src/Shutdown/Left.antt =====
-- The turns that the threads of src/TcpServer.cpp have left once everything is told to stop.
use reactor_network_library.Prelude.{
  ℕ, zero, suc, ◌+◌, ◌≤◌, ◌<◌, ◌≡◌, ◌≢◌, inl, inr, refl, ap, ◌∙◌, true, false, some, [], arith,
  ◌==◌, Bool-cases, ==_iff,
}
use reactor_network_library.EventLoop.TaskQueue
use reactor_network_library.EventLoop.TaskQueue.{
  Loop, Phase, polling, woken, ended, next_round, run_tasks, adds_task, wakes, stops,
}
use reactor_network_library.ThreadPool.Join.{turns_left}
use reactor_network_library.Shutdown.{
  Threads, set_loop, Round, is_woken, runs_tasks, comes_back, round_event,
}

-- The turns of a loop that is to stop.
abbrev pub phase_left : Phase → ℕ
phase_left polling = 2
phase_left woken = 1
phase_left ended = 0

unfoldable pub loops_left : ℕ → (ℕ → Loop) → ℕ
loops_left zero subs = 0
loops_left (suc k) subs = phase_left (subs k).phase + loops_left k subs

unfoldable pub left : ℕ → Threads → ℕ
left n s = phase_left s.main.phase + turns_left s.pool + loops_left n s.subs

loops_left-outside :
    (n j : ℕ) (l : Loop) (subs : ℕ → Loop)
    → n ≤ j
    → loops_left n (set_loop subs j l) ≡ loops_left n subs
unfolding loops_left set_loop
loops_left-outside zero j l subs h = refl
loops_left-outside (suc k) j l subs h =
    let apart : (j == k) ≡ false = ground arith in
    rw apart (ap (λ u. phase_left (subs k).phase + u) (loops_left-outside k j l subs (omega arith)))

pub loops_left-set_loop :
    (n j : ℕ) (l : Loop) (subs : ℕ → Loop)
    → j < n
    → loops_left n (set_loop subs j l) + phase_left (subs j).phase
      ≡ loops_left n subs + phase_left l.phase
unfolding loops_left set_loop
loops_left-set_loop zero j l subs h = elim h [ ]
loops_left-set_loop (suc k) j l subs h = elim (Bool-cases (j == k)) [
  | inl same ↦
      let at : j ≡ k = (==_iff _ _).0 same in
      let rest = loops_left-outside k j l subs (omega (arith, at)) in
      rw same (omega (arith, rest, ap (λ i. phase_left (subs i).phase) at))
  | inr apart ↦
      let below : j < k = ground arith in
      rw apart (omega (arith, loops_left-set_loop k j l subs below))
]

-- A loop whose phase stays.
pub loops_left-same :
    (n j : ℕ) (l : Loop) (subs : ℕ → Loop)
    → l.phase ≡ (subs j).phase
    → loops_left n (set_loop subs j l) ≡ loops_left n subs
unfolding loops_left set_loop
loops_left-same zero j l subs h = refl
loops_left-same (suc k) j l subs h = elim (Bool-cases (j == k)) [
  | inl same ↦
      let e : phase_left l.phase ≡ phase_left (subs k).phase =
        ap phase_left h ∙ ap (λ i. phase_left (subs i).phase) ((==_iff _ _).0 same) in
      rw same (omega (arith, e, loops_left-same k j l subs h))
  | inr apart ↦ rw apart (ap (λ u. phase_left (subs k).phase + u) (loops_left-same k j l subs h))
]

module _ (write : ℕ → ℕ → ℕ) (read : ℕ → ℕ) where
  -- A turn of a loop's thread brings a loop that is to stop nearer to its end.
  round_left_at :
      (p : Phase) (l l' : Loop) (r : Round)
      → l.stop ≡ true
      → TaskQueue.step write read (record l { phase = p }) (round_event r) ≡ some l'
      → (l'.stop ≡ true) × (phase_left l'.phase + 1 ≤ phase_left p)
  unfolding TaskQueue.step
  round_left_at polling l l' is_woken h e = ground arith
  round_left_at polling l l' runs_tasks h e = cc
  round_left_at polling l l' comes_back h e = ground arith
  round_left_at woken l l' is_woken h e = cc
  round_left_at woken l l' runs_tasks h e = ground arith
  round_left_at woken l l' comes_back h e = cc
  round_left_at ended l l' is_woken h e = cc
  round_left_at ended l l' runs_tasks h e = cc
  round_left_at ended l l' comes_back h e = cc

  pub round_left :
      (l l' : Loop) (r : Round)
      → l.stop ≡ true
      → TaskQueue.step write read l (round_event r) ≡ some l'
      → (l'.stop ≡ true) × (phase_left l'.phase + 1 ≤ phase_left l.phase)
  round_left l l' r h e = round_left_at l.phase l l' r h e

  -- A loop that has not ended has a turn: `epollwait` comes back by itself.
  next_round_at :
      (p : Phase) (l : Loop)
      → p ≢ ended
      → (r : Round) × (l' : Loop) × (TaskQueue.step write read
            (record l { phase = p })
            (round_event r)
          ≡ some l')
  unfolding TaskQueue.step
  next_round_at polling l h = (comes_back, record l { phase = next_round l.stop }, refl)
  next_round_at woken l h = elim (Bool-cases l.is_main_loop) [
    | inl main ↦ (runs_tasks, record l { phase = next_round l.stop }, rw main refl)
    | inr sub ↦ (
      runs_tasks,
      record l { ran = run_tasks l.ran l.taskqueue; taskqueue = []; phase = next_round l.stop },
      rw sub refl,
    )
  ]
  next_round_at ended l h = absurd (h refl)

  pub next_round_lem :
      (l : Loop)
      → l.phase ≢ ended
      → (r : Round) × (l' : Loop) × (TaskQueue.step write read l (round_event r) ≡ some l')
  next_round_lem l h = next_round_at l.phase l h

  -- The turns of other threads on a loop.
  pub adds_phase :
      (l l' : Loop) (task : ℕ)
      → TaskQueue.step write read l (adds_task task) ≡ some l'
      → (l'.phase ≡ l.phase) × (l'.stop ≡ l.stop)
  unfolding TaskQueue.step
  adds_phase l l' task e = ground arith

  pub wakes_phase :
      (l l' : Loop) (val : ℕ)
      → TaskQueue.step write read l (wakes val) ≡ some l'
      → (l'.phase ≡ l.phase) × (l'.stop ≡ l.stop)
  unfolding TaskQueue.step
  wakes_phase l l' val e = ground arith

  pub stops_phase :
      (l : Loop)
      → (l' : Loop) × (TaskQueue.step write read l stops ≡ some l')
        × (l'.phase ≡ l.phase)
        × (l'.stop ≡ true)
  unfolding TaskQueue.step
  stops_phase l = (_, refl, refl, refl)
