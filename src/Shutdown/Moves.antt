-- ===== src/Shutdown/Moves.antt =====
-- One turn of a thread of src/TcpServer.cpp.
use reactor_network_library.Prelude.{
  ℕ, ◌+◌, ◌≤◌, ◌<◌, ◌≡◌, inl, inr, refl, ap, ◌∙◌, subst, Bool, true, Option, none, some, arith,
  ◌==◌, Bool-cases, Option-cases, ==_iff,
}
use reactor_network_library.EventLoop.TaskQueue
use reactor_network_library.EventLoop.TaskQueue.{
  Loop, Phase, polling, woken, ended, next_round, adds_task, wakes, stops, waits, handles_tasks,
  times_out,
}
use reactor_network_library.Shutdown.{
  Threads, StopAction, stops_main, stops_sub, stops_pool, set_loop, on_sub, on_main,
}
use reactor_network_library.Shutdown.Left.{phase_left, loops_left, left}
use reactor_network_library.Shutdown.Invariant.{IsOwn}

-- What an action of `stop` sets.
abbrev pub flag : Threads → StopAction → Bool
flag s stops_main = s.main.stop
flag s stops_pool = s.pool.stop
flag s (stops_sub j) = (s.subs j).stop

pub record IsStopping (n : ℕ) (s : Threads) : Type 0 where
  pub main : s.main.stop ≡ true
  pub pool : s.pool.stop ≡ true
  pub subs : (j : ℕ) → j < n → (s.subs j).stop ≡ true

-- A turn leads from `s` to `t` and is one of the turns left, if it counts and all is told to stop.
pub record Moved (n : ℕ) (count : ℕ) (s t : Threads) : Type 0 where
  pub own : IsOwn n t.pool
  pub flags : (x : StopAction) → flag s x ≡ true → flag t x ≡ true
  pub stops_left : t.stops_left ≡ s.stops_left
  pub less : IsStopping n s → count + left n t ≤ left n s

abbrev pub Moves : ℕ → ℕ → Threads → Option Threads → Type 0
Moves n count s out = (t : Threads) → out ≡ some t → Moved n count s t

pub some-eq {ℓ} : {A : Type ℓ} {x y : A} → some x ≡ some y → x ≡ y
some-eq h = cc

pub Moves-some : (n count : ℕ) {s t : Threads} → Moved n count s t → Moves n count s (some t)
Moves-some n count {s} m t e = subst (Moved n count s) (some-eq e) m

pub Moves-none : (n count : ℕ) {s : Threads} → Moves n count s none
Moves-none n count t e = cc

module _ (write : ℕ → ℕ → ℕ) (read : ℕ → ℕ) where
  stays_stopped_at :
      (p : Phase) (l l' : Loop) (e : TaskQueue.Event)
      → l.stop ≡ true
      → TaskQueue.step write read (record l { phase = p }) e ≡ some l'
      → l'.stop ≡ true
  unfolding TaskQueue.step
  stays_stopped_at p l l' (adds_task task) h e = ground arith
  stays_stopped_at p l l' stops h e = cc
  stays_stopped_at p l l' (wakes val) h e = ground arith
  stays_stopped_at polling l l' waits h e = ground arith
  stays_stopped_at woken l l' waits h e = cc
  stays_stopped_at ended l l' waits h e = cc
  stays_stopped_at polling l l' handles_tasks h e = cc
  stays_stopped_at woken l l' handles_tasks h e = ground arith
  stays_stopped_at ended l l' handles_tasks h e = cc
  stays_stopped_at polling l l' times_out h e = ground arith
  stays_stopped_at woken l l' times_out h e = cc
  stays_stopped_at ended l l' times_out h e = cc

  pub stays_stopped :
      (l l' : Loop) (e : TaskQueue.Event)
      → l.stop ≡ true
      → TaskQueue.step write read l e ≡ some l'
      → l'.stop ≡ true
  stays_stopped l l' e h q = stays_stopped_at l.phase l l' e h q

  pub set_loop-stop :
      (subs : ℕ → Loop) (j k : ℕ) (l : Loop)
      → ((subs j).stop ≡ true → l.stop ≡ true)
      → (subs k).stop ≡ true
      → (set_loop subs j l k).stop ≡ true
  unfolding set_loop
  set_loop-stop subs j k l h q = elim (Bool-cases (j == k)) [
    | inl same ↦ rw same (h (ap (λ i. (subs i).stop) ((==_iff _ _).0 same) ∙ q))
    | inr apart ↦ rw apart q
  ]

  -- A turn of sub-loop `j`.
  pub on_sub-Moves :
      (n count : ℕ) (s : Threads) (j : ℕ) (e : TaskQueue.Event)
      → IsOwn n s.pool
      → ((l : Loop)
          → TaskQueue.step write read (s.subs j) e ≡ some l
          → IsStopping n s
          → count + loops_left n (set_loop s.subs j l) ≤ loops_left n s.subs)
      → Moves n count s (on_sub write read s j e)
  unfolding on_sub left
  on_sub-Moves n count s j e own less =
      elim (Option-cases (TaskQueue.step write read (s.subs j) e)) [
        | inl never ↦ rw (never, on_sub) (Moves-none n count)
        | inr (l, comes) ↦
            rw (comes, on_sub)
              (Moves-some n count (record {
                own = own;
                flags = flags l comes;
                stops_left = refl;
                less = λ stopping. omega (arith, less l comes stopping);
              }))
      ]
    where
      flags :
          (l : Loop)
          → TaskQueue.step write read (s.subs j) e ≡ some l
          → (x : StopAction) → flag s x ≡ true
          → flag (record s { subs = set_loop s.subs j l }) x ≡ true
      flags l comes stops_main q = q
      flags l comes stops_pool q = q
      flags l comes (stops_sub k) q =
          set_loop-stop s.subs j k l (λ h. stays_stopped (s.subs j) l e h comes) q

  pub on_main-Moves :
      (n count : ℕ) (s : Threads) (e : TaskQueue.Event)
      → IsOwn n s.pool
      → ((l : Loop)
          → TaskQueue.step write read s.main e ≡ some l
          → IsStopping n s
          → count + phase_left l.phase ≤ phase_left s.main.phase)
      → Moves n count s (on_main write read s e)
  unfolding on_main left
  on_main-Moves n count s e own less = elim (Option-cases (TaskQueue.step write read s.main e)) [
    | inl never ↦ rw (never, on_main) (Moves-none n count)
    | inr (l, comes) ↦
        rw (comes, on_main)
          (Moves-some n count (record {
            own = own;
            flags = flags l comes;
            stops_left = refl;
            less = λ stopping. omega (arith, less l comes stopping);
          }))
  ]
    where
      flags :
          (l : Loop)
          → TaskQueue.step write read s.main e ≡ some l
          → (x : StopAction) → flag s x ≡ true
          → flag (record s { main = l }) x ≡ true
      flags l comes stops_main q = stays_stopped s.main l e q comes
      flags l comes stops_pool q = q
      flags l comes (stops_sub k) q = q
