-- ===== src/Shutdown/Orders.antt =====
-- What `stop` of src/TcpServer.cpp has still to do is all that is not done.
use reactor_network_library.Prelude.{
  ℕ, zero, suc, ◌+◌, ◌≤◌, ◌<◌, ◌≡◌, ◌≢◌, inl, inr, refl, sym, ap, ◌∙◌, subst, Bool, true, false,
  Option, some, List, [], ◌∷◌, ◌||◌, arith, ◌==◌, Bool-cases, Option-cases, ==_iff, ==_refl,
}
use reactor_network_library.EventLoop.TaskQueue
use reactor_network_library.EventLoop.TaskQueue.{Loop, Phase, polling, woken, ended}
use reactor_network_library.ThreadPool
use reactor_network_library.ThreadPool.{ThreadPool, Worker, waiting, exited, runs}
use reactor_network_library.Shutdown.{
  Threads, StopAction, stops_main, stops_sub, stops_pool, set_loop, sub_stops, start, Turn,
  main_runs, works, acts, gives_task, wakes_sub, wakes_main, on_sub, on_main, act, step, run,
}
use reactor_network_library.Shutdown.Invariant.{IsOwn, start-IsOwn}
use reactor_network_library.Shutdown.Moves.{flag, IsStopping, some-eq, set_loop-stop}
use reactor_network_library.Shutdown.Turns.{step-Moves}

abbrev pub same_action : StopAction → StopAction → Bool
same_action stops_main stops_main = true
same_action stops_main stops_pool = false
same_action stops_main (stops_sub k) = false
same_action stops_pool stops_main = false
same_action stops_pool stops_pool = true
same_action stops_pool (stops_sub k) = false
same_action (stops_sub j) stops_main = false
same_action (stops_sub j) stops_pool = false
same_action (stops_sub j) (stops_sub k) = j == k

same_action-eq : (a x : StopAction) → same_action a x ≡ true → x ≡ a
same_action-eq stops_main stops_main h = refl
same_action-eq stops_main stops_pool h = cc
same_action-eq stops_main (stops_sub k) h = cc
same_action-eq stops_pool stops_main h = cc
same_action-eq stops_pool stops_pool h = refl
same_action-eq stops_pool (stops_sub k) h = cc
same_action-eq (stops_sub j) stops_main h = cc
same_action-eq (stops_sub j) stops_pool h = cc
same_action-eq (stops_sub j) (stops_sub k) h = ap stops_sub (sym ((==_iff _ _).0 h))

abbrev pub has : StopAction → List StopAction → Bool
has x [] = false
has x (a ∷ rest) = same_action a x || has x rest

-- The actions of `stop` on a server with `n` loops.
abbrev pub IsAction : ℕ → StopAction → Type 0
IsAction n stops_main = Unit {0}
IsAction n stops_pool = Unit {0}
IsAction n (stops_sub j) = j < n

-- What is no longer to be done was done.
pub record IsOrderly (n : ℕ) (s : Threads) : Type 0 where
  pub own : IsOwn n s.pool
  pub told : (x : StopAction) → IsAction n x → has x s.stops_left ≡ false → flag s x ≡ true

set_loop-same : (subs : ℕ → Loop) (j : ℕ) (l : Loop) → set_loop subs j l j ≡ l
unfolding set_loop
set_loop-same subs j l = rw (==_refl j) refl

has_pool : (k i : ℕ) → has stops_pool (sub_stops k i) ≡ true
unfolding sub_stops
has_pool zero i = refl
has_pool (suc k) i = has_pool k (i + 1)

has_sub : (k i j : ℕ) → i ≤ j → j < k + i → has (stops_sub j) (sub_stops k i) ≡ true
unfolding sub_stops
has_sub zero i j low high = absurd (omega arith)
has_sub (suc k) i j low high = elim (Bool-cases (i == j)) [
  | inl same ↦ rw same refl
  | inr apart ↦ rw apart (has_sub k (i + 1) j (ground arith) (omega arith))
]

pub start-IsOrderly : (n : ℕ) → IsOrderly n (start n)
unfolding start
start-IsOrderly n = record { own = start-IsOwn n; told = told }
  where
    told :
        (x : StopAction)
        → IsAction n x
        → has x (stops_main ∷ sub_stops n 0) ≡ false
        → flag (start n) x ≡ true
    told stops_main a h = cc
    told stops_pool a h = cc (has_pool n 0, h)
    told (stops_sub j) a h = cc (has_sub n 0 j (omega arith) (omega arith), h)

module _ (write : ℕ → ℕ → ℕ) (read : ℕ → ℕ) where
  -- An action sets its flag and clears none.
  record Acted (n : ℕ) (s t : Threads) (a : StopAction) : Type 0 where
    own : IsOwn n t.pool
    flags : (x : StopAction) → flag s x ≡ true → flag t x ≡ true
    sets : flag t a ≡ true
    left : t.stops_left ≡ s.stops_left

  act-Acted :
      (n : ℕ) (s : Threads) (a : StopAction)
      → IsOwn n s.pool
      → (t : Threads) × (act write read s a ≡ some t) × Acted n s t a
  unfolding act on_sub on_main TaskQueue.step ThreadPool.stop_pool
  act-Acted n s stops_main own =
      (_, refl, record { own = own; flags = flags; sets = refl; left = refl })
    where
      flags :
          (x : StopAction)
          → flag s x ≡ true
          → flag (record s { main = record s.main { stop = true; waking = s.main.waking + 1 } }) x
            ≡ true
      flags stops_main h = refl
      flags stops_pool h = h
      flags (stops_sub j) h = h
  act-Acted n s stops_pool own = (
    _,
    refl,
    record {
      own = record { queue = own.queue; threads = own.threads; few = own.few; size = own.size };
      flags = flags;
      sets = refl;
      left = refl;
    },
  )
    where
      flags :
          (x : StopAction)
          → flag s x ≡ true
          → flag (record s { pool = record s.pool { stop = true } }) x ≡ true
      flags stops_main h = h
      flags stops_pool h = refl
      flags (stops_sub j) h = h
  act-Acted n s (stops_sub j) own = (
    _,
    refl,
    record {
      own = own;
      flags = flags;
      sets = ap (λ l. l.stop) (set_loop-same s.subs j _);
      left = refl;
    },
  )
    where
      flags :
          (x : StopAction)
          → flag s x ≡ true
          → flag
              (record s {
                subs =
                    set_loop s.subs j
                      (record (s.subs j) { stop = true; waking = (s.subs j).waking + 1 });
              })
              x
            ≡ true
      flags stops_main h = h
      flags stops_pool h = h
      flags (stops_sub k) h = set_loop-stop write read s.subs j k _ (λ q. refl) h

  abbrev pub Orders : ℕ → Option Threads → Type 0
  Orders n out = (t : Threads) → out ≡ some t → IsOrderly n t

  -- The next action of `stop`.
  acts-Orders : (n : ℕ) (s : Threads) → IsOrderly n s → Orders n (step write read s acts)
  unfolding step
  acts-Orders n s v = by_left s.stops_left refl
    where
      by_left : (as' : List StopAction) → s.stops_left ≡ as' → Orders n (step write read s acts)
      by_left [] e = rw (e, step) (λ t q. cc)
      by_left (a ∷ rest) e =
          let (u, comes, acted) = act-Acted n (record s { stops_left = rest }) a v.own in
          rw (e, step)
            (λ t q. subst (IsOrderly n) (some-eq (sym comes ∙ q)) (record {
              own = acted.own;
              told = λ x i h. elim (Bool-cases (same_action a x)) [
                | inl same ↦ ap (flag u) (same_action-eq a x same) ∙ acted.sets
                | inr other ↦
                    let gone : has x rest ≡ false = ap (has x) (sym acted.left) ∙ h in
                    let before : has x s.stops_left ≡ false = ap (has x) e ∙ rw other gone in
                    acted.flags x (v.told x i before)
              ];
            }))

  moves-Orders :
      (n : ℕ) (s : Threads) (t : Turn) → t ≢ acts → IsOrderly n s → Orders n (step write read s t)
  moves-Orders n s t h v u comes =
      let m = step-Moves write read n s t v.own h u comes in
      record {
        own = m.own;
        told = λ x i gone. m.flags x (v.told x i (ap (has x) (sym m.stops_left) ∙ gone));
      }

  pub step-Orders :
      (n : ℕ) (s : Threads) (t : Turn) → IsOrderly n s → Orders n (step write read s t)
  step-Orders n s (main_runs r) v = moves-Orders n s (main_runs r) (λ e. cc) v
  step-Orders n s (works i r) v = moves-Orders n s (works i r) (λ e. cc) v
  step-Orders n s acts v = acts-Orders n s v
  step-Orders n s (gives_task j task) v = moves-Orders n s (gives_task j task) (λ e. cc) v
  step-Orders n s (wakes_sub j val) v = moves-Orders n s (wakes_sub j val) (λ e. cc) v
  step-Orders n s (wakes_main val) v = moves-Orders n s (wakes_main val) (λ e. cc) v

  pub run-Orders :
      (n : ℕ) (ts : List Turn) (s : Threads) → IsOrderly n s → Orders n (run write read s ts)
  unfolding run
  run-Orders n [] s v t e = subst (IsOrderly n) (some-eq e) v
  run-Orders n (x ∷ ts) s v t e = elim (Option-cases (step write read s x)) [
    | inl never ↦ cc (rw (never, run) at e)
    | inr (u, comes) ↦ run-Orders n ts u (step-Orders n s x v u comes) t (rw (comes, run) at e)
  ]

  pub orderly-IsStopping :
      (n : ℕ) (s : Threads) → IsOrderly n s → s.stops_left ≡ [] → IsStopping n s
  orderly-IsStopping n s v e = record {
    main = v.told stops_main tt (ap (has stops_main) e);
    pool = v.told stops_pool tt (ap (has stops_pool) e);
    subs = λ j h. v.told (stops_sub j) h (ap (has (stops_sub j)) e);
  }
