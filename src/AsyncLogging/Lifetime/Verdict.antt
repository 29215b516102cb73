-- ===== src/AsyncLogging/Lifetime/Verdict.antt =====
-- What the calls of `start` and `stop` make of the object.
use reactor_network_library.Prelude.{
  ℕ, ◌+◌, ◌≤◌, ◌<◌, ◌≡◌, ◌⊎◌, refl, List, [], ◌∷◌, arith, length, zero, suc,
}
use reactor_network_library.AsyncLogging.{log_capacity, exited}
use reactor_network_library.AsyncLogging.Conserve.{NulFree}
use reactor_network_library.AsyncLogging.Lifetime.{
  Stream, AsyncLog, Result, returns, throws, terminates, close_output, MemberCall, append_call,
  start_call, stop_call, thread_step, set_output_call,
}

-- The calls of `stop`, those of `start` before the first of them, and those of `start` after it.
pub record Tally : Type 0 where
  pub stops : ℕ
  pub early : ℕ
  pub late : ℕ

abbrev pub nothing : Tally
nothing = record { stops = 0; early = 0; late = 0 }

abbrev pub count_start : ℕ → Tally → Tally
count_start zero t = record t { early = t.early + 1 }
count_start (suc k) t = record t { late = t.late + 1 }

abbrev pub count : Tally → MemberCall → Tally
count t (append_call log) = t
count t start_call = count_start t.stops t
count t stop_call = record t { stops = t.stops + 1 }
count t thread_step = t
count t (set_output_call os) = t

unfoldable pub tally : Tally → List MemberCall → Tally
tally t [] = t
tally t (c ∷ cs) = tally (count t c) cs

-- The stream that was set last.
abbrev pub new_output : Stream → MemberCall → Stream
new_output os (append_call log) = os
new_output os start_call = os
new_output os stop_call = os
new_output os thread_step = os
new_output os (set_output_call new) = new

unfoldable pub last_output : Stream → List MemberCall → Stream
last_output os [] = os
last_output os (c ∷ cs) = last_output (new_output os c) cs

-- Records that one buffer can hold, without a 0 byte.
abbrev pub IsGood : MemberCall → Type 0
IsGood (append_call log) = (length log ≤ log_capacity) × NulFree log
IsGood start_call = Unit {0}
IsGood stop_call = Unit {0}
IsGood thread_step = Unit {0}
IsGood (set_output_call os) = Unit {0}

unfoldable pub AreGood : List MemberCall → Type 0
AreGood [] = Unit {0}
AreGood (c ∷ cs) = IsGood c × AreGood cs

-- Started and never stopped, or stopped once and not started again.
abbrev pub IsBalanced : Tally → Type 0
IsBalanced t = ((t.stops ≡ 0) × (0 < t.early)) ⊎ ((t.stops ≡ 1) × (t.late ≡ 0))

-- Never started and never stopped, or stopped once and then started.
abbrev pub IsUnbalanced : Tally → Type 0
IsUnbalanced t = ((t.stops ≡ 0) × (t.early ≡ 0)) ⊎ ((t.stops ≡ 1) × (0 < t.late))

-- How the object ends, given the calls and the stream set last.
pub data Ends (t : Tally) (os : Stream) : Result → Type 0 where
  ends_well :
      (a : AsyncLog)
      → IsBalanced t
      → a.system.phase ≡ exited
      → a.closed ≡ close_output os
      → Ends t os (returns a)
  stops_twice : 2 ≤ t.stops → Ends t os throws
  dies : IsUnbalanced t → Ends t os terminates

pub tally-stops : (cs : List MemberCall) (t : Tally) → t.stops ≤ (tally t cs).stops
unfolding tally
tally-stops [] t = omega arith
tally-stops (c ∷ cs) t = omega (arith, count-stops c, tally-stops cs (count t c))
  where
    start-stops : (k : ℕ) (t : Tally) → (count_start k t).stops ≡ t.stops
    start-stops zero t = refl
    start-stops (suc k) t = refl

    count-stops : (c : MemberCall) → t.stops ≤ (count t c).stops
    count-stops (append_call log) = omega arith
    count-stops start_call = omega (arith, start-stops t.stops t)
    count-stops stop_call = omega arith
    count-stops thread_step = omega arith
    count-stops (set_output_call os) = omega arith
