-- ===== src/AsyncLogging/Drain.antt =====
-- The end of the log thread after `AsyncLogging::stop` cleared `m_running`.
use reactor_network_library.Prelude.{
  ℕ, suc, ◌≤◌, ◌<◌, ◌≡◌, ◌≢◌, refl, sym, ap, ap₂, ◌∙◌, subst, inl, inr, Bool, true, false, ◌&&◌,
  Option, none, some, List, [], ◌∷◌, ◌++◌, arith, ltb, ◌==◌, is_empty, length, replicate,
  append-nil, Bool-cases, lt→ltb, le→not_ltb, ltb→lt, not_ltb→le,
}
use reactor_network_library.AsyncLogging.{
  LogBuffer, reset, cur, Front, Phase, testing, waiting, exited, holding, Line, System, restored,
  test, grab, drop_excess, write_all, flush, runs, step, run,
}
use reactor_network_library.AsyncLogging.Conserve.{
  Locals, at_test, at_wait, at_end, has_one, has_two, IsSound,
}
use reactor_network_library.AsyncLogging.Flush.{refill_lem}
use reactor_network_library.AsyncLogging.Soundness.{thread, step-Goes}

pub some-eq {ℓ} : {A : Type ℓ} {x y : A} → some x ≡ some y → x ≡ y
some-eq e = cc

and-false : (a : Bool) → (a && false) ≡ false
and-false true = refl
and-false false = refl

no_buffers : (bs : List LogBuffer) → (0 < length bs → ⊥) → bs ≡ []
no_buffers [] h = refl
no_buffers (b ∷ bs) h = absurd (h (omega arith))

pub nil-of_length : (xs : List ℕ) → length xs ≡ 0 → xs ≡ []
nil-of_length [] e = refl
nil-of_length (x ∷ xs) e = absurd (omega arith)

-- The current buffer and the queue are empty.
abbrev pub IsIdle : Front → Type 0
IsIdle f = (b : LogBuffer) × (f.current ≡ some b) × (cur b ≡ 0) × (f.buffers ≡ [])

-- At most `k` steps of the thread end it, with nothing left.
abbrev pub Drains : ℕ → System → Type 0
Drains k s =
    (n : ℕ) × (t : System) × (n ≤ k)
    × (run s (replicate n runs) ≡ some t)
    × (t.phase ≡ exited)
    × IsIdle t.front

drain-cons : {k : ℕ} (s s' : System) → step s runs ≡ some s' → Drains k s' → Drains (suc k) s
unfolding run
drain-cons s s' goes (n, t, few, e, ends, idle) =
    (suc n, t, omega arith, rw (goes, run) e, ends, idle)

drain_more : {j : ℕ} (k : ℕ) (s : System) → j ≤ k → Drains j s → Drains k s
drain_more k s h (n, t, few, e, ends, idle) = (n, t, omega arith, e, ends, idle)

-- What the callers and the thread share once `m_running` is false.
abbrev pub stopped_front : LogBuffer → Option LogBuffer → List LogBuffer → Front
stopped_front b next buffers = record {
  current = some b;
  next = next;
  buffers = buffers;
  running = false;
}

module _ (b : LogBuffer) (next : Option LogBuffer) (buffers : List LogBuffer)
    (new1 new2 : Option LogBuffer) (output : List Line) where
  test-ends :
      cur b ≡ 0
      → step (thread (stopped_front b next buffers) new1 new2 testing output) runs
        ≡ some (thread (stopped_front b next buffers) new1 new2 exited output)
  unfolding step test
  test-ends e = rw (le→not_ltb 0 (cur b) (omega (arith, e)), step, test) refl

  test-waits :
      0 < cur b
      → step (thread (stopped_front b next buffers) new1 new2 testing output) runs
        ≡ some (thread (stopped_front b next buffers) new1 new2 waiting output)
  unfolding step test
  test-waits h = rw (lt→ltb 0 (cur b) h, step, test) refl

  grab-tests :
      cur b ≡ 0
      → buffers ≡ []
      → step (thread (stopped_front b next buffers) new1 new2 waiting output) runs
        ≡ some (thread (stopped_front b next buffers) new1 new2 testing output)
  unfolding step grab
  grab-tests e empty =
      let nothing : (is_empty buffers && (cur b == 0)) ≡ true =
        ap₂ ◌&&◌ (ap is_empty empty) (ap (λ n. n == 0) e) in
      rw (nothing, step, grab) refl

  grab-holds :
      0 < cur b
      → step (thread (stopped_front b next buffers) (some reset) new2 waiting output) runs
        ≡ some (
            thread
              (stopped_front reset (restored next new2).0 [])
              none
              (restored next new2).1
              (holding (buffers ++ (b ∷ [])))
              output)
  unfolding step grab
  grab-holds h =
      let full : (cur b == 0) ≡ false = ground arith in
      let more : (is_empty buffers && (cur b == 0)) ≡ false =
        ap (λ c. is_empty buffers && c) full ∙ and-false (is_empty buffers) in
      rw (more, step, grab) refl

flush-tests :
    (front : Front) {new1 new2 : Option LogBuffer} (held : List LogBuffer) (output : List Line)
    → Locals new1 new2 (holding held)
    → step (thread front new1 new2 (holding held) output) runs
      ≡ some (
          thread front
            (some reset)
            (some reset)
            testing
            (output ++ (drop_excess held).0 ++ write_all (drop_excess held).1))
unfolding step flush
flush-tests front held output l =
    let (left, last, e₁, e₂) = refill_lem held l in rw (e₁, step, flush) (rw (e₂, step, flush) refl)

-- The invariant after a step of the thread.
stays-IsSound :
    {s t : System} {past : List ℕ} → IsSound s past → step s runs ≡ some t → IsSound t past
stays-IsSound {s} {t} {past} v goes =
    let (u, e, w) = step-Goes runs {s = s} tt v in
    subst (λ x. IsSound x past) (some-eq (sym e ∙ goes)) (subst (IsSound u) (append-nil past) w)

module _ (b : LogBuffer) (next : Option LogBuffer) (buffers : List LogBuffer) where
  from_empty :
      (new1 new2 : Option LogBuffer) (output : List Line)
      → cur b ≡ 0
      → buffers ≡ []
      → Drains 1 (thread (stopped_front b next buffers) new1 new2 testing output)
  unfolding run
  from_empty new1 new2 output e empty = (
    1,
    thread (stopped_front b next buffers) new1 new2 exited output,
    omega arith,
    rw (test-ends b next buffers new1 new2 output e, run) refl,
    refl,
    (b, refl, e, empty),
  )

module _ (b : LogBuffer) (next : Option LogBuffer) (buffers : List LogBuffer) where
  -- With something in the buffer, from the wait on.
  from_wait :
      {past : List ℕ} (output : List Line)
      → 0 < cur b
      → IsSound
          (thread (stopped_front b next buffers) (some reset) (some reset) waiting output)
          past
      → Drains 3 (thread (stopped_front b next buffers) (some reset) (some reset) waiting output)
  from_wait {past} output h v =
      let s = thread (stopped_front b next buffers) (some reset) (some reset) waiting output in
      let after = restored next (some reset) in
      let held = buffers ++ (b ∷ []) in
      let t = thread (stopped_front reset after.0 []) none after.1 (holding held) output in
      let grabs = grab-holds b next buffers (some reset) (some reset) output h in
      let w : IsSound t past = stays-IsSound v grabs in
      let out = output ++ (drop_excess held).0 ++ write_all (drop_excess held).1 in
      let u = thread (stopped_front reset after.0 []) (some reset) (some reset) testing out in
      drain-cons s t grabs (
        drain-cons t u (flush-tests (stopped_front reset after.0 []) held output w.locals)
          (from_empty reset after.0 [] (some reset) (some reset) out refl refl))

  -- The queue is empty if the current buffer is.
  queue-nil :
      {new1 new2 : Option LogBuffer} {phase : Phase} {output : List Line} {past : List ℕ}
      → IsSound (thread (stopped_front b next buffers) new1 new2 phase output) past
      → cur b ≡ 0
      → buffers ≡ []
  queue-nil v e =
      no_buffers buffers λ busy. omega (arith, v.occupied busy, e, ap cur (some-eq v.here))

  from_test :
      {past : List ℕ} (output : List Line)
      → IsSound
          (thread (stopped_front b next buffers) (some reset) (some reset) testing output)
          past
      → Drains 4 (thread (stopped_front b next buffers) (some reset) (some reset) testing output)
  from_test output v =
      let s = thread (stopped_front b next buffers) (some reset) (some reset) testing output in
      let t = thread (stopped_front b next buffers) (some reset) (some reset) waiting output in
      elim (Bool-cases (ltb 0 (cur b))) [
        | inl some_left ↦
            let h = ltb→lt 0 (cur b) some_left in
            let goes = test-waits b next buffers (some reset) (some reset) output h in
            drain-cons s t goes (from_wait output h (stays-IsSound v goes))
        | inr none_left ↦
            let e : cur b ≡ 0 = omega (arith, not_ltb→le 0 (cur b) none_left) in
            drain_more 4 s (omega arith)
              (from_empty b next buffers (some reset) (some reset) output e (queue-nil v e))
      ]

  from_waiting :
      {past : List ℕ} (output : List Line)
      → IsSound
          (thread (stopped_front b next buffers) (some reset) (some reset) waiting output)
          past
      → Drains 3 (thread (stopped_front b next buffers) (some reset) (some reset) waiting output)
  from_waiting output v =
      let s = thread (stopped_front b next buffers) (some reset) (some reset) waiting output in
      let t = thread (stopped_front b next buffers) (some reset) (some reset) testing output in
      elim (Bool-cases (ltb 0 (cur b))) [
        | inl some_left ↦ from_wait output (ltb→lt 0 (cur b) some_left) v
        | inr none_left ↦
            let e : cur b ≡ 0 = omega (arith, not_ltb→le 0 (cur b) none_left) in
            let empty = queue-nil v e in
            drain_more 3 s (omega arith) (
              drain-cons s t (grab-tests b next buffers (some reset) (some reset) output e empty)
                (from_empty b next buffers (some reset) (some reset) output e empty))
      ]

  -- From any phase.
  pub from_phase :
      {new1 new2 : Option LogBuffer} {phase : Phase} {past : List ℕ} (output : List Line)
      → Locals new1 new2 phase
      → phase ≢ exited
      → IsSound (thread (stopped_front b next buffers) new1 new2 phase output) past
      → Drains 5 (thread (stopped_front b next buffers) new1 new2 phase output)
  from_phase output at_test alive v = drain_more 5 _ (omega arith) (from_test output v)
  from_phase output at_wait alive v = drain_more 5 _ (omega arith) (from_waiting output v)
  from_phase output at_end alive v = absurd (alive refl)
  from_phase output (has_one {held} pos) alive v =
      let goes = flush-tests (stopped_front b next buffers) held output (has_one pos) in
      drain-cons _ _ goes (from_test _ (stays-IsSound v goes))
  from_phase output (has_two {held} two) alive v =
      let goes = flush-tests (stopped_front b next buffers) held output (has_two two) in
      drain-cons _ _ goes (from_test _ (stays-IsSound v goes))
