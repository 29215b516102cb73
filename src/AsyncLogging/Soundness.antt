-- ===== src/AsyncLogging/Soundness.antt =====
-- Any sequence of calls and steps of the log.
use reactor_network_library.Prelude.{
  ℕ, ◌≤◌, ◌≡◌, refl, sym, ◌∙◌, subst, inl, inr, Bool, true, false, Option, some, List, [], ◌∷◌,
  ◌++◌, arith, leb, length, append_assoc, append-nil, Bool-cases, leb→le, not_leb→lt,
}
use reactor_network_library.AsyncLogging.{
  log_capacity, LogBuffer, reset, cur, available, Front, append_record, Phase, testing, waiting,
  Line, System, init, test, grab, Event, appends, starts, stops, runs, step, run,
}
use reactor_network_library.AsyncLogging.Conserve.{
  NulFree, joined, text_of, AreNulFree, recorded, IsLog, AreLogs, appended_by, kept, Locals,
  at_test, at_wait, at_end, has_one, has_two, IsSound, Goes,
}
use reactor_network_library.AsyncLogging.Steps.{append_here, append_over}
use reactor_network_library.AsyncLogging.Rounds.{system, test-Goes, grab-Goes}
use reactor_network_library.AsyncLogging.Flush.{flush-Goes}

abbrev pub thread : Front → Option LogBuffer → Option LogBuffer → Phase → List Line → System
thread front new1 new2 phase output = record {
  front = front;
  new1 = new1;
  new2 = new2;
  phase = phase;
  output = output;
}

-- The thread's next step, from any phase.
runs-Goes :
    {front : Front} {new1 new2 : Option LogBuffer} {phase : Phase} {output : List Line}
    {past : List ℕ}
    → Locals new1 new2 phase
    → IsSound (thread front new1 new2 phase output) past
    → Goes (step (thread front new1 new2 phase output) runs) past
unfolding step joined
runs-Goes {front} {output} {past} at_test v =
    subst
      (λ m.
        IsSound
          (system m front.next front.buffers front.running (some reset) (some reset) testing output)
          past
        → Goes
            (test (
              system m front.next front.buffers front.running (some reset) (some reset) testing
                output))
            past)
      (sym v.here) (test-Goes front.running output v.active) v
runs-Goes {front} {output} {past} at_wait v =
    subst
      (λ m.
        IsSound
          (system m front.next front.buffers front.running (some reset) (some reset) waiting output)
          past
        → Goes
            (grab (
              system m front.next front.buffers front.running (some reset) (some reset) waiting
                output))
            past)
      (sym v.here) (λ w. grab-Goes front.running output v.active w v.plain v.stream) v
runs-Goes at_end v = (_, refl, v)
runs-Goes (has_one {held} pos) v = flush-Goes held (has_one pos) v
runs-Goes (has_two {held} two) v = flush-Goes held (has_two two) v

step-append_record :
    (s : System) (log : List ℕ) (f : Front)
    → append_record s.front log ≡ some f
    → step s (appends log) ≡ some (record s { front = f })
unfolding step
step-append_record s log f e = rw (e, step) refl

append-Goes :
    (s : System) {past : List ℕ} (log : List ℕ)
    → length log ≤ log_capacity
    → NulFree log
    → IsSound s past
    → Goes (step s (appends log)) (past ++ log)
append-Goes s log small plain v = elim (Bool-cases (leb (length log) (available v.active))) [
  | inl room ↦
      let (f, e, w) = append_here log v (leb→le _ _ room) plain in
      (record s { front = f }, step-append_record s log f e, w)
  | inr full ↦
      let (f, e, w) = append_over log v (not_leb→lt _ _ full) small plain in
      (record s { front = f }, step-append_record s log f e, w)
]

pub switch-IsSound :
    {s : System} {past : List ℕ} (on : Bool)
    → IsSound s past
    → IsSound (record s { front = record s.front { running = on } }) past
switch-IsSound on v = record {
  active = v.active;
  here = v.here;
  fits = v.fits;
  plain = v.plain;
  queued = v.queued;
  grabbed = v.grabbed;
  spares = v.spares;
  locals = v.locals;
  occupied = v.occupied;
  stream = v.stream;
}

pub step-Goes :
    (e : Event) {s : System} {past : List ℕ}
    → IsLog e
    → IsSound s past
    → Goes (step s e) (past ++ appended_by e)
unfolding step
step-Goes (appends log) {s} h v = append-Goes s log h.0 h.1 v
step-Goes starts {s} {past} h v =
    subst (Goes (step s starts)) (sym (append-nil past)) (_, refl, switch-IsSound true v)
step-Goes stops {s} {past} h v =
    subst (Goes (step s stops)) (sym (append-nil past)) (_, refl, switch-IsSound false v)
step-Goes runs {s} {past} h v =
    subst (Goes (step s runs)) (sym (append-nil past)) (runs-Goes v.locals v)

pub init-IsSound : IsSound init []
unfolding joined text_of NulFree AreNulFree
init-IsSound = record {
  active = reset;
  here = refl;
  fits = omega arith;
  plain = tt;
  queued = tt;
  grabbed = tt;
  spares = kept;
  locals = at_test;
  occupied = λ busy. absurd (omega (arith, busy));
  stream = λ whole. refl;
}

run-cons :
    (s s' : System) (e : Event) (es : List Event) → step s e ≡ some s' → run s (e ∷ es) ≡ run s' es
unfolding run
run-cons s s' e es h = rw (h, run) refl

pub run-Goes :
    (es : List Event) {s : System} {past : List ℕ}
    → AreLogs es
    → IsSound s past
    → Goes (run s es) (past ++ recorded es)
unfolding run AreLogs recorded
run-Goes [] {s} {past} logs v = (s, refl, subst (IsSound s) (sym (append-nil past)) v)
run-Goes (e ∷ es) {s} {past} logs v =
    let (s₁, e₁, v₁) = step-Goes e logs.0 v in
    let (s₂, e₂, v₂) = run-Goes es logs.1 v₁ in
    (
      s₂,
      run-cons s s₁ e es e₁ ∙ e₂,
      subst (IsSound s₂) (append_assoc past (appended_by e) (recorded es)) v₂,
    )

pub run_sound :
    (es : List Event)
    → AreLogs es
    → (s : System) × (run init es ≡ some s)
      × (b : LogBuffer) × (s.front.current ≡ some b)
      × (cur b ≤ log_capacity)
run_sound es logs =
    let (s, e, v) = run-Goes es logs init-IsSound in (s, e, v.active, v.here, v.fits)
