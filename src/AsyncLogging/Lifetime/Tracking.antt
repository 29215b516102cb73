-- ===== src/AsyncLogging/Lifetime/Tracking.antt =====
-- The object after each call of its members.
use reactor_network_library.Prelude.{
  ℕ, ◌+◌, ◌≤◌, ◌≡◌, ◌⊎◌, refl, sym, ap, ◌∙◌, subst, inl, inr, true, false, some, List, [], arith,
  ltb, lt→ltb, replicate,
}
use reactor_network_library.AsyncLogging.{
  Phase, testing, waiting, exited, holding, System, Event, appends, starts, runs, step, run,
}
use reactor_network_library.AsyncLogging.Conserve.{IsLog, IsSound}
use reactor_network_library.AsyncLogging.Soundness.{step-Goes, switch-IsSound}
use reactor_network_library.AsyncLogging.Exit.{step-StaysEnded}
use reactor_network_library.AsyncLogging.Lifetime.{
  Stream, AsyncLog, Result, returns, throws, blocks, join_steps, log_event, join, stop_logging,
  set_output, MemberCall, append_call, start_call, stop_call, thread_step, set_output_call,
  perform_call,
}
use reactor_network_library.AsyncLogging.Lifetime.Joining.{
  SameRunning, append-SameRunning, runs-SameRunning, joined_lem,
}
use reactor_network_library.AsyncLogging.Lifetime.Verdict.{
  Tally, count_start, count, new_output, IsGood,
}

-- The object while its calls are `t`: before the first `stop`, or after it.
pub data Tracks (t : Tally) (a : AsyncLog) : Type 0 where
  before :
      {past : List ℕ}
      → t.stops ≡ 0
      → t.late ≡ 0
      → a.joinable ≡ true
      → a.system.front.running ≡ ltb 0 t.early
      → a.closed ≡ []
      → IsSound a.system past
      → Tracks t a
  after :
      {past : List ℕ}
      → t.stops ≡ 1
      → a.joinable ≡ false
      → a.system.front.running ≡ ltb 0 t.late
      → a.closed ≡ []
      → IsSound a.system past
      → a.system.phase ≡ exited
      → Tracks t a

-- A call returns, with the object as it should be and its output, or it throws.
abbrev pub Follows : Tally → Stream → Result → Type 0
Follows t os r =
    ((b : AsyncLog) × (r ≡ returns b) × Tracks t b × (b.output ≡ os))
    ⊎ ((r ≡ throws) × (2 ≤ t.stops))

log_event_lem :
    (a : AsyncLog) (e : Event) (s : System)
    → step a.system e ≡ some s
    → log_event a e ≡ returns (record a { system = s })
unfolding log_event
log_event_lem a e s goes = rw (goes, log_event) refl

-- A record, or a step of the thread.
quiet :
    {t : Tally} {a : AsyncLog} (e : Event)
    → IsLog e
    → SameRunning a.system (step a.system e)
    → Tracks t a
    → Follows t a.output (log_event a e)
quiet {a = a} e good same (before none_yet early held on shut v) =
    let (s, goes, w) = step-Goes e good v in
    inl (
      record a { system = s },
      log_event_lem a e s goes,
      before none_yet early held (subst (SameRunning a.system) goes same ∙ on) shut w,
      refl,
    )
quiet {a = a} e good same (after once held on shut v ended) =
    let (s, goes, w) = step-Goes e good v in
    inl (
      record a { system = s },
      log_event_lem a e s goes,
      after once held (subst (SameRunning a.system) goes same ∙ on) shut w
          (step-StaysEnded e a.system s ended goes).0,
      refl,
    )

start-Follows :
    {t : Tally} {a : AsyncLog}
    → Tracks t a
    → Follows (count_start t.stops t) a.output (log_event a starts)
unfolding log_event step
start-Follows {t} {a} (before none_yet early held on shut v) =
    subst (λ u. Follows u a.output (log_event a starts)) (sym (ap (λ k. count_start k t) none_yet))
      (inl (
        _,
        refl,
        before none_yet early held (sym (lt→ltb 0 (t.early + 1) (omega arith))) shut
            (switch-IsSound true v),
        refl,
      ))
start-Follows {t} {a} (after once held on shut v ended) =
    subst (λ u. Follows u a.output (log_event a starts)) (sym (ap (λ k. count_start k t) once))
      (inl (
        _,
        refl,
        after once held (sym (lt→ltb 0 (t.late + 1) (omega arith))) shut (switch-IsSound true v)
            ended,
        refl,
      ))

join_returns :
    (a : AsyncLog) (u : System)
    → a.joinable ≡ true
    → run a.system (replicate join_steps runs) ≡ some u
    → u.phase ≡ exited
    → join a ≡ returns (record a { system = u; joinable = false })
unfolding join
join_returns a u held goes ends = rw (held, join) (rw (goes, join) (at_phase u.phase ends))
  where
    at_phase :
        (p : Phase)
        → p ≡ exited
        → elim p [
          | testing ↦ blocks
          | waiting ↦ blocks
          | holding held ↦ blocks
          | exited ↦ returns (record a { system = u; joinable = false })
        ]
          ≡ returns (record a { system = u; joinable = false })
    at_phase testing e = cc
    at_phase waiting e = cc
    at_phase (holding held) e = cc
    at_phase exited e = refl

pub stop-throws : (a : AsyncLog) → a.joinable ≡ false → stop_logging a ≡ throws
unfolding stop_logging log_event step join
stop-throws a held = rw (held, join) refl

pub stop-Follows :
    {t : Tally} {a : AsyncLog}
    → Tracks t a
    → Follows (record t { stops = t.stops + 1 }) a.output (stop_logging a)
unfolding stop_logging log_event step
stop-Follows {t} {a} (before none_yet early held on shut v) =
    let (u, goes, ends, off, w) =
      joined_lem (record a.system { front = record a.system.front { running = false } })
        (switch-IsSound false v) refl in
    inl (
      record a { system = u; joinable = false },
      join_returns _ u held goes ends,
      after (omega (arith, none_yet)) refl (off ∙ sym (ap (ltb 0) early)) shut w ends,
      refl,
    )
stop-Follows {t} {a} (after once held on shut v ended) =
    inr (stop-throws a held, omega (arith, once))

pub perform_call-Follows :
    {t : Tally} {a : AsyncLog} (c : MemberCall)
    → IsGood c
    → Tracks t a
    → Follows (count t c) (new_output a.output c) (perform_call a c)
unfolding perform_call set_output
perform_call-Follows {a = a} (append_call log) good h =
    quiet (appends log) good (append-SameRunning a.system log) h
perform_call-Follows start_call good h = start-Follows h
perform_call-Follows stop_call good h = stop-Follows h
perform_call-Follows {a = a} thread_step good h = quiet runs tt (runs-SameRunning a.system) h
perform_call-Follows {a = a} (set_output_call os) good (before none_yet early held on shut v) =
    inl (record a { output = os }, refl, before none_yet early held on shut v, refl)
perform_call-Follows {a = a} (set_output_call os) good (after once held on shut v ended) =
    inl (record a { output = os }, refl, after once held on shut v ended, refl)
