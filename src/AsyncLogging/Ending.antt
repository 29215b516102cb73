-- ===== src/AsyncLogging/Ending.antt =====
-- What is written when the log thread has ended after `AsyncLogging::stop`.
use reactor_network_library.Prelude.{
  ℕ, zero, suc, ◌≤◌, ◌≡◌, ◌≢◌, ◌⊎◌, refl, sym, ap, ap₂, ◌∙◌, subst, inl, inr, true, false, some,
  List, [], ◌++◌, replicate, append-nil, Bool-cases,
}
use reactor_network_library.AsyncLogging.{exited, System, init, Event, runs, run}
use reactor_network_library.AsyncLogging.Conserve.{
  joined, text_of, is_whole, AreLogs, recorded, held_by, IsSound,
}
use reactor_network_library.AsyncLogging.Soundness.{run-Goes, init-IsSound}
use reactor_network_library.AsyncLogging.Drain.{
  some-eq, nil-of_length, IsIdle, Drains, stopped_front, from_phase,
}

pub runs-AreLogs : (n : ℕ) → AreLogs (replicate n runs)
unfolding AreLogs
runs-AreLogs zero = tt
runs-AreLogs (suc n) = (tt, runs-AreLogs n)

pub recorded-runs : (n : ℕ) → recorded (replicate n runs) ≡ []
unfolding recorded
recorded-runs zero = refl
recorded-runs (suc n) = recorded-runs n

-- Where nothing waits, all that was appended is written.
all_written :
    {t : System} {past : List ℕ}
    → t.phase ≡ exited
    → IsIdle t.front
    → IsSound t past
    → is_whole t.output ≡ true
    → text_of t.output ≡ past
unfolding joined
all_written {t} {past} ends (b, here, none_left, empty) v whole =
    let active : v.active.bytes ≡ [] =
      ap (λ c. c.bytes) (some-eq (sym v.here ∙ here)) ∙ nil-of_length b.bytes none_left in
    sym (
      ap₂ (λ u w. text_of t.output ++ joined (held_by u) ++ joined w ++ v.active.bytes) ends empty
      ∙ ap (λ u. text_of t.output ++ [] ++ [] ++ u) active
      ∙ append-nil _
      ∙ append-nil _
      ∙ append-nil _)
    ∙ v.stream whole

-- Once `m_running` is false, a thread that has not ended does so.
pub stopped-Drains :
    (s : System) {past : List ℕ}
    → IsSound s past
    → s.front.running ≡ false
    → s.phase ≢ exited
    → Drains 5 s
stopped-Drains s {past} v off alive =
    let same : s.front ≡ stopped_front v.active s.front.next s.front.buffers =
      ap₂ (λ c r. record s.front { current = c; running = r }) v.here off in
    subst (λ f. Drains 5 (record s { front = f })) (sym same)
      (from_phase v.active s.front.next s.front.buffers s.output v.locals alive
        (subst (λ f. IsSound (record s { front = f }) past) same v))

pub run_drains :
    (es : List Event) (s : System)
    → AreLogs es
    → run init es ≡ some s
    → s.front.running ≡ false
    → s.phase ≢ exited
    → (n : ℕ) × (t : System) × (n ≤ 5)
      × (run s (replicate n runs) ≡ some t)
      × (t.phase ≡ exited)
      × ((text_of t.output ≡ recorded es) ⊎ (is_whole t.output ≡ false))
run_drains es s logs ran off alive =
    let (s', e, v') = run-Goes es logs init-IsSound in
    let v : IsSound s (recorded es) =
      subst (λ x. IsSound x (recorded es)) (some-eq (sym e ∙ ran)) v' in
    let (n, t, few, goes, ends, idle) = stopped-Drains s v off alive in
    let (t', e', w') = run-Goes (replicate n runs) {s = s} (runs-AreLogs n) v in
    let w : IsSound t (recorded es) =
      subst (λ x. IsSound x (recorded es)) (some-eq (sym e' ∙ goes))
        (subst (IsSound t')
          (ap (λ u. recorded es ++ u) (recorded-runs n) ∙ append-nil (recorded es)) w') in
    (
      n,
      t,
      few,
      goes,
      ends,
      elim (Bool-cases (is_whole t.output)) [
        | inl whole ↦ inl (all_written ends idle w whole)
        | inr dropped ↦ inr dropped
      ],
    )
