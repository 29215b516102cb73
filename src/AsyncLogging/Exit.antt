-- ===== src/AsyncLogging/Exit.antt =====
-- The log thread of the constructor, and `start`.
use reactor_network_library.Prelude.{
  ◌≡◌, refl, ◌∙◌, inl, inr, some, List, [], ◌∷◌, Option-cases, subst,
}
use reactor_network_library.AsyncLogging.{
  append_record, exited, System, init, test, Event, appends, starts, stops, runs, step, run,
}
use reactor_network_library.AsyncLogging.Conserve.{AreLogs}
use reactor_network_library.AsyncLogging.Soundness.{run_sound}

-- The same as `s`, as far as the thread is concerned, which has ended.
abbrev pub StaysEnded : System → System → Type 0
StaysEnded s t = (t.phase ≡ exited) × (t.output ≡ s.output)

some-eq {ℓ} : {A : Type ℓ} {x y : A} → some x ≡ some y → x ≡ y
some-eq e = cc

pub step-StaysEnded :
    (e : Event) (s t : System) → s.phase ≡ exited → step s e ≡ some t → StaysEnded s t
unfolding step
step-StaysEnded (appends log) s t ended h = elim (Option-cases (append_record s.front log)) [
  | inl fails ↦ cc (rw (fails, step) at h)
  | inr (f, goes) ↦ subst (StaysEnded s) (some-eq (rw (goes, step) at h)) (ended, refl)
]
step-StaysEnded starts s t ended h = subst (StaysEnded s) (some-eq h) (ended, refl)
step-StaysEnded stops s t ended h = subst (StaysEnded s) (some-eq h) (ended, refl)
step-StaysEnded runs s t ended h =
    subst (StaysEnded s) (some-eq (rw (ended, step) at h)) (ended, refl)

run-StaysEnded :
    (es : List Event) (s t : System) → s.phase ≡ exited → run s es ≡ some t → StaysEnded s t
unfolding run
run-StaysEnded [] s t ended h = subst (StaysEnded s) (some-eq h) (ended, refl)
run-StaysEnded (e ∷ es) s t ended h = elim (Option-cases (step s e)) [
  | inl fails ↦ cc (rw (fails, run) at h)
  | inr (s', goes) ↦
      let (ended', same) = step-StaysEnded e s s' ended goes in
      let (ended'', same') = run-StaysEnded es s' t ended' (rw (goes, run) at h) in
      (ended'', same' ∙ same)
]

-- If the thread comes to the test of its loop before `start` is called, it ends, and whatever is
-- appended, started or stopped then, nothing is ever written.
pub run-ended :
    (es : List Event)
    → AreLogs es
    → (s : System) × (run init (runs ∷ es) ≡ some s) × (s.phase ≡ exited) × (s.output ≡ [])
unfolding run step test AreLogs
run-ended es logs =
    let (s, e, _, _, _) = run_sound (runs ∷ es) (tt, logs) in
    let (ended, same) = run-StaysEnded es (record init { phase = exited }) s refl e in
    (s, e, ended, same)
