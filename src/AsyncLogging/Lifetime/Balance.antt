-- ===== src/AsyncLogging/Lifetime/Balance.antt =====
-- Which calls of `start` and `stop` an AsyncLogging object survives.
use reactor_network_library.Prelude.{
  ◌+◌, ◌<◌, ◌≡◌, refl, sym, ap, ◌∙◌, subst, inl, inr, true, false, List, [], ◌∷◌, ◌++◌, arith, ltb,
  Bool-cases, ltb→lt, not_ltb→le, if◌then◌else◌,
}
use reactor_network_library.AsyncLogging.{exited}
use reactor_network_library.AsyncLogging.Soundness.{init-IsSound}
use reactor_network_library.AsyncLogging.Lifetime.{
  other, AsyncLog, Result, returns, throws, terminates, ◌>>=◌, create, get_instance, stop_logging,
  no_except, close_output, finish, destroy_log, MemberCall, perform_calls, lifetime,
}
use reactor_network_library.AsyncLogging.Lifetime.Verdict.{
  Tally, nothing, count, tally, last_output, AreGood, IsBalanced, Ends, ends_well, stops_twice,
  dies, tally-stops,
}
use reactor_network_library.AsyncLogging.Lifetime.Tracking.{
  Tracks, before, after, stop-throws, stop-Follows, perform_call-Follows,
}

-- The destructor, where `m_running` is false, and where it is true.
destroy_log-idle : (a : AsyncLog) → a.system.front.running ≡ false → destroy_log a ≡ finish a
unfolding destroy_log
destroy_log-idle a off =
    ap (λ on. (if on then no_except (stop_logging a) else returns a) >>= finish) off

destroy_log-running :
    (a : AsyncLog) (r : Result)
    → a.system.front.running ≡ true
    → stop_logging a ≡ r
    → destroy_log a ≡ (no_except r >>= finish)
unfolding destroy_log
destroy_log-running a r on e =
    ap (λ o. (if o then no_except (stop_logging a) else returns a) >>= finish) on
    ∙ ap (λ x. no_except x >>= finish) e

finish-joined :
    (a : AsyncLog)
    → a.joinable ≡ false
    → finish a ≡ returns (record a { closed = a.closed ++ close_output a.output })
unfolding finish
finish-joined a held = rw (held, finish) refl

finish-joinable : (a : AsyncLog) → a.joinable ≡ true → finish a ≡ terminates
unfolding finish
finish-joinable a held = rw (held, finish) refl

-- After the first `stop`, or the one of the destructor.
finish-Ends :
    {t : Tally} (b : AsyncLog)
    → IsBalanced t
    → b.joinable ≡ false
    → b.system.phase ≡ exited
    → b.closed ≡ []
    → Ends t b.output (finish b)
finish-Ends {t} b good held ended shut =
    subst (Ends t b.output) (sym (finish-joined b held))
      (ends_well _ good ended (ap (λ x. x ++ close_output b.output) shut))

stopped-Ends :
    {t : Tally} (b : AsyncLog)
    → t.stops ≡ 0
    → 0 < t.early
    → Tracks (record t { stops = t.stops + 1 }) b
    → Ends t b.output (finish b)
stopped-Ends b none_yet started (before none_now early held on shut v) = absurd (omega arith)
stopped-Ends b none_yet started (after once held on shut v ended) =
    finish-Ends b (inl (none_yet, started)) held ended shut

destroy_log-Ends : {t : Tally} {a : AsyncLog} → Tracks t a → Ends t a.output (destroy_log a)
destroy_log-Ends {t} {a} (before none_yet early held on shut v) =
    elim (Bool-cases (ltb 0 t.early)) [
      | inl started ↦ elim (stop-Follows {t = t} {a = a} (before none_yet early held on shut v)) [
        | inl (b, goes, h, same) ↦
            subst (Ends t a.output) (sym (destroy_log-running a (returns b) (on ∙ started) goes)) (
              subst (λ os. Ends t os (finish b)) same
                (stopped-Ends b none_yet (ltb→lt 0 t.early started) h))
        | inr (fails, twice) ↦ absurd (omega (arith, none_yet, twice))
      ]
      | inr never ↦
          subst (Ends t a.output) (sym (destroy_log-idle a (on ∙ never) ∙ finish-joinable a held))
            (dies (inl (none_yet, omega (arith, not_ltb→le 0 t.early never))))
    ]
destroy_log-Ends {t} {a} (after once held on shut v ended) = elim (Bool-cases (ltb 0 t.late)) [
  | inl started ↦
      subst (Ends t a.output)
        (sym (destroy_log-running a throws (on ∙ started) (stop-throws a held)))
        (dies (inr (once, ltb→lt 0 t.late started)))
  | inr never ↦
      subst (Ends t a.output) (sym (destroy_log-idle a (on ∙ never)))
        (finish-Ends a (inr (once, omega (arith, not_ltb→le 0 t.late never))) held ended shut)
]

perform_calls-Ends :
    (cs : List MemberCall) {t : Tally} {a : AsyncLog}
    → AreGood cs
    → Tracks t a
    → Ends (tally t cs) (last_output a.output cs) (perform_calls a cs >>= destroy_log)
unfolding perform_calls tally last_output AreGood
perform_calls-Ends [] good h = destroy_log-Ends h
perform_calls-Ends (c ∷ cs) {t} {a} good h = elim (perform_call-Follows c good.0 h) [
  | inl (b, goes, h', same) ↦
      subst
        (λ r.
          Ends (tally t (c ∷ cs)) (last_output a.output (c ∷ cs))
            (r >>= (λ x. perform_calls x cs) >>= destroy_log))
        (sym goes)
        (subst
          (λ os.
            Ends (tally (count t c) cs) (last_output os cs) (perform_calls b cs >>= destroy_log))
          same (perform_calls-Ends cs good.1 h'))
  | inr (fails, twice) ↦
      subst
        (λ r.
          Ends (tally t (c ∷ cs)) (last_output a.output (c ∷ cs))
            (r >>= (λ x. perform_calls x cs) >>= destroy_log))
        (sym fails) (stops_twice (omega (arith, twice, tally-stops cs (count t c))))
]

-- From its constructor to its destructor, whatever threads call and however far the log thread is, with
-- nobody appending while `stop` waits: the object is destroyed, with its thread ended and the file that
-- was set last closed, exactly if it was started and never stopped, or stopped once and not started
-- again. If `stop` is called a second time, std::system_error is thrown. In all other cases the
-- destructor calls std::terminate. Each record is to fit one buffer and to hold no 0 byte.
pub lifetime_lem :
    (cs : List MemberCall)
    → AreGood cs
    → Ends (tally nothing cs) (last_output other cs) (lifetime cs)
unfolding lifetime get_instance
lifetime_lem cs good =
    perform_calls-Ends cs {t = nothing} {a = create} good
      (before refl refl refl refl refl init-IsSound)
