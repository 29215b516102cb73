-- ===== src/AsyncLogging/Lifetime/Tests.antt =====
-- Lives of an AsyncLogging object, and the instance of the theorem.
use reactor_network_library.Prelude.{◌≡◌, refl, List, [], ◌∷◌, arith}
use reactor_network_library.AsyncLogging.{run, step, test}
use reactor_network_library.AsyncLogging.Conserve.{NulFree}
use reactor_network_library.AsyncLogging.Lifetime.{
  ofstream, throws, terminates, log_event, join, stop_logging, set_output, finish, destroy_log,
  MemberCall, append_call, start_call, stop_call, thread_step, set_output_call, perform_call,
  perform_calls, get_instance, lifetime,
}
use reactor_network_library.AsyncLogging.Lifetime.Verdict.{tally, last_output, AreGood, Ends}
use reactor_network_library.AsyncLogging.Lifetime.Balance.{lifetime_lem}

-- A file is set, a record appended and written, and the log stopped.
abbrev stopped_once : List MemberCall
stopped_once =
    set_output_call (ofstream 3)
    ∷ start_call
    ∷ append_call (72 ∷ 105 ∷ [])
    ∷ thread_step
    ∷ stop_call
    ∷ []

stopped_once-AreGood : AreGood stopped_once
unfolding AreGood NulFree
stopped_once-AreGood = (tt, (tt, ((omega arith, (omega arith, (omega arith, tt))), (tt, (tt, tt)))))

-- It stops again, and it is never started.
stops_again : lifetime (start_call ∷ stop_call ∷ stop_call ∷ []) ≡ throws
unfolding lifetime get_instance perform_calls perform_call destroy_log finish stop_logging join
    log_event set_output run step test
stops_again = refl

never_starts : lifetime (thread_step ∷ []) ≡ terminates
unfolding lifetime get_instance perform_calls perform_call destroy_log finish stop_logging join
    log_event set_output run step test
never_starts = refl

starts_again : lifetime (start_call ∷ stop_call ∷ start_call ∷ []) ≡ terminates
unfolding lifetime get_instance perform_calls perform_call destroy_log finish stop_logging join
    log_event set_output run step test
starts_again = refl

lifetime_lem_example :
    Ends (record { stops = 1; early = 1; late = 0 }) (ofstream 3) (lifetime stopped_once)
unfolding tally last_output
lifetime_lem_example = lifetime_lem stopped_once stopped_once-AreGood
