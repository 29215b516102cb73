-- ===== src/AsyncLogging/Tests.antt =====
-- Runs on small inputs, and the instances of the theorems.
use reactor_network_library.Prelude.{false, ◌≡◌, some, List, [], ◌∷◌, arith}
use reactor_network_library.AsyncLogging.{
  testing, reset, exited, System, text, init, Event, appends, starts, stops, runs, run,
}
use reactor_network_library.AsyncLogging.Conserve.{AreLogs, NulFree}
use reactor_network_library.AsyncLogging.Exit.{run-ended}

-- A record, a round of the thread, another record, and the thread's next test.
abbrev calls : List Event
calls = starts ∷ appends (72 ∷ 105 ∷ []) ∷ runs ∷ runs ∷ appends (33 ∷ []) ∷ runs ∷ stops ∷ []

calls-AreLogs : AreLogs calls
unfolding AreLogs NulFree
calls-AreLogs = (
  tt,
  (
    (omega arith, (omega arith, (omega arith, tt))),
    (tt, (tt, ((omega arith, (omega arith, tt)), (tt, (tt, tt))))),
  ),
)

abbrev final : System
final = record {
  front = record {
    current = some (record { bytes = 33 ∷ [] });
    next = some reset;
    buffers = [];
    running = false;
  };
  new1 = some reset;
  new2 = some reset;
  phase = testing;
  output = text (72 ∷ 105 ∷ []) ∷ [];
}

run-ended_example :
    (s : System) × (run init (runs ∷ calls) ≡ some s) × (s.phase ≡ exited) × (s.output ≡ [])
run-ended_example = run-ended calls calls-AreLogs
