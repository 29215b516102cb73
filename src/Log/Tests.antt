-- ===== src/Log/Tests.antt =====
-- A log on the console and one in a file "a", and the instances of the theorems.
use reactor_network_library.Prelude.{
  ℕ, ◌≡◌, ◌≤◌, ◌⊎◌, refl, Bool, true, false, some, List, [], ◌∷◌, arith, replicate,
}
use reactor_network_library.AsyncLogging
use reactor_network_library.AsyncLogging.{
  System, reset, text, testing, exited, runs, run, step, test, grab, flush, append_record, append,
  available, until_nul, drop_excess, refill, pop_back,
}
use reactor_network_library.AsyncLogging.Conserve.{AreLogs, NulFree, text_of, is_whole}
use reactor_network_library.TimesTamp.{decimal}
use reactor_network_library.Log.Message.{level2str, info, open_message, destroy}
use reactor_network_library.Log.Delivery.{
  Turn, logs, launched, stopped, turned, log_calls, log_events, direct_text, stream_text, log_lem,
}
use reactor_network_library.Log.{
  console, file, Log, init, to_file, get_output_stream, set_output_target,
}
use reactor_network_library.Log.Output.{IsOnConsole, set_output_target_lem}

abbrev opens_all : List ℕ → Bool
opens_all name = true

abbrev in_file : Log
in_file = record {
  output_target = file;
  log_file = record { name = some (48 ∷ 95 ∷ 97 ∷ []); failbit = false };
  output_file_name = 97 ∷ [];
}

abbrev today : List ℕ
today = 48 ∷ []

abbrev other_name : List ℕ
other_name = 98 ∷ []

first_file : set_output_target opens_all init file today (97 ∷ []) ≡ in_file
unfolding set_output_target
first_file = refl

set_output_target_lem_example :
    (get_output_stream (set_output_target opens_all init file today other_name)
      ≡ to_file (48 ∷ 95 ∷ 98 ∷ []))
    × IsOnConsole (
        set_output_target opens_all
          (set_output_target opens_all init file today other_name)
          console
          today
          other_name)
set_output_target_lem_example =
    set_output_target_lem opens_all init today other_name today other_name (refl, refl) refl

-- `[INFO ][PID:12][0][a:3][f] `
info_message :
    open_message info 12 (48 ∷ []) (97 ∷ []) 3 (102 ∷ [])
    ≡ 91 ∷ 73 ∷ 78 ∷ 70 ∷ 79 ∷ 32 ∷ 93 ∷ 91 ∷ 80 ∷ 73 ∷ 68 ∷ 58 ∷ 49 ∷ 50 ∷ 93 ∷ 91 ∷ 48 ∷ 93 ∷ 91
      ∷ 97 ∷ 58 ∷ 51 ∷ 93 ∷ 91 ∷ 102 ∷ 93 ∷ 32 ∷ []
unfolding open_message level2str decimal
info_message = refl

-- One line is written by the thread, the other is in the buffer at `stop`.
abbrev two_lines : List Turn
two_lines =
    launched
    ∷ logs init (72 ∷ [])
    ∷ turned
    ∷ turned
    ∷ turned
    ∷ logs in_file (73 ∷ [])
    ∷ stopped
    ∷ []

abbrev at_stop : System
at_stop = record {
  front = record {
    current = some (record { bytes = 73 ∷ 10 ∷ [] });
    next = some reset;
    buffers = [];
    running = false;
  };
  new1 = some reset;
  new2 = some reset;
  phase = testing;
  output = text (72 ∷ 10 ∷ []) ∷ [];
}

two_lines-AreLogs : AreLogs (log_events two_lines)
unfolding AreLogs NulFree log_events log_calls destroy
two_lines-AreLogs = (
  tt,
  (
    (omega arith, (omega arith, (omega arith, tt))),
    (tt, (tt, (tt, ((omega arith, (omega arith, (omega arith, tt))), (tt, tt))))),
  ),
)

two_lines-run : run AsyncLogging.init (log_events two_lines) ≡ some at_stop
unfolding log_events log_calls destroy run step test grab flush append_record append available
    until_nul drop_excess refill pop_back
two_lines-run = refl

log_lem_example :
    (n : ℕ) × (t : System) × (n ≤ 5)
    × (run at_stop (replicate n runs) ≡ some t)
    × (t.phase ≡ exited)
    × ((text_of t.output ≡ 72 ∷ 10 ∷ 73 ∷ 10 ∷ []) ⊎ (is_whole t.output ≡ false))
unfolding direct_text stream_text destroy
log_lem_example = log_lem two_lines at_stop two_lines-AreLogs two_lines-run refl (λ e. cc)
