-- ===== src/AsyncLogging/Lifetime.antt =====
-- src/AsyncLogging.cpp from the constructor to the destructor: the calls of the threads that use the
-- object, between the steps of the log thread, with the handle `m_thread` and the stream `m_output`.
pub mod Joining
pub mod Verdict
pub mod Tracking
pub mod Balance
mod Tests
use reactor_network_library.Prelude.{
  ℕ, ◌+◌, ◌≡◌, Bool, true, false, Option, none, some, List, [], ◌∷◌, ◌++◌, ◌==◌, if◌then◌else◌,
  replicate,
}
use reactor_network_library.AsyncLogging.{
  testing, waiting, exited, holding, System, init, Event, appends, starts, stops, runs, step, run,
}

-- What `m_output` points to: a file stream, with a number, or any other stream.
pub data Stream : Type 0 where
  other : Stream
  ofstream : ℕ → Stream

-- `closed` has the files that the destructor closed; `joinable` is that of `m_thread`.
pub record AsyncLog : Type 0 where
  pub system : System
  pub joinable : Bool
  pub output : Stream
  pub closed : List ℕ

-- How a call ends: it returns, throws std::system_error, calls std::terminate, waits for a thread that
-- does not end, or goes wrong in the buffers.
pub data Result : Type 0 where
  returns : AsyncLog → Result
  throws terminates blocks faults : Result

infixl 5 ◌>>=◌
abbrev pub ◌>>=◌ : Result → (AsyncLog → Result) → Result
returns a >>= f = f a
throws >>= f = throws
terminates >>= f = terminates
blocks >>= f = blocks
faults >>= f = faults

-- The constructor.
abbrev pub create : AsyncLog
create = record { system = init; joinable = true; output = other; closed = [] }

-- `getInstance`: the first call makes the static object, each other one finds it.
unfoldable pub get_instance : Option AsyncLog → AsyncLog
get_instance none = create
get_instance (some a) = a

-- A critical section, a store, or a step of the thread.
unfoldable pub log_event : AsyncLog → Event → Result
log_event a e = elim (step a.system e) [
  | none ↦ faults
  | some s ↦ returns (record a { system = s })
]

-- The steps that `join` gives the thread.
abbrev pub join_steps : ℕ
join_steps = 5

-- `std::thread::join`, while nobody appends.
unfoldable pub join : AsyncLog → Result
join a = elim a.joinable [
  | true ↦ elim (run a.system (replicate join_steps runs)) [
    | none ↦ faults
    | some s ↦ elim s.phase [
      | testing ↦ blocks
      | waiting ↦ blocks
      | holding held ↦ blocks
      | exited ↦ returns (record a { system = s; joinable = false })
    ]
  ]
  | false ↦ throws
]

unfoldable pub stop_logging : AsyncLog → Result
unfolding log_event
stop_logging a = log_event a stops >>= join

unfoldable pub set_output : AsyncLog → Stream → AsyncLog
set_output a os = record a { output = os }

-- An exception leaves no destructor.
abbrev pub no_except : Result → Result
no_except (returns a) = returns a
no_except throws = terminates
no_except terminates = terminates
no_except blocks = blocks
no_except faults = faults

-- `m_output` is closed if it is a file.
abbrev pub close_output : Stream → List ℕ
close_output other = []
close_output (ofstream file) = file ∷ []

-- The end of the destructor, with the one of `m_thread`, which terminates if the thread is joinable.
unfoldable pub finish : AsyncLog → Result
finish a =
    if a.joinable
    then terminates
    else returns (record a { closed = a.closed ++ close_output a.output })

-- The destructor.
unfoldable pub destroy_log : AsyncLog → Result
unfolding finish stop_logging
destroy_log a =
    (if a.system.front.running then no_except (stop_logging a) else returns a) >>= finish

-- A call of a member function, or a step of the log thread.
pub data MemberCall : Type 0 where
  append_call : List ℕ → MemberCall
  start_call stop_call thread_step : MemberCall
  set_output_call : Stream → MemberCall

unfoldable pub perform_call : AsyncLog → MemberCall → Result
unfolding log_event stop_logging set_output
perform_call a (append_call log) = log_event a (appends log)
perform_call a start_call = log_event a starts
perform_call a stop_call = stop_logging a
perform_call a thread_step = log_event a runs
perform_call a (set_output_call os) = returns (set_output a os)

unfoldable pub perform_calls : AsyncLog → List MemberCall → Result
perform_calls a [] = returns a
perform_calls a (c ∷ cs) = perform_call a c >>= λ b. perform_calls b cs

-- The object from the first `getInstance` to its destructor.
unfoldable pub lifetime : List MemberCall → Result
unfolding perform_calls destroy_log get_instance
lifetime cs = perform_calls (get_instance none) cs >>= destroy_log
