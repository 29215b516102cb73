-- ===== src/Log/Message.antt =====
-- src/Log.cpp: the text of a Log object and what its destructor does with it. The thread's number and
-- the text that std::put_time makes of the time are arguments. A number is written in decimal.
use reactor_network_library.Prelude.{ℕ, Bool, List, [], ◌∷◌, ◌++◌, if◌then◌else◌}
use reactor_network_library.TimesTamp.{decimal}
use reactor_network_library.Log.{Log, Sink, get_output_stream}

pub data Level : Type 0 where
  debug info warn error : Level

-- `level2str`. No Level is left for "UNKN ".
unfoldable pub level2str : Level → List ℕ
level2str debug = 68 ∷ 69 ∷ 66 ∷ 85 ∷ 71 ∷ []
level2str info = 73 ∷ 78 ∷ 70 ∷ 79 ∷ 32 ∷ []
level2str warn = 87 ∷ 65 ∷ 82 ∷ 78 ∷ 32 ∷ []
level2str error = 69 ∷ 82 ∷ 82 ∷ 79 ∷ 82 ∷ []

abbrev pub bracketed : List ℕ → List ℕ
bracketed t = 91 ∷ (t ++ (93 ∷ []))

-- `os_` after the constructor: `[INFO ][PID:7][2024-01-01 00:00:00][a.cpp:3][f] `.
unfoldable pub open_message : Level → ℕ → List ℕ → List ℕ → ℕ → List ℕ → List ℕ
unfolding level2str
open_message lv tid time_text file line func =
    bracketed (level2str lv)
    ++ bracketed ((80 ∷ 73 ∷ 68 ∷ 58 ∷ []) ++ decimal 20 tid)
    ++ bracketed time_text
    ++ bracketed (file ++ (58 ∷ decimal 10 line))
    ++ bracketed func
    ++ (32 ∷ [])

-- What the destructor calls: `setOutput` and `Append` of the AsyncLogging, or `operator<<` of the
-- stream.
pub data LogCall : Type 0 where
  sets_output : Sink → LogCall
  appends_to_log : List ℕ → LogCall
  writes : Sink → List ℕ → LogCall

-- `~Log`; `exist` is `AsyncLogging::exist`, and `os` the text of `os_`.
unfoldable pub destroy : Bool → Log → List ℕ → List LogCall
destroy exist s os =
    if exist
    then sets_output (get_output_stream s) ∷ appends_to_log (os ++ (10 ∷ [])) ∷ []
    else writes (get_output_stream s) os ∷ writes (get_output_stream s) (10 ∷ []) ∷ []
