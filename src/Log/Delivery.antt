-- ===== src/Log/Delivery.antt =====
-- The destructor of Log (src/Log.cpp) with the log thread of src/AsyncLogging.cpp against the destructor
-- without one.
use reactor_network_library.Prelude.{
  ℕ, ◌≤◌, ◌≡◌, ◌≢◌, ◌⊎◌, refl, ap, true, false, some, List, [], ◌∷◌, ◌++◌, replicate, subst,
}
use reactor_network_library.AsyncLogging.{System, Event, appends, starts, stops, runs, run, exited}
use reactor_network_library.AsyncLogging
use reactor_network_library.AsyncLogging.Conserve.{AreLogs, recorded, text_of, is_whole}
use reactor_network_library.AsyncLogging.Ending.{run_drains}
use reactor_network_library.Log.{Log}
use reactor_network_library.Log.Message.{LogCall, sets_output, appends_to_log, writes, destroy}

-- A Log object with a text is destroyed, in some state of the static members; or `start`, `stop` or
-- the log thread takes a turn.
pub data Turn : Type 0 where
  logs : Log → List ℕ → Turn
  launched stopped turned : Turn

-- What the calls of a destructor are to the AsyncLogging, and what they write to a stream.
unfoldable pub log_calls : List LogCall → List Event
log_calls [] = []
log_calls (sets_output k ∷ os) = log_calls os
log_calls (appends_to_log t ∷ os) = appends t ∷ log_calls os
log_calls (writes k t ∷ os) = log_calls os

unfoldable pub stream_text : List LogCall → List ℕ
stream_text [] = []
stream_text (sets_output k ∷ os) = stream_text os
stream_text (appends_to_log t ∷ os) = stream_text os
stream_text (writes k t ∷ os) = t ++ stream_text os

-- The events of the AsyncLogging, where it exists.
unfoldable pub log_events : List Turn → List Event
unfolding log_calls destroy
log_events [] = []
log_events (logs l os ∷ ts) = log_calls (destroy true l os) ++ log_events ts
log_events (launched ∷ ts) = starts ∷ log_events ts
log_events (stopped ∷ ts) = stops ∷ log_events ts
log_events (turned ∷ ts) = runs ∷ log_events ts

-- The text that the same objects write at once, where there is none.
unfoldable pub direct_text : List Turn → List ℕ
unfolding stream_text destroy
direct_text [] = []
direct_text (logs l os ∷ ts) = stream_text (destroy false l os) ++ direct_text ts
direct_text (launched ∷ ts) = direct_text ts
direct_text (stopped ∷ ts) = direct_text ts
direct_text (turned ∷ ts) = direct_text ts

recorded-log_events : (ts : List Turn) → recorded (log_events ts) ≡ direct_text ts
unfolding recorded log_events direct_text destroy log_calls stream_text
recorded-log_events [] = refl
recorded-log_events (logs l os ∷ ts) = ap (λ u. (os ++ (10 ∷ [])) ++ u) (recorded-log_events ts)
recorded-log_events (launched ∷ ts) = recorded-log_events ts
recorded-log_events (stopped ∷ ts) = recorded-log_events ts
recorded-log_events (turned ∷ ts) = recorded-log_events ts

-- Log objects whose lines each fit a buffer of the AsyncLogging and hold no 0 byte, and turns of the
-- log thread, in any order. When `stop` has cleared `m_running` and the thread has not ended yet, at
-- most five more steps end it, and then the log is the text that the same objects write without an
-- AsyncLogging, unless a notice says that buffers were dropped.
pub log_lem :
    (ts : List Turn) (s : System)
    → AreLogs (log_events ts)
    → run AsyncLogging.init (log_events ts) ≡ some s
    → s.front.running ≡ false
    → s.phase ≢ exited
    → (n : ℕ) × (t : System) × (n ≤ 5)
      × (run s (replicate n runs) ≡ some t)
      × (t.phase ≡ exited)
      × ((text_of t.output ≡ direct_text ts) ⊎ (is_whole t.output ≡ false))
log_lem ts s fit ran off alive =
    let (n, t, few, goes, ends, all) = run_drains (log_events ts) s fit ran off alive in
    (
      n,
      t,
      few,
      goes,
      ends,
      subst (λ u. (text_of t.output ≡ u) ⊎ (is_whole t.output ≡ false)) (recorded-log_events ts)
          all,
    )
