-- ===== src/EventLoop/TaskQueue/Stopping.antt =====
-- `EventLoop::stop` and the end of `loop`, of the main loop as well.
use reactor_network_library.Prelude.{
  ℕ, ◌+◌, ◌≤◌, ◌<◌, ◌≡◌, Bool, true, false, Option, some, List, [], ◌∷◌, length,
}
use reactor_network_library.EventLoop.TaskQueue.{
  polling, ended, Loop, Event, adds_task, stops, wakes, waits, handles_tasks, times_out, run,
}

-- A loop that is to stop is not left asleep.
abbrev Alert : Loop → Type 0
Alert s = s.stop ≡ true → s.phase ≡ polling → 0 < s.counter + s.waking

abbrev Alerts : Option Loop → Type 0
Alerts out = (t : Loop) → out ≡ some t → Alert t

-- No turn of these is a time-out of `epollwait`.
abbrev pub no_timeout : List Event → Bool
no_timeout [] = true
no_timeout (adds_task task ∷ es) = no_timeout es
no_timeout (stops ∷ es) = no_timeout es
no_timeout (wakes val ∷ es) = no_timeout es
no_timeout (waits ∷ es) = no_timeout es
no_timeout (handles_tasks ∷ es) = no_timeout es
no_timeout (times_out ∷ es) = false

module _ (write : ℕ → ℕ → ℕ) (read : ℕ → ℕ) where
  -- A few turns, none of them a time-out, end the loop.
  abbrev pub Ends : Loop → Type 0
  Ends t =
      (us : List Event) × (u : Loop) × (run write read t us ≡ some u)
      × (length us ≤ 3)
      × (no_timeout us ≡ true)
      × (u.phase ≡ ended)
