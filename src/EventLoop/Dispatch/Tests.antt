-- ===== src/EventLoop/Dispatch/Tests.antt =====
-- Two ready Channels, and the instance of the theorem.
use reactor_network_library.Prelude.{◌≡◌, refl, true, false, some, List, [], ◌∷◌, eintr}
use reactor_network_library.Channel.{create, sethappenevents}
use reactor_network_library.EventLoop.Dispatch.{
  Answer, failed, ready, Call, handles_events, handles_timeout, deletes_connection, epollwait,
  round, loop,
}
use reactor_network_library.EventLoop.Dispatch.Rounds.{round_lem}

abbrev both : Answer
both = ready ((create 5, 1) ∷ (create 6, 4) ∷ [])

abbrev loop_trace : List Call
loop_trace =
    handles_events (sethappenevents (create 5) 1)
    ∷ handles_events (sethappenevents (create 6) 4)
    ∷ deletes_connection
    ∷ handles_timeout
    ∷ []

-- The second time-out is skipped: `errno` is still that of the interrupted call.
loop_runs :
    loop 0 (
      (false, both)
      ∷ (false, ready [])
      ∷ (false, failed eintr)
      ∷ (false, ready [])
      ∷ (true, both)
      ∷ [])
    ≡ some loop_trace
unfolding loop round epollwait
loop_runs = refl

round_lem_example : round 0 both ≡ (
  false,
  handles_events (sethappenevents (create 5) 1)
      ∷ handles_events (sethappenevents (create 6) 4)
      ∷ deletes_connection
      ∷ [],
)
round_lem_example = round_lem 0 both
