-- ===== src/Server/Tests.antt =====
-- A server with two sub-loops, a run of events, and the theorems at it.
use reactor_network_library.EventLoop.Recency.{
  new_connection, update_connection, splice_front, deref, unlink,
}
use reactor_network_library.Server.Clock.{stamp, stamped}
use reactor_network_library.Server.Timing.{Lives, starts, ticks, happens, handle_timer_lem}
use reactor_network_library.Prelude.{
  ◌≡◌, refl, true, false, some, List, [], ◌∷◌, arith, lookup, ℕ, insert, erase, none,
}
use reactor_network_library.Server.{
  Server, Effect, created, create_connection, adds_to_epoll, user_created, destroyed, touch,
  update_loop, handle_timer,
}
use reactor_network_library.Server.Ownership.{Agrees}
use reactor_network_library.Server.Safety.{
  accepts, active, closes, step, init, Reach, here, next, Reach-safe,
}

abbrev fresh_server : Server
fresh_server = init 2 true false

abbrev accepted : Server
accepted = created fresh_server 7

accepted-Reach : Reach fresh_server accepted
unfolding step create_connection init destroyed lookup
accepted-Reach = next (accepts 7) (adds_to_epoll 0 ∷ user_created 7 ∷ []) here refl refl

Reach-safe_example :
    Agrees accepted
    × ((r : Server × List Effect) × (step accepted (closes 1 7) ≡ some r) × Agrees r.0)
unfolding init created
Reach-safe_example = Reach-safe 2 true false (closes 1 7) (omega arith) accepted-Reach refl

never : ℕ → ℕ
never k = 0

abbrev active_once : Server
unfolding touch
active_once = elim (touch accepted 1 7) [ none ↦ accepted | some t ↦ t ]

-- Made at 5, active at 8; the timer fires at 20.
active_once-Lives :
    Lives 2 true false active_once (stamped (active 1 7) 8 (stamped (accepts 7) 5 never)) 20
unfolding step create_connection init created destroyed lookup touch update_connection splice_front
    deref unlink new_connection update_loop insert active_once
active_once-Lives =
    ticks 20
      (happens (active 1 7) []
        (ticks 8
          (happens (accepts 7) (adds_to_epoll 0 ∷ user_created 7 ∷ []) (starts never 5) refl tt
            refl)
          (omega arith))
        tt refl refl)
      (omega arith)

active_once-timed :
    (fd conn : ℕ)
    → lookup fd active_once.client_connection_map ≡ some conn
    → 8 ≡ stamped (active 1 7) 8 (stamped (accepts 7) 5 never) fd
unfolding stamped stamp lookup insert created init active_once touch update_connection splice_front
    deref unlink new_connection update_loop erase
active_once-timed fd conn e = ground arith

handle_timer_lem_example :
    lookup 7 (handle_timer active_once 1 (λ c. 8) 20 10).0.client_connection_map ≡ none
unfolding stamped stamp created init active_once touch update_connection lookup update_loop
    new_connection insert deref
handle_timer_lem_example =
    handle_timer_lem 2 true false 1 10 (λ c. 8) (omega arith) active_once-Lives active_once-timed 7
