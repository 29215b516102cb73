-- ===== src/Server/Interest/Tests.antt =====
-- A server with two sub-loops whose epolls watch descriptors 3 and 4 of the loops, with a client, and the
-- theorem at it.
use reactor_network_library.Prelude.{
  ℕ, ◌+◌, ◌≡◌, refl, Bool, true, false, Option, none, some, [], ◌∷◌, arith, lookup, insert, erase,
}
use reactor_network_library.Channel.{create, epollin, setepollet, enablereading, updatechannel}
use reactor_network_library.Channel.Kernel.Listed.{Interests, ctl_list, registered_list, listed}
use reactor_network_library.Server.{Server, adds_to_epoll, created, create_connection, destroyed}
use reactor_network_library.Server.Safety.{accepts, init, step}
use reactor_network_library.Server.Interest.{
  Watch, occurs, writes_on, turn, perform_all, construct, constructed, perform, on_channel,
  connection_channel,
}
use reactor_network_library.Server.Interest.Always.{Runs, here, next, due, interest_lem}

abbrev of_loop : ℕ → ℕ → Option ℕ
of_loop j fd = lookup fd ((3 + j, epollin) ∷ [])

abbrev at_start : Watch Interests
at_start = record { epolls = λ j. (3 + j, epollin) ∷ []; channels = λ conn. create 0 }

abbrev fresh : Server
fresh = init 2 false false

-- Client 7 is accepted.
abbrev with_client : Watch Interests
with_client = (perform_all ctl_list 2 (construct at_start 0 7) (adds_to_epoll 0 ∷ [])).1

accepted-Runs : Runs listed 2 of_loop fresh at_start (created fresh 7) with_client
unfolding turn step create_connection destroyed lookup perform_all construct constructed init
    perform on_channel enablereading updatechannel connection_channel setepollet create
accepted-Runs = next (occurs (accepts 7)) true here (refl, refl) refl

interest_lem_example :
    ((u : Server) × (x : Watch Interests) × (turn ctl_list
          (created fresh 7)
          with_client
          (writes_on 7)
        ≡ some (true, u, x)))
    × ((writing : Bool) × (registered_list (with_client.epolls 1) 7 ≡ due (some 0) writing none))
unfolding lookup created init insert erase
interest_lem_example =
    interest_lem listed 2 of_loop false false at_start (writes_on 7) 1 7 (omega arith) (λ i k. refl)
      accepted-Runs (λ q. cc)
