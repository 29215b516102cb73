-- ===== src/Wiring/Tests.antt =====
-- A server with two sub-threads: bytes for a client on its second loop.
use reactor_network_library.Prelude.{◌≡◌, refl, true, false, some, [], ◌∷◌, inr}
use reactor_network_library.Channel.Dispatch.{Report}
use reactor_network_library.Wiring.{
  connection_onmessage, server_handlemessage, echo_handle_on_message, new_sub_loop, new_echo_server,
}
use reactor_network_library.Wiring.Reached.{serves, reached}
use reactor_network_library.Wiring.Calls.{reached_lem}

abbrev bytes_came : Report
bytes_came = record {
  input = true;
  priority = false;
  output = false;
  error = false;
  hangup = false;
  rdhup = false;
}

reached_lem_example :
    reached (new_echo_server 2) new_sub_loop (serves bytes_came)
    ≡ some (connection_onmessage ∷ server_handlemessage ∷ echo_handle_on_message ∷ [])
unfolding new_echo_server new_sub_loop
reached_lem_example =
    reached_lem 2 new_sub_loop (serves bytes_came) (inr (1, refl)) (refl, refl, refl)
