-- ===== src/Wiring/Stored.antt =====
-- What the constructors of src/TcpServer.cpp and example/EchoServer.cpp leave behind.
use reactor_network_library.Prelude.{
  ℕ, zero, suc, ◌≡◌, refl, sym, ap₂, ◌∙◌, true, some, List, [], ◌∷◌, ◌++◌, replicate, append_assoc,
  append-nil, get_elem?,
}
use reactor_network_library.Wiring.{
  server_createconnection, server_eventlooptimeout, echo_handle_new_connection,
  echo_handle_delete_connection, echo_handle_event_loop_timeout, echo_handle_on_message,
  echo_handle_send_complete, LoopCalls, ServerCalls, new_loop, new_sub_loop, new_acceptor,
  setonconnectcb, sethandletimeout, add_sub_loops, new_echo_server,
}

snoc_replicate :
    (k : ℕ) (x : LoopCalls) (xs : List LoopCalls)
    → (xs ++ (x ∷ [])) ++ replicate k x ≡ xs ++ replicate (suc k) x
snoc_replicate k x xs = append_assoc xs (x ∷ []) (replicate k x)

-- The loop of the constructor makes so many loops alike, and hands each out as it is.
add_sub_loops_lem :
    (k : ℕ) (s : ServerCalls)
    → add_sub_loops k s ≡ record s {
      psubloop = s.psubloop ++ replicate k new_sub_loop;
      running = s.running ++ replicate k new_sub_loop;
    }
unfolding add_sub_loops
add_sub_loops_lem zero s =
    ap₂ (λ p r. record s { psubloop = p; running = r }) (sym (append-nil s.psubloop))
      (sym (append-nil s.running))
add_sub_loops_lem (suc k) s =
    add_sub_loops_lem k _
    ∙ ap₂ (λ p r. record s { psubloop = p; running = r }) (snoc_replicate k new_sub_loop s.psubloop)
        (snoc_replicate k new_sub_loop s.running)

abbrev pub main_loop : LoopCalls
unfolding sethandletimeout
main_loop = sethandletimeout (new_loop true) server_eventlooptimeout

-- The EchoServer's functions.
abbrev pub wired : List LoopCalls → ServerCalls
unfolding setonconnectcb
wired loops = record {
  mainloop = main_loop;
  acceptor = setonconnectcb new_acceptor server_createconnection;
  psubloop = loops;
  running = loops;
  handlecreateconnectioncb = some echo_handle_new_connection;
  handledeleteconnectioncb = some echo_handle_delete_connection;
  handlemessage = some echo_handle_on_message;
  handlesendcomplete = some echo_handle_send_complete;
  handleeventlooptimeout = some echo_handle_event_loop_timeout;
}

pub new_echo_server_lem : (nums : ℕ) → new_echo_server nums ≡ wired (replicate nums new_sub_loop)
unfolding new_echo_server
new_echo_server_lem nums = rw add_sub_loops_lem refl

pub get_elem?-replicate : (k i : ℕ) (x l : LoopCalls) → get_elem? (replicate k x) i ≡ some l → l ≡ x
get_elem?-replicate zero i x l e = cc
get_elem?-replicate (suc k) zero x l e = cc
get_elem?-replicate (suc k) (suc i) x l e = get_elem?-replicate k i x l e
