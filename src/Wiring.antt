-- ===== src/Wiring.antt =====
-- The callbacks of src/Channel.cpp, src/EventLoop.cpp, src/Connection.cpp, src/Acceptor.cpp,
-- src/TcpServer.cpp and example/EchoServer.cpp: what the constructors and the setters store, and which
-- function a call reaches. A std::function is `none` where nothing was stored; to call it then throws
-- std::bad_function_call.
pub mod Stored
pub mod Reached
pub mod Calls
mod Tests
use reactor_network_library.Prelude.{
  ℕ, zero, suc, ◌+◌, Bool, true, false, Option, none, some, List, [], ◌∷◌, ◌++◌, if◌then◌else◌,
  replicate,
}
use reactor_network_library.Channel.{Callback, readevent, closeconnection, writeevent}
use reactor_network_library.EventLoop.Dispatch.{
  Call, handles_events, deletes_connection, handles_timeout,
}

-- The member functions that callbacks call, of the EventLoop, the Connection, the Acceptor and the
-- TcpServer; and those of the EchoServer.
pub data Handler : Type 0 where
  loop_handle_wake_up loop_handle_timer : Handler
  connection_onmessage connection_closeconnection connection_sendto : Handler
  acceptor_onconnect : Handler
  server_createconnection server_eventlooptimeout server_remove_timeout_connection
        server_deleteconnection server_handlemessage server_sendcomplete :
      Handler
  echo_handle_new_connection echo_handle_delete_connection echo_handle_event_loop_timeout
        echo_handle_on_message echo_handle_send_complete :
      Handler

abbrev pub Function : Type 0
Function = Option Handler

-- The callbacks of a Channel.
pub record ChannelCalls : Type 0 where
  pub readeventcb : Function
  pub closeconnectioncb : Function
  pub writeeventcb : Function

abbrev pub no_calls : ChannelCalls
no_calls = record { readeventcb = none; closeconnectioncb = none; writeeventcb = none }

unfoldable pub setreadeventcb : ChannelCalls → Handler → ChannelCalls
setreadeventcb c func = record c { readeventcb = some func }

unfoldable pub setcloseconnectioncb : ChannelCalls → Handler → ChannelCalls
setcloseconnectioncb c func = record c { closeconnectioncb = some func }

unfoldable pub setwriteeventcb : ChannelCalls → Handler → ChannelCalls
setwriteeventcb c func = record c { writeeventcb = some func }

-- The callbacks of an EventLoop, and of its Channels for the eventfd and the timer.
pub record LoopCalls : Type 0 where
  pub ismainloop : Bool
  pub wakechannel : ChannelCalls
  pub timerchannel : ChannelCalls
  pub handletimeout : Function
  pub timer_callback : Function
  pub delay_delete_callback : Function

-- The constructor of EventLoop.
unfoldable pub new_loop : Bool → LoopCalls
unfolding setreadeventcb
new_loop ismainloop = record {
  ismainloop = ismainloop;
  wakechannel = setreadeventcb no_calls loop_handle_wake_up;
  timerchannel = setreadeventcb no_calls loop_handle_timer;
  handletimeout = none;
  timer_callback = none;
  delay_delete_callback = none;
}

unfoldable pub sethandletimeout : LoopCalls → Handler → LoopCalls
sethandletimeout l func = record l { handletimeout = some func }

unfoldable pub settimer_callback : LoopCalls → Handler → LoopCalls
settimer_callback l func = record l { timer_callback = some func }

unfoldable pub setdelay_delete_callback : LoopCalls → Handler → LoopCalls
setdelay_delete_callback l func = record l { delay_delete_callback = some func }

-- The callbacks of a Connection.
pub record ConnectionCalls : Type 0 where
  pub channel : ChannelCalls
  pub handlemessagecb : Function
  pub sendcompletecb : Function

-- The constructor of Connection.
unfoldable pub new_connection_calls : ConnectionCalls
unfolding setreadeventcb setcloseconnectioncb setwriteeventcb
new_connection_calls = record {
  channel =
      setwriteeventcb
        (setcloseconnectioncb (setreadeventcb no_calls connection_onmessage)
          connection_closeconnection)
        connection_sendto;
  handlemessagecb = none;
  sendcompletecb = none;
}

unfoldable pub sethandlemessage : ConnectionCalls → Handler → ConnectionCalls
sethandlemessage c func = record c { handlemessagecb = some func }

unfoldable pub setsendcomplete : ConnectionCalls → Handler → ConnectionCalls
setsendcomplete c func = record c { sendcompletecb = some func }

-- The callbacks of an Acceptor.
pub record AcceptorCalls : Type 0 where
  pub channel : ChannelCalls
  pub onconnectcb : Function

-- The constructor of Acceptor.
unfoldable pub new_acceptor : AcceptorCalls
unfolding setreadeventcb
new_acceptor = record { channel = setreadeventcb no_calls acceptor_onconnect; onconnectcb = none }

unfoldable pub setonconnectcb : AcceptorCalls → Handler → AcceptorCalls
setonconnectcb a fn = record a { onconnectcb = some fn }

-- The callbacks of a TcpServer, with its Acceptor and its loops. `running` has the loops as they were
-- when `AddTask` handed each to a thread.
pub record ServerCalls : Type 0 where
  pub mainloop : LoopCalls
  pub acceptor : AcceptorCalls
  pub psubloop : List LoopCalls
  pub running : List LoopCalls
  pub handlecreateconnectioncb : Function
  pub handledeleteconnectioncb : Function
  pub handlemessage : Function
  pub handlesendcomplete : Function
  pub handleeventlooptimeout : Function

-- A round of the `for` loop in the constructor.
unfoldable pub new_sub_loop : LoopCalls
unfolding new_loop sethandletimeout settimer_callback setdelay_delete_callback
new_sub_loop =
    setdelay_delete_callback
      (settimer_callback (sethandletimeout (new_loop false) server_eventlooptimeout)
        server_remove_timeout_connection)
      server_deleteconnection

unfoldable pub add_sub_loops : ℕ → ServerCalls → ServerCalls
add_sub_loops zero s = s
add_sub_loops (suc k) s = add_sub_loops k (record s {
  psubloop = s.psubloop ++ (new_sub_loop ∷ []);
  running = s.running ++ (new_sub_loop ∷ []);
})

-- The constructor of TcpServer, with so many sub-threads.
unfoldable pub new_server : ℕ → ServerCalls
unfolding add_sub_loops new_acceptor setonconnectcb sethandletimeout new_loop
new_server nums = add_sub_loops nums (record {
  mainloop = sethandletimeout (new_loop true) server_eventlooptimeout;
  acceptor = setonconnectcb new_acceptor server_createconnection;
  psubloop = [];
  running = [];
  handlecreateconnectioncb = none;
  handledeleteconnectioncb = none;
  handlemessage = none;
  handlesendcomplete = none;
  handleeventlooptimeout = none;
})

unfoldable pub sethandlecreateconnectioncb : ServerCalls → Handler → ServerCalls
sethandlecreateconnectioncb s func = record s { handlecreateconnectioncb = some func }

unfoldable pub sethandledeleteconnectioncb : ServerCalls → Handler → ServerCalls
sethandledeleteconnectioncb s func = record s { handledeleteconnectioncb = some func }

unfoldable pub sethandlemessage_of : ServerCalls → Handler → ServerCalls
sethandlemessage_of s func = record s { handlemessage = some func }

unfoldable pub sethandlesendcomplete : ServerCalls → Handler → ServerCalls
sethandlesendcomplete s func = record s { handlesendcomplete = some func }

unfoldable pub sethandleeventlooptimeout : ServerCalls → Handler → ServerCalls
sethandleeventlooptimeout s func = record s { handleeventlooptimeout = some func }

-- The constructor of EchoServer.
unfoldable pub new_echo_server : ℕ → ServerCalls
unfolding new_server sethandlecreateconnectioncb sethandledeleteconnectioncb sethandlemessage_of
    sethandlesendcomplete sethandleeventlooptimeout
new_echo_server subthreads =
    sethandlesendcomplete
      (sethandlemessage_of
        (sethandleeventlooptimeout
          (sethandledeleteconnectioncb
            (sethandlecreateconnectioncb (new_server subthreads) echo_handle_new_connection)
            echo_handle_delete_connection)
          echo_handle_event_loop_timeout)
        echo_handle_on_message)
      echo_handle_send_complete

-- What `createconnection` stores in a new Connection.
unfoldable pub created_connection : ConnectionCalls
unfolding new_connection_calls sethandlemessage setsendcomplete
created_connection =
    setsendcomplete (sethandlemessage new_connection_calls server_handlemessage) server_sendcomplete
