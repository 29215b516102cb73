-- ===== src/Wiring/Reached.antt =====
-- Which functions the calls of the library reach: the callbacks of a Channel, what their handlers call in
-- turn, and where src/TcpServer.cpp looks at its callback first.
use reactor_network_library.Prelude.{Option, none, some, List, [], ◌∷◌, ◌++◌, if◌then◌else◌}
use reactor_network_library.Channel.{
  Callback, readevent, closeconnection, writeevent, create, handleevents, sethappenevents,
}
use reactor_network_library.Channel.Dispatch.{Report, report_bits}
use reactor_network_library.Wiring.{
  Handler, loop_handle_timer, connection_onmessage, connection_sendto, acceptor_onconnect,
  server_createconnection, server_eventlooptimeout, server_deleteconnection, server_handlemessage,
  server_sendcomplete, Function, ChannelCalls, LoopCalls, ServerCalls, created_connection,
}

-- What `handleevents` calls for each of its three branches.
unfoldable pub callback : ChannelCalls → Callback → Function
callback c readevent = c.readeventcb
callback c closeconnection = c.closeconnectioncb
callback c writeevent = c.writeeventcb

-- The callback that a TcpServer calls if it is set.
unfoldable pub guarded : ServerCalls → Handler → Function
guarded s server_createconnection = s.handlecreateconnectioncb
guarded s server_deleteconnection = s.handledeleteconnectioncb
guarded s server_handlemessage = s.handlemessage
guarded s server_sendcomplete = s.handlesendcomplete
guarded s server_eventlooptimeout = s.handleeventlooptimeout
guarded s _ = none

-- A call: `none` throws. The function, and what it calls in turn if that is set.
unfoldable pub call : ServerCalls → Function → Option (List Handler)
unfolding guarded
call s none = none
call s (some h) = elim (guarded s h) [ none ↦ some (h ∷ []) | some user ↦ some (h ∷ user ∷ []) ]

-- What the body of a handler calls with no test, if it calls anything: `loop` is the EventLoop that
-- it runs on.
unfoldable pub body : ServerCalls → LoopCalls → Handler → Option Function
unfolding created_connection
body s l loop_handle_timer = if l.ismainloop then none else some l.timer_callback
body s l connection_onmessage = some created_connection.handlemessagecb
body s l connection_sendto = some created_connection.sendcompletecb
body s l acceptor_onconnect = some s.acceptor.onconnectcb
body s l _ = none

-- A callback of a Channel, and all that it leads to.
unfoldable pub lead : ServerCalls → LoopCalls → Function → Option (List Handler)
unfolding body call
lead s l none = none
lead s l (some h) = elim (body s l h) [
  | none ↦ some (h ∷ [])
  | some next ↦ elim (call s next) [ none ↦ none | some hs ↦ some (h ∷ hs) ]
]

unfoldable pub lead_all :
    ServerCalls → LoopCalls → ChannelCalls → List Callback → Option (List Handler)
unfolding lead callback
lead_all s l c [] = some []
lead_all s l c (x ∷ xs) = elim (lead s l (callback c x)) [
  | none ↦ none
  | some hs ↦ elim (lead_all s l c xs) [ none ↦ none | some rest ↦ some (hs ++ rest) ]
]

-- Where a loop calls: a Channel of its own, of the Acceptor or of a Connection has events; a time-out;
-- a descriptor that `deleteConnection` takes out.
pub data Site : Type 0 where
  wakes ticks accepts serves : Report → Site
  times_out deletes : Site

unfoldable pub reached : ServerCalls → LoopCalls → Site → Option (List Handler)
unfolding lead_all call created_connection
reached s l (wakes r) =
    lead_all s l l.wakechannel (handleevents (sethappenevents (create 0) (report_bits r)))
reached s l (ticks r) =
    lead_all s l l.timerchannel (handleevents (sethappenevents (create 0) (report_bits r)))
reached s l (accepts r) =
    lead_all s l s.acceptor.channel (handleevents (sethappenevents (create 0) (report_bits r)))
reached s l (serves r) =
    lead_all s l created_connection.channel
      (handleevents (sethappenevents (create 0) (report_bits r)))
reached s l times_out = call s l.handletimeout
reached s l deletes = call s l.delay_delete_callback
