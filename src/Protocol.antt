-- ===== src/Protocol.antt =====
-- A client of StressTest/test.cpp and the server of example/EchoServer.cpp without worker threads,
-- over one connection: `OnMessage` runs on the thread of the loop.
pub mod Echoed
mod Tests
use reactor_network_library.Prelude.{ℕ, true, List, [], ◌∷◌, ◌++◌, map}
use reactor_network_library.Connection.{Connection, SendResult}
use reactor_network_library.Connection.Outgoing.{Outgoing, Event, sends, writable}
use reactor_network_library.Echo.{Act, message, closes, on_message, reply_prefix}

-- What `OnMessage` sends for the messages of some read events.
unfoldable pub reply_events : List Act → List Event
reply_events [] = []
reply_events (message msg ∷ acts) = sends true (on_message msg) ∷ reply_events acts
reply_events (closes ∷ acts) = reply_events acts

-- Nothing was sent on the connection before.
abbrev pub unsent : Connection → Outgoing
unsent c = record { conn = c; tasks = []; taken = [] }

-- The replies, and the write events after them.
abbrev pub echo_events : List Act → List (List SendResult) → List Event
echo_events acts writes = reply_events acts ++ map writable writes

-- The text of a reply.
abbrev pub reply_text : List ℕ → List ℕ
reply_text msg = reply_prefix ++ msg
