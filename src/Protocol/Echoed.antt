-- ===== src/Protocol/Echoed.antt =====
-- Every request of the client is answered, and counted, once.
use reactor_network_library.Prelude.{ℕ, List, [], ◌++◌}
use reactor_network_library.Buffer.Inv
use reactor_network_library.Connection.{Connection, write_to}
use reactor_network_library.Connection.Outgoing.{Outgoing}
use reactor_network_library.Connection.Outgoing.Merge.{Merge}
use reactor_network_library.Echo.{on_message}
use reactor_network_library.Stress.Receive

-- A connection with a reply.
abbrev replied : Outgoing → List ℕ → Outgoing
replied s msg = record s { conn = write_to s.conn (on_message msg); tasks = s.tasks ++ [] }
