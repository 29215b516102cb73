-- ===== src/Connection/Outgoing.antt =====
-- The way of a message out of a Connection, over any sequence of events: `send` on the thread of the
-- loop or on another one, the task that `send` leaves for the loop, and `sendto` when the socket has
-- room (src/Connection.cpp).
pub mod Merge
pub mod Steps
pub mod Order
use reactor_network_library.Prelude.{
  ℕ, ◌≤◌, ◌≡◌, Bool, true, false, Option, none, some, List, [], ◌∷◌, ◌++◌, if◌then◌else◌, length,
}
use reactor_network_library.Buffer.{readable_bytes}
use reactor_network_library.Buffer.Inv.{Fits}
use reactor_network_library.Connection.{Connection, SendResult, sendto, write_to, send}
use reactor_network_library.Connection.Transmit.{Takes}

-- `tasks` has the messages of the `writeTo` tasks that wait in the loop, `taken` the bytes that the
-- kernel took so far.
pub record Outgoing : Type 0 where
  pub conn : Connection
  pub tasks : List (List ℕ)
  pub taken : List ℕ

-- A thread calls `send`, on the loop's thread or not; the loop runs the oldest task; `epollwait`
-- reports room to write.
pub data Event : Type 0 where
  sends : Bool → List ℕ → Event
  runs_task : Event
  writable : List SendResult → Event

unfoldable pub run_task : Outgoing → List (List ℕ) → Outgoing
run_task s [] = s
run_task s (msg ∷ tasks) = record s { conn = write_to s.conn msg; tasks = tasks }

unfoldable pub step : Outgoing → Event → Option Outgoing
unfolding run_task
step s (sends here msg) =
    let (c, tasks) = send here s.conn msg in some (record s { conn = c; tasks = s.tasks ++ tasks })
step s runs_task = some (run_task s s.tasks)
step s (writable rs) = elim (sendto s.conn rs) [
  | none ↦ none
  | some (c, bytes, calls) ↦ some (record s { conn = c; taken = s.taken ++ bytes })
]

unfoldable pub run : Outgoing → List Event → Option Outgoing
run s [] = some s
run s (e ∷ es) = elim (step s e) [ none ↦ none | some t ↦ run t es ]

-- The message that an event sends from one side, the loop's thread or the others: none if the
-- connection was marked closed before.
unfoldable pub offer : Bool → Outgoing → Event → List (List ℕ)
offer true s (sends true msg) = if s.conn.disconnect then [] else msg ∷ []
offer true s (sends false msg) = []
offer false s (sends true msg) = []
offer false s (sends false msg) = if s.conn.disconnect then [] else msg ∷ []
offer here s runs_task = []
offer here s (writable rs) = []

-- All the messages sent from one side, in order.
unfoldable pub offers : Bool → Outgoing → List Event → List (List ℕ)
offers here s [] = []
offers here s (e ∷ es) = elim (step s e) [ none ↦ [] | some t ↦ offer here s e ++ offers here t es ]

-- Memory for the next task suffices.
abbrev pub HasRoom : Connection → List (List ℕ) → Type 0
HasRoom c [] = Unit {0}
HasRoom c (msg ∷ tasks) = Fits c.outputbuf (length msg)

-- Memory suffices for what is written, `::send` takes no more than it is given, and the kernel answers
-- until the loop stops.
abbrev pub Allowed : Outgoing → Event → Type 0
Allowed s (sends here msg) = Fits s.conn.outputbuf (length msg)
Allowed s runs_task = HasRoom s.conn s.tasks
Allowed s (writable rs) = Takes s.conn.outputbuf rs × (readable_bytes s.conn.outputbuf ≤ length rs)

abbrev pub AllAllowed : Outgoing → List Event → Type 0
AllAllowed s [] = Unit {0}
AllAllowed s (e ∷ es) =
    Allowed s e × (elim (step s e) [ none ↦ Unit {0} | some t ↦ AllAllowed t es ])
