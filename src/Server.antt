-- ===== src/Server.antt =====
-- src/TcpServer.cpp and src/include/TcpServer.h with the connection lists of its event loops: who
-- owns a Connection, and when it is destroyed. A handler returns the calls that it makes into other
-- parts, in order, beside the new state. The locks make each handler's work on one map atomic; the
-- handlers run one after the other here.
pub mod Ownership
pub mod Rounds
pub mod Safety
pub mod Clock
pub mod Listed
pub mod Idle
pub mod Timing
pub mod Interest
mod Tests
use reactor_network_library.Prelude.{
  ℕ, ◌+◌, ◌%◌, ◌≡◌, Bool, true, false, Option, none, some, List, [], ◌∷◌, ◌++◌, ◌==◌, if◌then◌else◌,
  lookup, insert, erase,
}
use reactor_network_library.EventLoop.Recency
use reactor_network_library.EventLoop.Recency.{Recency}

-- What a handler calls: `addToEpoll` of a Connection, its destructor, and the callbacks that the
-- user may set.
pub data Effect : Type 0 where
  adds_to_epoll destroys : ℕ → Effect
  user_created user_deleted : ℕ → Effect

-- A Connection is a number. `clientConnectionMap` holds the `shared_ptr`s.
pub record Server : Type 0 where
  pub threadsnums : ℕ
  pub psubloop : ℕ → Recency
  pub client_connection_map : List (ℕ × ℕ)
  pub next_conn : ℕ
  pub handles_create : Bool
  pub handles_delete : Bool

unfoldable pub update_loop : (ℕ → Recency) → ℕ → Recency → ℕ → Recency
update_loop loops i t j = if i == j then t else loops j

-- The destructor runs where the map held the last `shared_ptr`.
unfoldable pub destroyed : Server → ℕ → List Effect
destroyed s fd = elim (lookup fd s.client_connection_map) [
  | none ↦ []
  | some conn ↦ destroys conn ∷ []
]

-- The state after `createconnection`: the map, and the sub-loop that gets the Connection.
unfoldable pub created : Server → ℕ → Server
created s fd = record s {
  psubloop =
      update_loop s.psubloop (fd % s.threadsnums)
        (Recency.new_connection (s.psubloop (fd % s.threadsnums)) fd s.next_conn);
  client_connection_map = insert fd s.next_conn s.client_connection_map;
  next_conn = s.next_conn + 1;
}

-- `createconnection`. With no sub-loop the remainder is a division by zero: `none`.
unfoldable pub create_connection : Server → ℕ → Option (Server × List Effect)
unfolding destroyed created
create_connection s fd =
    if s.threadsnums == 0
    then none
    else some (
      created s fd,
      destroyed s fd
          ++ adds_to_epoll s.next_conn ∷ (if s.handles_create then user_created fd ∷ [] else []),
    )

-- `deleteconnection`
unfoldable pub delete_connection : Server → ℕ → Server × List Effect
unfolding destroyed
delete_connection s fd = (
  record s { client_connection_map = erase fd s.client_connection_map },
  destroyed s fd ++ (if s.handles_delete then user_deleted fd ∷ [] else []),
)

-- `removeTimeOutConnection`
unfoldable pub remove_timeout_connection : Server → ℕ → Server × List Effect
unfolding destroyed
remove_timeout_connection s fd =
    (record s { client_connection_map = erase fd s.client_connection_map }, destroyed s fd)

-- `for (auto fd : …) callback(fd);`
unfoldable pub call_each :
    (Server → ℕ → Server × List Effect) → Server → List ℕ → Server × List Effect
call_each callback s [] = (s, [])
call_each callback s (fd ∷ fds) =
    let (t, now) = callback s fd in let (u, later) = call_each callback t fds in (u, now ++ later)

-- `weak_ptr::lock`: the map holds the Connection. `last` is the time of its last activity.
unfoldable pub held : List (ℕ × ℕ) → ℕ → Bool
held [] conn = false
held ((fd, c) ∷ m) conn = if c == conn then true else held m conn

unfoldable pub lock : Server → (ℕ → ℕ) → ℕ → Option ℕ
unfolding held
lock s last conn = if held s.client_connection_map conn then some (last conn) else none

-- `EventLoop::handleTimer` of sub-loop `i`, with `m_timerCallback` as the server sets it.
unfoldable pub handle_timer : Server → ℕ → (ℕ → ℕ) → ℕ → ℕ → Server × List Effect
unfolding call_each
handle_timer s i last now interval =
    let (t, gone) = Recency.remove_timeout_connection (lock s last) now interval (s.psubloop i) in
    call_each remove_timeout_connection (record s { psubloop = update_loop s.psubloop i t }) gone

-- The end of a round of sub-loop `i`: `EventLoop::deleteConnection`, with `m_delayDeleteCallback` as
-- the server sets it.
unfoldable pub end_round : Server → ℕ → Option (Server × List Effect)
unfolding call_each
end_round s i = elim (Recency.delete_connection (s.psubloop i)) [
  | none ↦ none
  | some (t, gone) ↦
      some (call_each delete_connection (record s { psubloop = update_loop s.psubloop i t }) gone)
]

-- `Connection::onmessage` on sub-loop `i`: `updateConnection`.
unfoldable pub touch : Server → ℕ → ℕ → Option Server
touch s i fd = elim (Recency.update_connection (s.psubloop i) fd) [
  | none ↦ none
  | some t ↦ some (record s { psubloop = update_loop s.psubloop i t })
]

-- `Connection::closeconnection` on sub-loop `i`: `delayDelete`.
unfoldable pub close_connection : Server → ℕ → ℕ → Server
close_connection s i fd = record s {
  psubloop = update_loop s.psubloop i (Recency.delay_delete (s.psubloop i) fd);
}
