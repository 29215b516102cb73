-- ===== src/Server/Interest.antt =====
-- The Connections of src/TcpServer.cpp and the epolls of their loops: the constructor, `addToEpoll`,
-- `writeTo` and the destructor of src/Connection.cpp, as far as the Channel goes. A Connection is
-- destroyed when it leaves the map, so no thread holds a `shared_ptr` to it at that time. Each loop has
-- a kernel of its own, and `ctl` is `epoll_ctl` on it.
pub mod Change
pub mod Kept
pub mod Lifetime
pub mod Handlers
pub mod Turns
pub mod Always
mod Tests
use reactor_network_library.Prelude.{
  ℕ, ◌%◌, Bool, true, false, ◌&&◌, Option, none, some, List, [], ◌∷◌, ◌==◌, if◌then◌else◌, lookup,
}
use reactor_network_library.Channel.{
  CtlOp, Channel, create, setepollet, enablereading, enablewriting, disablewriting, remove,
}
use reactor_network_library.Server.{
  Server, Effect, adds_to_epoll, destroys, user_created, user_deleted,
}
use reactor_network_library.Server.Safety.{Event, accepts, active, closes, timer, ends, step}

-- The epoll of each loop, and the Channel of each Connection.
pub record Watch (K : Type 0) : Type 0 where
  pub epolls : ℕ → K
  pub channels : ℕ → Channel

unfoldable pub set_at {ℓ} : {A : Type ℓ} → (ℕ → A) → ℕ → A → ℕ → A
set_at f i a j = if i == j then a else f j

-- The Channel that the constructor of a Connection makes.
unfoldable pub connection_channel : ℕ → Channel
connection_channel fd = setepollet (create fd)

unfoldable pub construct : {K : Type 0} → Watch K → ℕ → ℕ → Watch K
construct w conn fd = record w { channels = set_at w.channels conn (connection_channel fd) }

-- What an event constructs before its calls.
unfoldable pub constructed : {K : Type 0} → Server → Event → Watch K → Watch K
constructed s (accepts fd) w = construct w s.next_conn fd
constructed s (active i fd) w = w
constructed s (closes i fd) w = w
constructed s (timer i last now interval) w = w
constructed s (ends i) w = w

-- A call of the Channel of a Connection, on the epoll of its loop.
unfoldable pub on_channel :
    {K : Type 0} → (K → Channel → Bool × K × Channel) → ℕ → Watch K → ℕ → Bool × Watch K
unfolding set_at
on_channel op n w conn =
    let c = w.channels conn in
    let (done, k, c') = op (w.epolls (c.fd % n)) c in
    (done, record { epolls = set_at w.epolls (c.fd % n) k; channels = set_at w.channels conn c' })

module _ {K : Type 0} (ctl : K → CtlOp → ℕ → ℕ → Bool × K) where
  -- `addToEpoll`, and `~Connection`.
  unfoldable pub perform : ℕ → Watch K → Effect → Bool × Watch K
  perform n w (adds_to_epoll conn) = on_channel (enablereading ctl) n w conn
  perform n w (destroys conn) = on_channel (remove ctl) n w conn
  perform n w (user_created fd) = (true, w)
  perform n w (user_deleted fd) = (true, w)

  -- The calls in order, and whether every `epoll_ctl` succeeded.
  unfoldable pub perform_all : ℕ → Watch K → List Effect → Bool × Watch K
  perform_all n w [] = (true, w)
  perform_all n w (x ∷ xs) =
      let (done, v) = perform n w x in let (rest, u) = perform_all n v xs in (done && rest, u)

-- An event of the server; or the Connection of a descriptor asks for room to write, or no longer does.
pub data Turn : Type 0 where
  occurs : Event → Turn
  writes_on writes_off : ℕ → Turn

module _ {K : Type 0} (ctl : K → CtlOp → ℕ → ℕ → Bool × K) where
  -- `none` is a turn that cannot come.
  unfoldable pub turn : Server → Watch K → Turn → Option (Bool × Server × Watch K)
  turn s w (occurs e) = elim (step s e) [
    | none ↦ none
    | some (u, effects) ↦
        let (done, v) = perform_all ctl s.threadsnums (constructed s e w) effects in
        some (done, u, v)
  ]
  turn s w (writes_on fd) = elim (lookup fd s.client_connection_map) [
    | none ↦ none
    | some conn ↦
        let (done, v) = on_channel (enablewriting ctl) s.threadsnums w conn in some (done, s, v)
  ]
  turn s w (writes_off fd) = elim (lookup fd s.client_connection_map) [
    | none ↦ none
    | some conn ↦
        let (done, v) = on_channel (disablewriting ctl) s.threadsnums w conn in some (done, s, v)
  ]
