-- ===== src/Server/Safety.antt =====
-- The handlers, one after the other, in any order.
use reactor_network_library.Prelude.{
  ℕ, ◌%◌, ◌<◌, ◌≡◌, refl, sym, ap, ◌∙◌, Bool, true, Option, none, some, List, [], ◌==◌, lookup,
  subst,
}
use reactor_network_library.EventLoop.Recency
use reactor_network_library.EventLoop.Recency.{Recency, Node}
use reactor_network_library.EventLoop.Recency.Index.{value_of}
use reactor_network_library.EventLoop.Recency.Order.{empty-IsIndexed}
use reactor_network_library.Server.{
  Server, Effect, create_connection, held, handle_timer, end_round, touch, close_connection,
}
use reactor_network_library.Server.Ownership.{Agrees, touch-Agrees}
use reactor_network_library.Server.Rounds.{
  handle_timer-Agrees, end_round-Agrees, close_connection-Agrees, create_connection-Agrees,
}

-- What happens to the server: the kernel hands out a descriptor, a connection of loop `i` is active or
-- asks to be closed, the timer of loop `i` fires, a round of loop `i` ends.
pub data Event : Type 0 where
  accepts : ℕ → Event
  active closes : ℕ → ℕ → Event
  timer : ℕ → (ℕ → ℕ) → ℕ → ℕ → Event
  ends : ℕ → Event

unfoldable pub step : Server → Event → Option (Server × List Effect)
step s (accepts fd) = create_connection s fd
step s (active i fd) = elim (touch s i fd) [ none ↦ none | some t ↦ some (t, []) ]
step s (closes i fd) = some (close_connection s i fd, [])
step s (timer i last now interval) = some (handle_timer s i last now interval)
step s (ends i) = end_round s i

-- The kernel hands out no descriptor that is still open, and a connection closes itself on its own
-- loop.
abbrev pub Happens : Server → Event → Type 0
Happens s (accepts fd) = lookup fd s.client_connection_map ≡ none
Happens s (closes i fd) = (i == fd % s.threadsnums) ≡ true
Happens s _ = Unit {0}

-- Every event succeeds, no iterator being dead, and keeps the ownership.
pub step-Agrees :
    (s : Server) (e : Event)
    → Agrees s
    → Happens s e
    → (r : Server × List Effect) × (step s e ≡ some r) × Agrees r.0
unfolding step
step-Agrees s (accepts fd) a h =
    let (r, e, b, held, calls) = create_connection-Agrees s fd a h in (r, e, b)
step-Agrees s (active i fd) a h =
    let (t, e, b) = touch-Agrees s i fd a in ((t, []), rw (e, step) refl, b)
step-Agrees s (closes i fd) a h =
    ((close_connection s i fd, []), refl, close_connection-Agrees s i fd a h)
step-Agrees s (timer i last now interval) a h =
    (handle_timer s i last now interval, refl, handle_timer-Agrees s i last now interval a)
step-Agrees s (ends i) a h = end_round-Agrees s i a

-- The servers that events lead to.
pub data Reach (s : Server) : Server → Type 0 where
  here : Reach s s
  next :
      {t u : Server} (e : Event) (effects : List Effect)
      → Reach s t
      → Happens t e
      → step t e ≡ some (u, effects)
      → Reach s u

Reach-Agrees : {s t : Server} → Agrees s → Reach s t → Agrees t
Reach-Agrees a here = a
Reach-Agrees a (next {t = t} {u = u} e effects r h p) =
    let (q, found, b) = step-Agrees t e (Reach-Agrees a r) h in
    subst Agrees (ap (λ (x : Server × List Effect). x.0) (some-eq (sym found ∙ p))) b
  where
    some-eq : {x y : Server × List Effect} → some x ≡ some y → x ≡ y
    some-eq q = cc

-- The server of the constructor, before `start`.
unfoldable pub init : ℕ → Bool → Bool → Server
init n handles_create handles_delete = record {
  threadsnums = n;
  psubloop = λ i. Recency.empty;
  client_connection_map = [];
  next_conn = 0;
  handles_create = handles_create;
  handles_delete = handles_delete;
}

pub init-Agrees : (n : ℕ) (c d : Bool) → 0 < n → Agrees (init n c d)
unfolding init lookup value_of
init-Agrees n c d h = record {
  threads = h;
  indexed = λ i. empty-IsIndexed;
  owned = λ fd. refl;
  elsewhere = λ i fd other. refl;
  local = λ i fd q. cc;
}

-- From the start of a server with at least one sub-loop, whatever events happen and in whatever
-- order: the next event that may happen succeeds, so no iterator is used after its node is gone, and
-- it leaves each client in the list of sub-loop `fd % threads` and in no other.
pub Reach-safe :
    (n : ℕ) (c d : Bool) {s : Server} (e : Event)
    → 0 < n
    → Reach (init n c d) s
    → Happens s e
    → Agrees s × ((r : Server × List Effect) × (step s e ≡ some r) × Agrees r.0)
Reach-safe n c d {s} e h r may =
    let a = Reach-Agrees (init-Agrees n c d h) r in (a, step-Agrees s e a may)
