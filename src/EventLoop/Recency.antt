-- ===== src/EventLoop/Recency.antt =====
-- The connections of an EventLoop (src/EventLoop.cpp): `m_lruconnection`, most recently active
-- first, `m_connectionmap` from a descriptor to an iterator into that list, and the descriptors in
-- `m_delayDeleteConnectionfd`. An iterator is the number of a list node, which no other node gets.
-- An operation that would use an iterator whose node is gone has no defined behaviour: `none`.
pub mod Index
pub mod Keep
pub mod Order
pub mod Deletion
pub mod Expiry
pub mod Popped
mod Tests
use reactor_network_library.Prelude.{
  ℕ, ◌+◌, ◌≡◌, Bool, true, false, Option, none, some, List, [], ◌∷◌, ◌++◌, map, reverse, arith,
  ◌==◌, leb, if◌then◌else◌, elem, lookup, insert, erase,
}

-- A node of the list: its `weak_ptr` to a Connection, and the `fd()` of that Connection, which never
-- changes.
pub record Node : Type 0 where
  pub place : ℕ
  pub fd : ℕ
  pub conn : ℕ

pub record Recency : Type 0 where
  pub lruconnection : List Node
  pub connectionmap : List (ℕ × ℕ)
  pub delay_delete_connectionfd : List ℕ
  pub next_place : ℕ

abbrev pub empty : Recency
empty = record {
  lruconnection = [];
  connectionmap = [];
  delay_delete_connectionfd = [];
  next_place = 0;
}

-- `*it`
unfoldable pub deref : ℕ → List Node → Option Node
deref p [] = none
deref p (n ∷ ns) = if n.place == p then some n else deref p ns

-- `m_lruconnection.erase(it)`, the node itself
unfoldable pub unlink : ℕ → List Node → List Node
unlink p [] = []
unlink p (n ∷ ns) = if n.place == p then ns else n ∷ unlink p ns

unfoldable pub new_connection : Recency → ℕ → ℕ → Recency
new_connection s fd conn = record s {
  lruconnection = record { place = s.next_place; fd = fd; conn = conn } ∷ s.lruconnection;
  connectionmap = insert fd s.next_place s.connectionmap;
  next_place = s.next_place + 1;
}

-- `splice` of the node to the front.
unfoldable pub splice_front : Recency → ℕ → Option Recency
splice_front s p = elim (deref p s.lruconnection) [
  | none ↦ none
  | some n ↦ some (record s { lruconnection = n ∷ unlink p s.lruconnection })
]

unfoldable pub update_connection : Recency → ℕ → Option Recency
unfolding splice_front
update_connection s fd = elim (lookup fd s.connectionmap) [
  | none ↦ some s
  | some p ↦ splice_front s p
]

-- `m_delayDeleteConnectionfd.insert(fd)`
unfoldable pub delay_delete : Recency → ℕ → Recency
delay_delete s fd = record s {
  delay_delete_connectionfd =
      if elem fd s.delay_delete_connectionfd
      then s.delay_delete_connectionfd
      else fd ∷ s.delay_delete_connectionfd;
}

-- One round of the first loop of `deleteConnection`.
unfoldable pub delete_one : Recency → ℕ → Option Recency
delete_one s fd = elim (lookup fd s.connectionmap) [
  | none ↦ some s
  | some p ↦ elim (deref p s.lruconnection) [
    | none ↦ none
    | some n ↦ some (record s {
      lruconnection = unlink p s.lruconnection;
      connectionmap = erase fd s.connectionmap;
    })
  ]
]

unfoldable pub delete_each : Recency → List ℕ → Option Recency
delete_each s [] = some s
delete_each s (fd ∷ fds) = elim (delete_one s fd) [ none ↦ none | some t ↦ delete_each t fds ]

-- `deleteConnection`: the state after it, and the descriptors that `m_delayDeleteCallback` is called
-- with, in order. The set is walked in the order of the list.
unfoldable pub delete_connection : Recency → Option (Recency × List ℕ)
delete_connection s = elim (delete_each s s.delay_delete_connectionfd) [
  | none ↦ none
  | some t ↦ some (record t { delay_delete_connectionfd = [] }, s.delay_delete_connectionfd)
]

-- `isTimeOut`: `time(nullptr) - m_lasttime.toint() >= interval`.
unfoldable pub is_timeout : ℕ → ℕ → ℕ → Bool
is_timeout now last interval = leb (last + interval) now

module _ (lock : ℕ → Option ℕ) (now interval : ℕ) where
  -- The `while` loop of `removeTimeOutConnection` over the list from its back: what is left of the
  -- list, and of the map, and `timeoutfds`. `lock` is `weak_ptr::lock`, with the time of the
  -- Connection's last activity.
  unfoldable pub expire : List Node → List (ℕ × ℕ) → List Node × List (ℕ × ℕ) × List ℕ
  expire [] m = ([], m, [])
  expire (n ∷ ns) m = elim (lock n.conn) [
    | none ↦ expire ns m
    | some last ↦ elim (is_timeout now last interval) [
      | true ↦ let (left, m', fds) = expire ns (erase n.fd m) in (left, m', n.fd ∷ fds)
      | false ↦ (n ∷ ns, m, [])
    ]
  ]

  -- The state after `removeTimeOutConnection`, and the descriptors that `m_timerCallback` is called
  -- with, in order.
  unfoldable pub remove_timeout_connection : Recency → Recency × List ℕ
  remove_timeout_connection s =
      let (left, m, fds) = expire (reverse s.lruconnection) s.connectionmap in
      (record s { lruconnection = reverse left; connectionmap = m }, fds)
