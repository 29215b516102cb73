-- ===== src/EventLoop/Recency/Tests.antt =====
-- A loop with three connections, runs of the operations on it, and the theorems at it.
use reactor_network_library.Prelude.{
  ℕ, ◌*◌, ◌≡◌, refl, not, Option, none, some, [], ◌∷◌, reverse, arith, elem, insert, erase,
  if◌then◌else◌,
}
use reactor_network_library.EventLoop.Recency.{
  Recency, empty, new_connection, update_connection, delay_delete, delete_connection, expire,
  remove_timeout_connection, is_timeout,
}
use reactor_network_library.EventLoop.Recency.Index.{fds, conn_of, IsIndexed}
use reactor_network_library.EventLoop.Recency.Keep.{keep}
use reactor_network_library.EventLoop.Recency.Order.{
  empty-IsIndexed, to_front, remove_all, new_connection_lem, update_connection_lem,
}
use reactor_network_library.EventLoop.Recency.Deletion.{delete_connection_lem, delay_delete_lem}
use reactor_network_library.EventLoop.Recency.Expiry.{stale, remove_timeout_connection_lem}

-- Descriptors 7, 5 and 4, the last accepted first.
abbrev one : Recency
one = new_connection empty 4 10

abbrev two : Recency
two = new_connection one 5 11

abbrev three : Recency
three = new_connection two 7 12

-- The connection with descriptor 5 asks to be closed.
abbrev closing : Recency
closing = delay_delete three 5

one-IsIndexed : IsIndexed one
one-IsIndexed = (new_connection_lem 4 10 empty-IsIndexed refl).0

two-IsIndexed : IsIndexed two
unfolding new_connection
two-IsIndexed = (new_connection_lem 5 11 one-IsIndexed refl).0

three-IsIndexed : IsIndexed three
unfolding new_connection
three-IsIndexed = (new_connection_lem 7 12 two-IsIndexed refl).0

abbrev last_active : ℕ → ℕ
last_active c = c * 100

abbrev all_alive : ℕ → Option ℕ
all_alive c = some (last_active c)

-- At 1450 the connection with descriptor 4 has been idle for 450.
timer_takes_oldest : (remove_timeout_connection all_alive 1450 300 three).1 ≡ 4 ∷ 5 ∷ []
unfolding remove_timeout_connection new_connection is_timeout insert expire erase
timer_takes_oldest = refl

three_order : fds (new_connection two 7 12).lruconnection ≡ 7 ∷ 5 ∷ 4 ∷ []
unfolding new_connection
three_order = (new_connection_lem 7 12 two-IsIndexed refl).1

update_connection_lem_example :
    (t : Recency) × (update_connection three 5 ≡ some t)
    × IsIndexed t
    × (fds t.lruconnection ≡ to_front 5 (fds three.lruconnection))
    × ((k : ℕ) → conn_of k t.lruconnection ≡ conn_of k three.lruconnection)
    × (t.delay_delete_connectionfd ≡ three.delay_delete_connectionfd)
update_connection_lem_example = update_connection_lem 5 three-IsIndexed

delete_connection_lem_example :
    (t : Recency) × (delete_connection closing ≡ some (t, closing.delay_delete_connectionfd))
    × IsIndexed t
    × (fds t.lruconnection
        ≡ remove_all closing.delay_delete_connectionfd (fds closing.lruconnection))
    × (t.delay_delete_connectionfd ≡ [])
    × ((k : ℕ)
        → conn_of k t.lruconnection ≡ (
            if elem k closing.delay_delete_connectionfd
            then none
            else conn_of k closing.lruconnection))
delete_connection_lem_example = delete_connection_lem ((delay_delete_lem three 5).1 three-IsIndexed)

remove_timeout_connection_lem_example :
    let (t, gone) = remove_timeout_connection all_alive 1450 300 three in
    (t.lruconnection ≡ keep (λ n. not (stale last_active 1450 300 n)) three.lruconnection)
    × (gone ≡ reverse (fds (keep (stale last_active 1450 300) three.lruconnection)))
    × IsIndexed t
unfolding new_connection
remove_timeout_connection_lem_example =
    remove_timeout_connection_lem last_active 1450 300 all_alive three three-IsIndexed (omega arith)
      (refl, (refl, (refl, tt)))
