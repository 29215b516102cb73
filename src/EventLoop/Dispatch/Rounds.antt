-- ===== src/EventLoop/Dispatch/Rounds.antt =====
-- The rounds of `loop`, against what each answer is due.
use reactor_network_library.Prelude.{
  ℕ, ◌≡◌, refl, inl, inr, Bool, false, not, List, [], ◌∷◌, ◌++◌, map, ◌==◌, if◌then◌else◌, eintr,
  Bool-cases,
}
use reactor_network_library.Channel.{sethappenevents}
use reactor_network_library.EventLoop.Dispatch.{
  Answer, failed, ready, epollwait, Call, handles_events, deletes_connection, handles_timeout,
  round,
}

-- The calls that an answer is due, if the `errno` before it is not EINTR.
abbrev pub due : Answer → List Call
due (failed errno) = []
due (ready []) = handles_timeout ∷ []
due (ready (r ∷ rs)) =
    map handles_events (map (λ x. sethappenevents x.0 x.1) (r ∷ rs)) ++ (deletes_connection ∷ [])

-- An answer that ends the loop.
abbrev pub is_fatal : Answer → Bool
is_fatal (failed errno) = not (errno == eintr)
is_fatal (ready rs) = false

-- A time-out with `errno` EINTR.
abbrev pub is_stale : ℕ → Answer → Bool
is_stale errno (failed e) = false
is_stale errno (ready []) = errno == eintr
is_stale errno (ready (r ∷ rs)) = false

-- Every round: `loop` returns for an error other than EINTR and for nothing else, the Channels that
-- are ready get their events and are handled in order, and `deleteConnection` comes after all of them.
-- A time-out calls the handler, except where `errno` still holds EINTR from an earlier call.
pub round_lem :
    (errno : ℕ) (answer : Answer)
    → round errno answer ≡ (is_fatal answer, if is_stale errno answer then [] else due answer)
unfolding round epollwait
round_lem errno (failed e) = elim (Bool-cases (e == eintr)) [
  | inl interrupted ↦ rw (interrupted, round) (rw (interrupted, round) refl)
  | inr bad ↦ rw (bad, round) (rw (bad, round) refl)
]
round_lem errno (ready []) = elim (Bool-cases (errno == eintr)) [
  | inl stale ↦ rw stale refl
  | inr fresh ↦ rw fresh refl
]
round_lem errno (ready (r ∷ rs)) = refl
