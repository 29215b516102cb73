-- ===== src/EventLoop/Dispatch.antt =====
-- A round of `loop` in src/EventLoop.cpp, with `epollwait` of src/Epoll.cpp. The answer of the system
-- call `epoll_wait` is a parameter.
pub mod Rounds
mod Tests
use reactor_network_library.Prelude.{
  ℕ, ◌-◌, ◌^◌, ◌≡◌, Bool, true, false, Option, none, some, List, [], ◌∷◌, ◌++◌, map, arith, ◌==◌,
  if◌then◌else◌, eintr,
}
use reactor_network_library.Channel.{Channel, sethappenevents}

-- What `epoll_wait` answers: -1 with an `errno`, or the Channels that are ready, each with its events.
pub data Answer : Type 0 where
  failed : ℕ → Answer
  ready : List (Channel × ℕ) → Answer

-- An `int` of -1.
abbrev pub minus_one : ℕ
minus_one = 2 ^ 32 - 1

-- `epollwait`: the timeout that it leaves, and the Channels.
unfoldable pub epollwait : ℕ → Answer → ℕ × List Channel
epollwait timeout (failed errno) = if errno == eintr then (timeout, []) else (minus_one, [])
epollwait timeout (ready []) = (0, [])
epollwait timeout (ready (r ∷ rs)) = (0, map (λ x. sethappenevents x.0 x.1) (r ∷ rs))

-- `errno` behind the call, which a success leaves as it was.
abbrev pub errno_after : ℕ → Answer → ℕ
errno_after before (failed errno) = errno
errno_after before (ready rs) = before

-- The calls of a round: `handleevents` of a Channel, `deleteConnection`, `m_handletimeout`.
pub data Call : Type 0 where
  handles_events : Channel → Call
  deletes_connection handles_timeout : Call

-- The body of the `while` loop: whether `loop` returns, and the calls, in order.
unfoldable pub round : ℕ → Answer → Bool × List Call
unfolding epollwait
round errno answer =
    let (timeout, channels) = epollwait 10 answer in
    elim channels [
      | [] ↦
          if errno_after errno answer == eintr
          then (false, [])
          else if timeout == 0
          then (false, handles_timeout ∷ [])
          else if timeout == minus_one
          then (true, [])
          else (false, [])
      | c ∷ cs ↦ (false, map handles_events (c ∷ cs) ++ (deletes_connection ∷ []))
    ]

-- `loop` over the rounds that come, each with what `m_stop` holds before it. A list that is used up
-- before the loop ends gives `none`.
unfoldable pub loop : ℕ → List (Bool × Answer) → Option (List Call)
loop errno [] = none
loop errno ((stop, answer) ∷ rounds) =
    let rest = loop (errno_after errno answer) rounds in
    let (returns, calls) = round errno answer in
    if stop
    then some []
    else if returns
    then some calls
    else (elim rest [ none ↦ none | some later ↦ some (calls ++ later) ])
