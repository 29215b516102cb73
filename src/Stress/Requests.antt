-- ===== src/Stress/Requests.antt =====
-- The requests that `try_fill_pipe` of StressTest/test.cpp sends.
use reactor_network_library.Prelude.{
  ℕ, zero, suc, ◌+◌, ◌%◌, ◌^◌, ◌≤◌, ◌<◌, ◌≡◌, true, false, Option, none, some, List, [], ◌++◌,
  length,
}
use reactor_network_library.Stress.{Client, Answer, write_all, make_request, pipe_depth, sent}
use reactor_network_library.Stress.Writing.{Within}

-- The bytes of `k` requests from number `n` on.
unfoldable pub requests : ℕ → ℕ → List ℕ
requests n zero = []
requests n (suc k) = make_request n ++ requests (n + 1) k

-- The same for all the requests of `try_fill_pipe`.
abbrev pub AllWithin : ℕ → Client → List Answer → Type 0
AllWithin zero c rs = Unit {0}
AllWithin (suc fuel) c rs = Within (make_request c.n) rs × (elim (write_all (make_request c.n) rs) [
  | none ↦ Unit {0}
  | some (false, taken, left) ↦ Unit {0}
  | some (true, taken, left) ↦ AllWithin fuel (sent c) left
])

-- Where `try_fill_pipe` stopped, `k` requests later: with the pipe full, or with a request of which the
-- kernel took `part` only.
pub data Filled (c d : Client) (k : ℕ) (part : List ℕ) : Type 0 where
  full : d.inflight ≡ pipe_depth → part ≡ [] → d.n ≡ c.n + k → Filled c d k part
  stuck :
      (rest : List ℕ)
      → make_request (c.n + k) ≡ part ++ rest
      → 0 < length rest
      → d.n ≡ c.n + k + 1
      → Filled c d k part

-- What `try_fill_pipe` makes of the answers, `k` requests later.
abbrev pub Fills : Client → Option (Client × List ℕ) → Type 0
Fills c out =
    (d : Client) × (k : ℕ) × (part : List ℕ) × (out ≡ some (d, requests c.n k ++ part))
    × (d.inflight ≡ c.inflight + k)
    × (d.inflight ≤ pipe_depth)
    × (d.send_cnt % 2 ^ 64 ≡ (c.send_cnt + k) % 2 ^ 64)
    × Filled c d k part
