-- ===== src/Stress/Tests.antt =====
-- Runs on small inputs, and the instances of the theorems.
use reactor_network_library.Prelude.{
  eintr, eagain, ℕ, ◌≡◌, refl, some, List, [], ◌∷◌, arith, replicate,
}
use reactor_network_library.Buffer.{ReadResult, failed, got}
use reactor_network_library.Buffer.Storage.{write_at}
use reactor_network_library.Echo.{frame, htonl_bytes}
use reactor_network_library.Echo.Frames.{stream, done, also}
use reactor_network_library.Echo.Chunks.{few}
use reactor_network_library.Stress.{
  Client, init, answered, parse, keep_rest, take_in, recv_loop, Answer, took, refused,
}
use reactor_network_library.Stress.Replies.{Counted}
use reactor_network_library.Stress.Receive.{waiting, IsValid, arrived, AllFit, recv_loop_lem}

-- Two requests in flight, the first byte of a reply, and a buffer of 16 bytes.
abbrev small : Client
small = record init { inflight = 2; g_inflight = 2; recv_buf = replicate 16 0; recv_off = 1 }

-- The replies "a" and "bc", less the first byte, in two pieces, and a byte of the next.
abbrev pieces : List ReadResult
pieces = got (0 ∷ 0 ∷ 1 ∷ 97 ∷ 0 ∷ 0 ∷ []) ∷ got (0 ∷ 2 ∷ 98 ∷ 99 ∷ 0 ∷ []) ∷ failed eagain ∷ []

abbrev replies : List (List ℕ)
replies = (97 ∷ []) ∷ (98 ∷ 99 ∷ []) ∷ []

pieces-AllFit : AllFit 3 small pieces
unfolding take_in parse answered keep_rest write_at
pieces-AllFit = (omega arith, (omega arith, tt))

recv_loop_lem_example :
    (d : Client) × (recv_loop 3 small pieces ≡ some d)
    × (waiting d ≡ 0 ∷ [])
    × IsValid d
    × Counted small d 2
unfolding arrived stream frame htonl_bytes
recv_loop_lem_example =
    recv_loop_lem pieces 3 small {rest = 0 ∷ []} {msgs = replies}
      (record { within = omega arith; below = omega arith }) (few (omega arith)) pieces-AllFit refl
      (also (omega arith) (omega arith) (also (omega arith) (omega arith) done)) (few (omega arith))
      refl (omega arith)

-- All but two of the requests are in flight; the kernel takes 10 bytes, is interrupted, takes 13 more
-- and 5 of the last request.
abbrev almost : Client
almost = record init { inflight = 498; g_inflight = 498; n = 7 }

abbrev sends : List Answer
sends = took 10 ∷ refused eintr ∷ took 13 ∷ took 5 ∷ []

-- The length 2 ^ 32 - 4.
abbrev wrapping : Client
wrapping = record init { recv_buf = 0xFF ∷ 0xFF ∷ 0xFF ∷ 0xFC ∷ []; recv_off = 4 }
