-- ===== src/Echo/Tests.antt =====
-- Runs on small inputs, and the instances of the theorems.
use reactor_network_library.Prelude.{
  eintr, eagain, false, ℕ, ◌+◌, ◌≡◌, refl, List, [], ◌∷◌, ◌++◌, length,
}
use reactor_network_library.Buffer.{Buffer, ReadResult, got, failed}
use reactor_network_library.Connection.{Connection}
use reactor_network_library.Echo.Chunks
use reactor_network_library.Echo.{frame, htonl_bytes, on_message}

-- The messages "h" and "io", and one byte of a third.
abbrev wire : List ℕ
wire = 0 ∷ 0 ∷ 0 ∷ 1 ∷ 104 ∷ 0 ∷ 0 ∷ 0 ∷ 2 ∷ 105 ∷ 111 ∷ 0 ∷ []

-- A length of 2 ^ 30, and one byte.
abbrev bomb : List ℕ
bomb = 64 ∷ 0 ∷ 0 ∷ 0 ∷ 7 ∷ []

abbrev filled : List ℕ → Buffer
filled bytes = record {
  buffer = (0 ∷ 0 ∷ 0 ∷ 0 ∷ 0 ∷ 0 ∷ 0 ∷ 0 ∷ []) ++ bytes;
  reader_index = 8;
  writer_index = 8 + length bytes;
}

abbrev two : List (List ℕ)
two = (104 ∷ []) ∷ (105 ∷ 111 ∷ []) ∷ []

abbrev tail : List ℕ
tail = 0 ∷ []

reply_runs :
    on_message (104 ∷ []) ≡ 0 ∷ 0 ∷ 0 ∷ 8 ∷ 114 ∷ 101 ∷ 112 ∷ 108 ∷ 121 ∷ 58 ∷ 32 ∷ 104 ∷ []
unfolding on_message frame htonl_bytes
reply_runs = refl

abbrev fresh : Connection
fresh = record {
  inputbuf = filled [];
  outputbuf = filled [];
  disconnect = false;
  writing = false;
  closing = false;
  lasttime = 100;
  istimeout = false;
}

-- The bytes of `wire` in two read events, cut within the first length; the second one is interrupted.
abbrev pieces : List (ℕ × List ReadResult)
pieces =
    (101, got (0 ∷ 0 ∷ []) ∷ failed eagain ∷ [])
    ∷ (
      102,
      got (0 ∷ 1 ∷ 104 ∷ 0 ∷ 0 ∷ 0 ∷ 2 ∷ 105 ∷ 111 ∷ 0 ∷ []) ∷ failed eintr ∷ failed eagain ∷ [],
    )
    ∷ []
